-- ===== src/Scheduler/Tests.antt =====
-- A job at 15, 16 and 17 o'clock on weekdays, on a Sunday.
use data_center.Prelude.{ℕ, ◌≡◌, refl, true, some, [], ◌∷◌, arith}
use data_center.Prelude.Codes.{codes}
use data_center.Scheduler.Fire.{
  HourValue, hour_text, cron_hour_values, scheduled_job_fire_time, at_time,
}
use data_center.Scheduler.Latest.{IsLatest, scheduled_job_fire_time-IsLatest}

-- Sunday, 2026-07-12, 12 o'clock; the Friday before is the day 739807.
abbrev now : ℕ
now = at_time 739809 12 0 0

abbrev hours : HourValue
hours = hour_text (codes "15-17")

fire_test : scheduled_job_fire_time now true hours 30 0 ≡ some (at_time 739807 17 30 0)
unfolding scheduled_job_fire_time
fire_test = refl

list_test : cron_hour_values (hour_text (codes "9,21")) ≡ some (9 ∷ 21 ∷ [])
unfolding cron_hour_values
list_test = refl

hours-read : cron_hour_values hours ≡ some (15 ∷ 16 ∷ 17 ∷ [])
unfolding cron_hour_values
hours-read = refl

scheduled_job_fire_time-IsLatest_example :
    (t : ℕ) × (scheduled_job_fire_time now true hours 30 0 ≡ some t)
    × IsLatest now true 30 0 (15 ∷ 16 ∷ 17 ∷ []) t
scheduled_job_fire_time-IsLatest_example =
    scheduled_job_fire_time-IsLatest now true 30 0 hours 15 (16 ∷ 17 ∷ []) hours-read
      (refl, (refl, (refl, tt))) (omega arith)
