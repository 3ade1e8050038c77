-- ===== src/Scheduler/Latest.antt =====
-- The fire time of a job is the latest that has come.
use data_center.Prelude.{
  ℕ, zero, suc, ◌%◌, ◌||◌, ◌&&◌, leb, ◌/◌, ◌≤◌, ◌≡◌, ◌⊎◌, inl, inr, refl, sym, ap, ◌∙◌, subst, Bool,
  true, false, not, ◌&&◌, some, List, [], ◌∷◌, All, ltb, arith, Bool-cases, if◌then◌else◌,
}
use data_center.Scheduler.Fire.{
  is_weekend, last_weekday, at_time, is_time, candidate_day, scheduled_fire_time, latest_fire_time,
  HourValue, cron_hour_values, fire_time_of, scheduled_job_fire_time,
}

last_weekday_le : (day : ℕ) → last_weekday day ≤ day
unfolding last_weekday
last_weekday_le zero = omega arith
last_weekday_le (suc day) = ground (arith, last_weekday_le day)

last_weekday_greatest : (day d : ℕ) → d ≤ day → is_weekend d ≡ false → d ≤ last_weekday day
unfolding last_weekday
last_weekday_greatest zero d h k = omega arith
last_weekday_greatest (suc day) d h k = elim (Bool-cases (is_weekend (suc day))) [
  | inl q ↦ rw q (last_weekday_greatest day d (ground (arith, h, k, q)) k)
  | inr q ↦ rw q h
]

last_weekday_not_weekend : (day : ℕ) → is_weekend (last_weekday (suc (suc (suc day)))) ≡ false
unfolding last_weekday
last_weekday_not_weekend day = ground arith

if-some : (b : Bool) (x y : ℕ) → (if b then some x else some y) ≡ some (if b then x else y)
if-some true x y = refl
if-some false x y = refl

module _ (now : ℕ) (weekdays_only : Bool) (minute second : ℕ) where
  -- A day on which the job fires: of the ordinals, 1 is a Monday and 7 a Sunday.
  abbrev pub is_fire_day : ℕ → Bool
  is_fire_day day = not weekdays_only || (leb 1 (day % 7) && leb (day % 7) 5)

  fire_day_on_weekday : (day : ℕ) → weekdays_only ≡ true → is_fire_day day ≡ not (is_weekend day)
  fire_day_on_weekday day q = ground (arith, q)

  -- The time is one at which the job fires at this hour.
  abbrev pub IsFire : ℕ → ℕ → Type 0
  IsFire hour t = (day : ℕ) × (is_fire_day day ≡ true) × (t ≡ at_time day hour minute second)

  -- No time at which the job fires at this hour and that has come is later.
  abbrev pub IsUpTo : ℕ → ℕ → Type 0
  IsUpTo t hour =
      (day : ℕ)
      → is_fire_day day ≡ true
      → at_time day hour minute second ≤ now
      → at_time day hour minute second ≤ t

  abbrev fire_day : ℕ → ℕ
  fire_day hour =
      if weekdays_only
      then last_weekday (candidate_day now weekdays_only minute second hour)
      else candidate_day now weekdays_only minute second hour

  abbrev fire_instant : ℕ → ℕ
  fire_instant hour = at_time (fire_day hour) hour minute second

  candidate_day_come :
      (hour : ℕ)
      → is_time hour minute second ≡ true
      → 4 ≤ now / 86400
      → (at_time (candidate_day now weekdays_only minute second hour) hour minute second ≤ now)
        × (3 ≤ candidate_day now weekdays_only minute second hour)
  candidate_day_come hour h k = (ground (arith, h), ground (arith, h))

  candidate_day_last :
      (hour day : ℕ)
      → is_time hour minute second ≡ true
      → at_time day hour minute second ≤ now
      → day ≤ candidate_day now weekdays_only minute second hour
  candidate_day_last hour day h k = ground (arith, h)

  fire_day_le : (hour : ℕ) → fire_day hour ≤ candidate_day now weekdays_only minute second hour
  fire_day_le hour = elim (Bool-cases weekdays_only) [
    | inl q ↦ rw q (last_weekday_le _)
    | inr q ↦ rw q (omega arith)
  ]

  last_weekday_early : (day : ℕ) → 3 ≤ day → is_weekend (last_weekday day) ≡ false
  last_weekday_early (suc (suc (suc day))) h = last_weekday_not_weekend day
  last_weekday_early zero h = absurd (omega arith)
  last_weekday_early (suc zero) h = absurd (omega arith)
  last_weekday_early (suc (suc zero)) h = absurd (omega arith)

  fire_day_fires :
      (hour : ℕ)
      → 3 ≤ candidate_day now weekdays_only minute second hour
      → is_fire_day (fire_day hour) ≡ true
  fire_day_fires hour h = elim (Bool-cases weekdays_only) [
    | inl q ↦ fire_day_on_weekday (fire_day hour) q ∙ rw q (ap not (last_weekday_early _ h))
    | inr q ↦ ap (λ b. not b || (leb 1 (fire_day hour % 7) && leb (fire_day hour % 7) 5)) q
  ]

  fire_day_last :
      (hour day : ℕ)
      → is_fire_day day ≡ true
      → day ≤ candidate_day now weekdays_only minute second hour
      → day ≤ fire_day hour
  fire_day_last hour day h k = elim (Bool-cases weekdays_only) [
    | inl q ↦ rw q (last_weekday_greatest _ day k (ground (arith, h, fire_day_on_weekday day q)))
    | inr q ↦ rw q k
  ]

  -- The job fires at the time of one of the hours.
  abbrev pub FiresAt : ℕ → List ℕ → Type 0
  FiresAt t [] = ⊥
  FiresAt t (hour ∷ hours) = IsFire hour t ⊎ FiresAt t hours

  -- The latest time that has come at which the job fires at one of the hours.
  abbrev pub IsLatest : List ℕ → ℕ → Type 0
  IsLatest hours t = (t ≤ now) × FiresAt t hours × All (IsUpTo t) hours

  fire_instant-IsLatest :
      (hour : ℕ)
      → is_time hour minute second ≡ true
      → 4 ≤ now / 86400
      → IsLatest (hour ∷ []) (fire_instant hour)
  fire_instant-IsLatest hour h k =
      let (come, early) = candidate_day_come hour h k in
      (
        omega (arith, come, fire_day_le hour),
        inl (fire_day hour, fire_day_fires hour early, refl),
        (
          λ day fires le.
              omega (arith, fire_day_last hour day fires (candidate_day_last hour day h le)),
          tt,
        ),
      )

  scheduled_fire_time-some :
      (hour : ℕ)
      → is_time hour minute second ≡ true
      → scheduled_fire_time now weekdays_only minute second hour ≡ some (fire_instant hour)
  unfolding scheduled_fire_time
  scheduled_fire_time-some hour h = rw h refl

  IsUpTo-more : (t u : ℕ) (hours : List ℕ) → t ≤ u → All (IsUpTo t) hours → All (IsUpTo u) hours
  IsUpTo-more t u [] h k = tt
  IsUpTo-more t u (hour ∷ hours) h (k, ks) =
      (λ day fires le. omega (arith, h, k day fires le), IsUpTo-more t u hours h ks)

  later-IsLatest :
      (hour : ℕ) (hours : List ℕ) (t u : ℕ)
      → t ≤ u
      → IsLatest (hour ∷ []) t
      → IsLatest hours u
      → IsLatest (hour ∷ hours) u
  later-IsLatest hour hours t u h (come, fire, (up_to, end)) (comes, fires, up_tos) =
      (comes, inr fires, (λ day f le. omega (arith, h, up_to day f le), up_tos))

  earlier-IsLatest :
      (hour : ℕ) (hours : List ℕ) (t u : ℕ)
      → u ≤ t
      → IsLatest (hour ∷ []) t
      → IsLatest hours u
      → IsLatest (hour ∷ hours) t
  earlier-IsLatest hour hours t u h (come, inl fire, (up_to, end)) (comes, fires, up_tos) =
      (come, inl fire, (up_to, IsUpTo-more u t hours h up_tos))
  earlier-IsLatest hour hours t u h (come, inr fire, up_to) latest = absurd fire

  -- The greater of two latest times is the latest for the hours of both.
  greater-IsLatest :
      (hour : ℕ) (hours : List ℕ) (t u : ℕ)
      → IsLatest (hour ∷ []) t
      → IsLatest hours u
      → IsLatest (hour ∷ hours) (if ltb t u then u else t)
  greater-IsLatest hour hours t u one more = elim (Bool-cases (ltb t u)) [
    | inl q ↦
        subst (IsLatest (hour ∷ hours)) (sym (ap (λ b. if b then u else t) q))
          (later-IsLatest hour hours t u (ground (arith, q)) one more)
    | inr q ↦
        subst (IsLatest (hour ∷ hours)) (sym (ap (λ b. if b then u else t) q))
          (earlier-IsLatest hour hours t u (ground (arith, q)) one more)
  ]

  latest_fire_time-IsLatest :
      (hour : ℕ) (hours : List ℕ)
      → All (λ h. is_time h minute second ≡ true) (hour ∷ hours)
      → 4 ≤ now / 86400
      → (t : ℕ) × (latest_fire_time now weekdays_only minute second (hour ∷ hours) ≡ some t)
        × IsLatest (hour ∷ hours) t
  unfolding latest_fire_time
  latest_fire_time-IsLatest hour [] (h, hs) k =
      (fire_instant hour, scheduled_fire_time-some hour h, fire_instant-IsLatest hour h k)
  latest_fire_time-IsLatest hour (next ∷ hours) (h, hs) k =
      let (u, e, latest) = latest_fire_time-IsLatest next hours hs k in
      (
        if ltb (fire_instant hour) u then u else fire_instant hour,
        rw (scheduled_fire_time-some hour h, e) (if-some _ _ _),
        greater-IsLatest hour (next ∷ hours) (fire_instant hour) u (fire_instant-IsLatest hour h k)
            latest,
      )

  -- If its hours are read and are hours of a day, and the clock is past the fourth day, a job has a fire
  -- time, and that is the latest time that has come at which the job fires at one of its hours: on a
  -- weekday, if it runs on weekdays only.
  pub scheduled_job_fire_time-IsLatest :
      (value : HourValue) (hour : ℕ) (hours : List ℕ)
      → cron_hour_values value ≡ some (hour ∷ hours)
      → All (λ h. is_time h minute second ≡ true) (hour ∷ hours)
      → 4 ≤ now / 86400
      → (t : ℕ) × (scheduled_job_fire_time now weekdays_only value minute second ≡ some t)
        × IsLatest (hour ∷ hours) t
  unfolding scheduled_job_fire_time
  scheduled_job_fire_time-IsLatest value hour hours e h k =
      let (t, q, latest) = latest_fire_time-IsLatest hour hours h k in
      (t, ap (λ o. fire_time_of now weekdays_only o minute second) e ∙ q, latest)
