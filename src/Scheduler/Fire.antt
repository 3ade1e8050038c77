-- ===== src/Scheduler/Fire.antt =====
-- The fire time of a job, from its hours and the clock (src/market_data_center/scheduler.py).
use data_center.Prelude.{
  ℕ, zero, suc, ◌+◌, ◌-◌, ◌*◌, ◌/◌, ◌%◌, Bool, not, ◌&&◌, Option, none, some, List, [], ◌∷◌, any,
  ltb, leb, ◌==◌, if◌then◌else◌,
}

-- `day.weekday() >= 5`: the ordinal 1 is a Monday.
abbrev pub is_weekend : ℕ → Bool
is_weekend day = leb 5 ((day + 6) % 7)

-- The loop that steps back to a weekday.
unfoldable pub last_weekday : ℕ → ℕ
last_weekday zero = zero
last_weekday (suc day) =
    let earlier = last_weekday day in if is_weekend (suc day) then earlier else suc day

-- `datetime.combine(day, time(hour, minute, second), timezone)`
abbrev pub at_time : ℕ → ℕ → ℕ → ℕ → ℕ
at_time day hour minute second = day * 86400 + (hour * 3600 + minute * 60 + second)

-- The times that `time` takes; it raises a `ValueError` for any other.
abbrev pub is_time : ℕ → ℕ → ℕ → Bool
is_time hour minute second = ltb hour 24 && ltb minute 60 && ltb second 60

module _ (now : ℕ) (weekdays_only : Bool) (minute second : ℕ) where
  -- The day of the candidate before the loop.
  abbrev pub candidate_day : ℕ → ℕ
  candidate_day hour =
      if ltb now (at_time (now / 86400) hour minute second) then now / 86400 - 1 else now / 86400

  unfoldable pub scheduled_fire_time : ℕ → Option ℕ
  unfolding last_weekday
  scheduled_fire_time hour =
      if not (is_time hour minute second)
      then none
      else some (
          at_time (if weekdays_only then last_weekday (candidate_day hour) else candidate_day hour)
            hour minute second)

  abbrev pub greater : Option ℕ → Option ℕ → Option ℕ
  greater (some a) (some b) = if ltb a b then some b else some a
  greater _ _ = none

  -- The `max` over the hours of `_scheduled_job_fire_time`; that of no hours is a `ValueError`.
  unfoldable pub latest_fire_time : List ℕ → Option ℕ
  unfolding scheduled_fire_time
  latest_fire_time [] = none
  latest_fire_time (hour ∷ []) = scheduled_fire_time hour
  latest_fire_time (hour ∷ next ∷ hours) =
      greater (scheduled_fire_time hour) (latest_fire_time (next ∷ hours))

-- `int | str`: a number, or the code points of a text.
pub data HourValue : Type 0 where
  hour_number : ℕ → HourValue
  hour_text : List ℕ → HourValue

-- `int(part)`, of a text without a sign, spaces or underscores; `none` is a `ValueError`.
abbrev digits_from : ℕ → List ℕ → Option ℕ
digits_from n [] = some n
digits_from n (c ∷ text) =
    let rest = digits_from (n * 10 + (c - 48)) text in if leb 48 c && leb c 57 then rest else none

abbrev parse_int : List ℕ → Option ℕ
parse_int [] = none
parse_int (c ∷ text) = digits_from 0 (c ∷ text)

-- `text.split(separator)`: the first part and the others.
abbrev add_code : ℕ → List ℕ × List (List ℕ) → List ℕ × List (List ℕ)
add_code c (part, parts) = (c ∷ part, parts)

abbrev new_part : List ℕ × List (List ℕ) → List ℕ × List (List ℕ)
new_part (part, parts) = ([], part ∷ parts)

abbrev split : ℕ → List ℕ → List ℕ × List (List ℕ)
split separator [] = ([], [])
split separator (c ∷ text) =
    let rest = split separator text in if c == separator then new_part rest else add_code c rest

-- `text.split("-", maxsplit=1)` of a text with a hyphen: the two parts.
abbrev before_hyphen : List ℕ → List ℕ
before_hyphen [] = []
before_hyphen (c ∷ text) = let rest = before_hyphen text in if c == 45 then [] else c ∷ rest

abbrev after_hyphen : List ℕ → List ℕ
after_hyphen [] = []
after_hyphen (c ∷ text) = let rest = after_hyphen text in if c == 45 then text else rest

-- `range(start, start + count)`
abbrev count_up : ℕ → ℕ → List ℕ
count_up start zero = []
count_up start (suc count) = start ∷ count_up (start + 1) count

abbrev hour_range : Option ℕ → Option ℕ → Option (List ℕ)
hour_range (some start) (some end_hour) = some (count_up start (end_hour + 1 - start))
hour_range _ _ = none

abbrev prepend_hour : Option ℕ → Option (List ℕ) → Option (List ℕ)
prepend_hour (some hour) (some hours) = some (hour ∷ hours)
prepend_hour _ _ = none

abbrev parse_hours : List (List ℕ) → Option (List ℕ)
parse_hours [] = some []
parse_hours (part ∷ parts) = prepend_hour (parse_int part) (parse_hours parts)

unfoldable pub cron_hour_values : HourValue → Option (List ℕ)
cron_hour_values (hour_number hour) = some (hour ∷ [])
cron_hour_values (hour_text text) =
    if any (λ c. c == 45) text
    then hour_range (parse_int (before_hyphen text)) (parse_int (after_hyphen text))
    else (let (part, parts) = split 44 text in parse_hours (part ∷ parts))

abbrev pub fire_time_of : ℕ → Bool → Option (List ℕ) → ℕ → ℕ → Option ℕ
fire_time_of now weekdays_only none minute second = none
fire_time_of now weekdays_only (some hours) minute second =
    latest_fire_time now weekdays_only minute second hours

-- `_scheduled_job_fire_time`, of a definition with an hour and a minute; `second or 0` is given.
unfoldable pub scheduled_job_fire_time : ℕ → Bool → HourValue → ℕ → ℕ → Option ℕ
unfolding cron_hour_values latest_fire_time
scheduled_job_fire_time now weekdays_only hours minute second =
    fire_time_of now weekdays_only (cron_hour_values hours) minute second
