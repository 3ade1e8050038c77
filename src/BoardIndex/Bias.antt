-- ===== src/BoardIndex/Bias.antt =====
-- The calculation of the bias (src/market_data_center/board_index_bias.py).
use Prim.Native.String.{String}
use data_center.Prelude.{
  ℕ, zero, suc, ◌-◌, Bool, not, ◌&&◌, ◌||◌, Option, none, some, List, [], ◌∷◌, ◌++◌, map, length,
  any, has_duplicates, ltb, leb, ◌==◌, if◌then◌else◌,
}
use data_center.Prelude.Codes.{codes, codes_eq}
use data_center.Prelude.Sort.{sort_by}
use data_center.BoardIndex.Records.{DecimalOps, BoardIndexDailyBarRecord}

pub data Direction : Type 0 where
  up down flat : Direction

pub data DataOrigin : Type 0 where
  database ths_live : DataOrigin

pub data PersistenceStatus : Type 0 where
  persisted queued : PersistenceStatus

pub record BoardIndexBiasCalculation (D : Type 0) : Type 0 where
  pub board_id : String
  pub board_code : String
  pub board_name : String
  pub trade_date : ℕ
  pub close : D
  pub moving_average_5 : Option D
  pub bias_5_pct : Option D
  pub previous_trade_date : Option ℕ
  pub previous_bias_5_pct : Option D
  pub bias_direction : Option Direction
  pub window_trading_days : ℕ
  pub bias_sample_count : ℕ
  pub highest_bias_5_pct : Option D
  pub highest_bias_trade_date : Option ℕ
  pub lowest_bias_5_pct : Option D
  pub lowest_bias_trade_date : Option ℕ
  pub algorithm_version : String
  pub data_origin : DataOrigin
  pub persistence_status : PersistenceStatus
  pub fetched_at : ℕ

-- The errors that the calculation raises; the last is that of `scored[-1]` on an empty list.
pub data BiasError : Type 0 where
  empty_history foreign_board duplicate_trade_date index_error : BiasError

pub data Calculated (D : Type 0) : Type 0 where
  ok : BoardIndexBiasCalculation D → Calculated D
  err : BiasError → Calculated D

-- An item of `scored`, and one of `valid_samples`, whose bias is there.
pub record Scored (D : Type 0) : Type 0 where
  pub bar : BoardIndexDailyBarRecord D
  pub moving_average : Option D
  pub bias : Option D

pub record Sample (D : Type 0) : Type 0 where
  pub trade_date : ℕ
  pub bias : D

-- `xs[max(0, len(xs) - count):]`
abbrev pub drop : {A : Type 0} → ℕ → List A → List A
drop zero xs = xs
drop (suc n) [] = []
drop (suc n) (x ∷ xs) = drop n xs

abbrev pub last_of : {A : Type 0} → ℕ → List A → List A
last_of count xs = drop (length xs - count) xs

-- `scored[-1]`, and `scored[-2]` where it is.
abbrev pub last_two : {A : Type 0} → List A → Option (A × Option A)
last_two [] = none
last_two (x ∷ []) = some (x, none)
last_two (x ∷ y ∷ []) = some (y, some x)
last_two (x ∷ y ∷ z ∷ xs) = last_two (y ∷ z ∷ xs)

-- `max` and `min` with a key: of equal keys the first.
abbrev pub best_from : {A : Type 0} → (A → A → Bool) → A → List A → A
best_from beats best [] = best
best_from beats best (x ∷ xs) = best_from beats (if beats x best then x else best) xs

abbrev pub best_of : {A : Type 0} → (A → A → Bool) → List A → Option A
best_of beats [] = none
best_of beats (x ∷ xs) = some (best_from beats x xs)

abbrev pub by_trade_date :
    {D : Type 0} → BoardIndexDailyBarRecord D → BoardIndexDailyBarRecord D → Bool
by_trade_date a b = leb a.trade_date b.trade_date

abbrev pub add_sample : {D : Type 0} → ℕ → Option D → List (Sample D) → List (Sample D)
add_sample trade_date none samples = samples
add_sample trade_date (some bias) samples =
    record { trade_date = trade_date; bias = bias } ∷ samples

abbrev pub valid_samples : {D : Type 0} → List (Scored D) → List (Sample D)
valid_samples [] = []
valid_samples (s ∷ scored) = add_sample s.bar.trade_date s.bias (valid_samples scored)

-- A greater bias, or an equal one of a later date, for the order of the biases or its reverse.
abbrev pub beats : {D : Type 0} → (D → D → Bool) → Sample D → Sample D → Bool
beats less a b = less b.bias a.bias || (not (less a.bias b.bias) && ltb b.trade_date a.trade_date)

module _ {D : Type 0} (ops : DecimalOps D) where
  abbrev sum_from : D → List D → D
  sum_from total [] = total
  sum_from total (x ∷ xs) = sum_from (ops.add total x) xs

  abbrev pub moving_average_of : List (BoardIndexDailyBarRecord D) → D
  moving_average_of window =
      ops.divide (sum_from (ops.number 0) (map (λ item. item.close) window)) (ops.number 5)

  abbrev pub bias_of : D → D → D
  bias_of close average =
      ops.multiply (ops.divide (ops.subtract close average) average) (ops.number 100)

  -- The body of the loop.
  abbrev pub score : BoardIndexDailyBarRecord D → List (BoardIndexDailyBarRecord D) → Scored D
  score r window =
      if not (length window == 5) || any (λ item. not (ops.less (ops.number 0) item.close)) window
      then record { bar = r; moving_average = none; bias = none }
      else record {
        bar = r;
        moving_average = some (moving_average_of window);
        bias = some (bias_of r.close (moving_average_of window));
      }

  -- The loop, from the records before the index on: `ordered[max(0, index - 4) : index + 1]` is the last
  -- five of the records up to the index.
  unfoldable pub score_from :
      List (BoardIndexDailyBarRecord D) → List (BoardIndexDailyBarRecord D) → List (Scored D)
  score_from before [] = []
  score_from before (r ∷ records) =
      score r (last_of 5 (before ++ r ∷ [])) ∷ score_from (before ++ r ∷ []) records

  abbrev direction_of : Option D → Option D → Option Direction
  direction_of (some latest) (some previous) =
      if ops.less previous latest
      then some up
      else if ops.less latest previous
      then some down
      else some flat
  direction_of _ _ = none

  abbrev rounded : Option D → Option D
  rounded none = none
  rounded (some value) = some (ops.round_six_half_up value)

  abbrev bias_at : Option (Scored D) → Option D
  bias_at none = none
  bias_at (some s) = s.bias

  abbrev date_at : Option (Scored D) → Option ℕ
  date_at none = none
  date_at (some s) = some s.bar.trade_date

  abbrev pub sample_bias : Option (Sample D) → Option D
  sample_bias none = none
  sample_bias (some s) = some (ops.round_six_half_up s.bias)

  abbrev pub sample_date : Option (Sample D) → Option ℕ
  sample_date none = none
  sample_date (some s) = some s.trade_date

  -- The lines after the loop.
  abbrev pub calculation_of :
      DataOrigin
      → PersistenceStatus
      → ℕ
      → List (Scored D)
      → Option (Scored D × Option (Scored D))
      → Calculated D
  calculation_of data_origin persistence_status fetched_at scored none = err index_error
  calculation_of data_origin persistence_status fetched_at scored (some (latest, previous)) =
      let samples = valid_samples (last_of 30 scored) in
      let highest = best_of (beats ops.less) samples in
      let lowest = best_of (beats (λ a b. ops.less b a)) samples in
      ok (record {
        board_id = "THS:883423";
        board_code = "883423";
        board_name = "沪深主板昨日涨停";
        trade_date = latest.bar.trade_date;
        close = latest.bar.close;
        moving_average_5 = rounded latest.moving_average;
        bias_5_pct = rounded latest.bias;
        previous_trade_date = date_at previous;
        previous_bias_5_pct = rounded (bias_at previous);
        bias_direction = direction_of latest.bias (bias_at previous);
        window_trading_days = 30;
        bias_sample_count = length samples;
        highest_bias_5_pct = sample_bias highest;
        highest_bias_trade_date = sample_date highest;
        lowest_bias_5_pct = sample_bias lowest;
        lowest_bias_trade_date = sample_date lowest;
        algorithm_version = "board_index_bias_v1";
        data_origin = data_origin;
        persistence_status = persistence_status;
        fetched_at = fetched_at;
      })

  abbrev pub is_foreign : BoardIndexDailyBarRecord D → Bool
  is_foreign r = not (codes_eq r.board_id (codes "THS:883423"))

  abbrev pub trade_dates : List (BoardIndexDailyBarRecord D) → List ℕ
  trade_dates records = map (λ r. r.trade_date) records

  unfoldable pub calculate_board_index_bias :
      List (BoardIndexDailyBarRecord D) → ℕ → DataOrigin → PersistenceStatus → Calculated D
  unfolding score_from
  calculate_board_index_bias [] fetched_at data_origin persistence_status = err empty_history
  calculate_board_index_bias (first ∷ records) fetched_at data_origin persistence_status =
      if any is_foreign (first ∷ records)
      then err foreign_board
      else let ordered = sort_by by_trade_date (first ∷ records) in
        if has_duplicates (λ a b. a == b) (trade_dates ordered)
        then err duplicate_trade_date
        else let scored = score_from [] ordered in
          calculation_of data_origin persistence_status fetched_at scored (last_two scored)
