-- ===== src/Regulation/Count.antt =====
-- The count of the events in a window, and the announced state
-- (src/market_data_center/regulation_calculator.py). Of the input and of a candidate, the fields that
-- these functions read.
use data_center.Prelude.{
  ℕ, zero, suc, ◌-◌, Bool, true, false, ◌&&◌, ◌||◌, Option, none, some, List, [], ◌∷◌, ◌++◌, length,
  any, keep, is_some, ltb, leb, ◌==◌, if◌then◌else◌,
}
use data_center.Prelude.Codes.{codes, codes_eq}
use data_center.Domain.Series.Session.{after}
use data_center.Regulation.Rules.{abnormal, serious_abnormal, RegulationDirection}
use data_center.Regulation.Active.{level_place, direction_place}
use data_center.Regulation.Events.{RegulationEventRecord, Timestamp}

pub record CalculationDates : Type 0 where
  pub trade_date : ℕ
  pub next_trade_date : ℕ
  pub trading_dates : List ℕ
  pub event_watermark : Timestamp

pub record CandidateEvents : Type 0 where
  pub events : List RegulationEventRecord
  pub serious_reset_date : Option ℕ

pub data AnnouncedRegulationState : Type 0 where
  none_announced abnormal_announced serious_announced : AnnouncedRegulationState

-- `needle in text`, of a needle that is not empty.
abbrev is_within : List ℕ → List ℕ → Bool
is_within needle [] = false
is_within needle (c ∷ text) = is_some (after needle (c ∷ text)) || is_within needle text

abbrev is_price_deviation_event : RegulationEventRecord → Bool
is_price_deviation_event e = any (is_within (codes "_DEV_")) e.explicit_rule_codes

-- A sorted list of different dates, and one more.
abbrev insert_date : ℕ → List ℕ → List ℕ
insert_date day [] = day ∷ []
insert_date day (d ∷ dates) =
    let rest = insert_date day dates in
    if ltb day d then day ∷ d ∷ dates else if day == d then d ∷ dates else d ∷ rest

-- `tuple(sorted({day for day in days if day <= end_date}))`
abbrev dates_until : ℕ → List ℕ → List ℕ
dates_until end_date [] = []
dates_until end_date (day ∷ days) =
    let rest = dates_until end_date days in if leb day end_date then insert_date day rest else rest

abbrev drop_dates : ℕ → List ℕ → List ℕ
drop_dates zero dates = dates
drop_dates (suc n) [] = []
drop_dates (suc n) (d ∷ dates) = drop_dates n dates

-- `dates[-window_days:]`, of a window that is not negative.
abbrev last_dates : ℕ → List ℕ → List ℕ
last_dates window_days dates =
    if window_days == 0 then dates else drop_dates (length dates - window_days) dates

abbrev pub window_dates : CalculationDates → ℕ → ℕ → List ℕ
window_dates source window_days end_date =
    last_dates window_days
      (dates_until end_date (source.trading_dates ++ source.next_trade_date ∷ []))

abbrev not_reset : Option ℕ → ℕ → Bool
not_reset none day = true
not_reset (some reset_date) day = leb reset_date day

-- The condition of the loop.
abbrev pub is_counted : CalculationDates → CandidateEvents → List ℕ → RegulationEventRecord → Bool
is_counted source candidate valid_dates e =
    leb e.observed_at.instant source.event_watermark.instant
    && any (λ day. e.period_end_date == day) valid_dates
    && not_reset candidate.serious_reset_date e.period_end_date
    && level_place e.event_level == level_place abnormal
    && is_price_deviation_event e

-- Equal natural keys: `(record.source_code, record.source_event_id)`.
abbrev pub same_key : RegulationEventRecord → RegulationEventRecord → Bool
same_key a b = codes_eq a.source_code b.source_code && codes_eq a.source_event_id b.source_event_id

-- `by_key[key] = event`: a key that is there keeps its place, and the event replaces the one before.
unfoldable pub insert_event :
    RegulationEventRecord → List RegulationEventRecord → List RegulationEventRecord
insert_event e [] = e ∷ []
insert_event e (f ∷ events) =
    let rest = insert_event e events in if same_key e f then e ∷ events else f ∷ rest

unfoldable pub collect_events :
    (RegulationEventRecord → Bool)
    → List RegulationEventRecord
    → List RegulationEventRecord
    → List RegulationEventRecord
unfolding insert_event
collect_events counted by_key [] = by_key
collect_events counted by_key (e ∷ events) =
    collect_events counted (if counted e then insert_event e by_key else by_key) events

-- `as_of or source.trade_date`
abbrev pub end_of : CalculationDates → Option ℕ → ℕ
end_of source none = source.trade_date
end_of source (some as_of) = as_of

unfoldable pub events_in_count_window :
    CalculationDates → CandidateEvents → ℕ → Option ℕ → List RegulationEventRecord
unfolding collect_events
events_in_count_window source candidate window_days as_of =
    collect_events
      (is_counted source candidate (window_dates source window_days (end_of source as_of))) []
      candidate.events

-- `event.direction is rule.direction`
abbrev pub has_same_direction : RegulationDirection → Option RegulationDirection → Bool
has_same_direction wanted none = false
has_same_direction wanted (some d) = direction_place d == direction_place wanted

-- What `_evaluate_event_count` works out of the events: the count, whether the rule is triggered, and
-- the distance.
pub record EventCount : Type 0 where
  pub count : ℕ
  pub triggered : Bool
  pub distance : ℕ

unfoldable pub evaluate_event_count :
    CalculationDates → CandidateEvents → RegulationDirection → ℕ → ℕ → EventCount
unfolding events_in_count_window
evaluate_event_count source candidate wanted count_window_days required_count =
    let events = events_in_count_window source candidate count_window_days none in
    let count = length (keep (λ e. has_same_direction wanted e.direction) events) in
    let triggered = leb required_count count in
    record {
      count = count;
      triggered = triggered;
      distance = if triggered then 0 else required_count - count;
    }

abbrev announced : List RegulationEventRecord → AnnouncedRegulationState
announced [] = none_announced
announced (e ∷ events) =
    if any (λ f. level_place f.event_level == level_place serious_abnormal) (e ∷ events)
    then serious_announced
    else abnormal_announced

abbrev pub is_known : CalculationDates → RegulationEventRecord → Bool
is_known source e =
    leb e.observed_at.instant source.event_watermark.instant
    && leb e.period_end_date source.trade_date

unfoldable pub announcement_state : CalculationDates → CandidateEvents → AnnouncedRegulationState
announcement_state source candidate = announced (keep (is_known source) candidate.events)
