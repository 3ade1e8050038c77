-- ===== src/Domain/Series.antt =====
-- The opening call auction's series of samples: its slots, sessions and rounds
-- (src/market_data_center/domain/call_auction_market_series.py). A date is its ordinal, and an
-- instant is a number of microseconds of UTC since the start of the ordinal 0, with whether its
-- `datetime` has the offset 0. Shanghai is eight hours ahead of UTC. The constructors
-- of a round and of a session take integers, and what they accept has natural counts. SHA-256 enters as
-- a parameter.
pub mod Slots
pub mod Guards
pub mod Session
mod Tests
use Prim.Native.String.{String}
use data_center.Prelude.Int.{ℤ, pos, pos_part, ltb_ℤ}
use data_center.Prelude.{
  ℕ, zero, suc, ◌+◌, ◌*◌, ◌-◌, ◌/◌, Bool, true, false, not, ◌&&◌, ◌||◌, Option, none, some, List,
  [], ◌∷◌, length, any, all, leb, ltb, ◌==◌, is_none, is_some, map, if◌then◌else◌,
}
use data_center.Prelude.Codes.{codes, codes_eq, codes_lt}

pub data MarketSeriesStatus : Type 0 where
  running succeeded partial failed : MarketSeriesStatus

pub data MarketSeriesValueSemantics : Type 0 where
  auction_indicative opening_trade legacy_source_quote : MarketSeriesValueSemantics

abbrev second : ℕ
second = 1000000

abbrev day : ℕ
day = 86400 * second

-- The instant of a time of day in Shanghai, given in seconds; it is at 08:00 or later.
abbrev shanghai : ℕ → ℕ → ℕ
shanghai trade_date time = trade_date * day + (time - 28800) * second

abbrev series_start : ℕ
series_start = 33300

abbrev series_pre_close_effective_date : ℕ
series_pre_close_effective_date = 739866

abbrev series_pre_close_sample_seq : ℕ
series_pre_close_sample_seq = 30

abbrev series_pre_close_sample_time : ℕ
series_pre_close_sample_time = 33893

abbrev pub series_cadence_seconds : ℕ
series_cadence_seconds = 20

abbrev pub series_round_count : ℕ
series_round_count = 32

abbrev standard_series_slot : ℕ → ℕ → ℕ
standard_series_slot trade_date sample_seq =
    shanghai trade_date series_start + series_cadence_seconds * sample_seq * second

-- `series_slots(trade_date)[sample_seq]`
pub series_slot : ℕ → ℕ → ℕ
series_slot trade_date sample_seq =
    if leb series_pre_close_effective_date trade_date && sample_seq == series_pre_close_sample_seq
    then shanghai trade_date series_pre_close_sample_time
    else standard_series_slot trade_date sample_seq

slots_from : ℕ → ℕ → ℕ → List ℕ
slots_from trade_date sample_seq zero = []
slots_from trade_date sample_seq (suc count) =
    series_slot trade_date sample_seq ∷ slots_from trade_date (suc sample_seq) count

pub series_slots : ℕ → List ℕ
series_slots trade_date = slots_from trade_date 0 series_round_count

-- `none` is the `ValueError` of a `sample_seq` out of range.
pub series_round_deadline : ℕ → ℕ → Option ℕ
series_round_deadline trade_date sample_seq =
    if not (ltb sample_seq series_round_count)
    then none
    else if leb series_pre_close_effective_date trade_date && sample_seq == 29
    then some (shanghai trade_date series_pre_close_sample_time)
    else some (standard_series_slot trade_date (sample_seq + 1))

-- A `datetime`: whether `_require_utc` accepts it, and its instant.
pub record Moment : Type 0 where
  pub is_utc : Bool
  pub instant : ℕ

-- `astimezone(SHANGHAI_ZONE).date()`
abbrev local_date : ℕ → ℕ
local_date instant = (instant + 28800 * second) / day

pub data SeriesError : Type 0 where
  wrong_window wrong_cadence wrong_expected_rounds not_utc finished_before_started : SeriesError
  wrong_universe_count invalid_universe wrong_universe_hash round_counts_exceeded : SeriesError
  quote_counts_exceeded running_is_finished finished_at_required not_all_succeeded : SeriesError
  error_summary_too_long sample_seq_out_of_range wrong_schedule collected_too_early : SeriesError
  too_many_attempts no_expected_quotes running_has_results collected_at_required : SeriesError
  negative_counts counts_not_expected no_complete_ingestion no_selected_ingestion
        missed_slot_has_results :
      SeriesError

pub data Checked (A : Type 0) : Type 0 where
  ok : A → Checked A
  err : SeriesError → Checked A

pub record MarketSeriesRound : Type 0 where
  pub session_id : ℕ
  pub sample_seq : ℕ
  pub scheduled_at : Moment
  pub collected_at : Option Moment
  pub status : MarketSeriesStatus
  pub attempt_count : ℕ
  pub expected_quotes : ℕ
  pub successful_quotes : ℕ
  pub failed_quotes : ℕ
  pub selected_ingestion_id : Option ℕ
  pub error_summary : Option (List ℕ)

abbrev pub is_running : MarketSeriesStatus → Bool
is_running running = true
is_running succeeded = false
is_running partial = false
is_running failed = false

-- `x is not None and not utc(x)`, `x is not None and x < y`
abbrev not_utc_if : Option Moment → Bool
not_utc_if none = false
not_utc_if (some m) = not m.is_utc

abbrev precedes : Option Moment → ℕ → Bool
precedes none instant = false
precedes (some m) instant = ltb m.instant instant

abbrev too_long : Option (List ℕ) → Bool
too_long none = false
too_long (some summary) = ltb 500 (length summary)

-- The guards of a round that depend on its status: the first that fails.
pub status_error : MarketSeriesStatus → MarketSeriesRound → Option SeriesError
status_error running r =
    if is_some r.collected_at
      || not (r.attempt_count == 0)
      || not (r.successful_quotes == 0)
      || not (r.failed_quotes == 0)
      || is_some r.selected_ingestion_id
    then some running_has_results
    else none
status_error succeeded r =
    if is_none r.collected_at
    then some collected_at_required
    else if not (r.successful_quotes + r.failed_quotes == r.expected_quotes)
    then some counts_not_expected
    else if ltb r.attempt_count 1
        || not (r.successful_quotes == r.expected_quotes)
        || not (r.failed_quotes == 0)
        || is_none r.selected_ingestion_id
    then some no_complete_ingestion
    else none
status_error partial r =
    if is_none r.collected_at
    then some collected_at_required
    else if not (r.successful_quotes + r.failed_quotes == r.expected_quotes)
    then some counts_not_expected
    else if ltb r.attempt_count 1 || is_none r.selected_ingestion_id
    then some no_selected_ingestion
    else none
status_error failed r =
    if is_none r.collected_at
    then some collected_at_required
    else if not (r.successful_quotes + r.failed_quotes == r.expected_quotes)
    then some counts_not_expected
    else if not (r.attempt_count == 0)
        || not (r.successful_quotes == 0)
        || not (r.failed_quotes == r.expected_quotes)
        || is_some r.selected_ingestion_id
    then some missed_slot_has_results
    else none

-- The arguments of the constructor: its counts are integers, which its guards bound from below.
pub record MarketSeriesRoundArguments : Type 0 where
  pub session_id : ℕ
  pub sample_seq : ℤ
  pub scheduled_at : Moment
  pub collected_at : Option Moment
  pub status : MarketSeriesStatus
  pub attempt_count : ℤ
  pub expected_quotes : ℤ
  pub successful_quotes : ℤ
  pub failed_quotes : ℤ
  pub selected_ingestion_id : Option ℕ
  pub error_summary : Option (List ℕ)

-- The round of arguments that are not negative.
abbrev pub natural_round : MarketSeriesRoundArguments → MarketSeriesRound
natural_round a = record {
  session_id = a.session_id;
  sample_seq = pos_part a.sample_seq;
  scheduled_at = a.scheduled_at;
  collected_at = a.collected_at;
  status = a.status;
  attempt_count = pos_part a.attempt_count;
  expected_quotes = pos_part a.expected_quotes;
  successful_quotes = pos_part a.successful_quotes;
  failed_quotes = pos_part a.failed_quotes;
  selected_ingestion_id = a.selected_ingestion_id;
  error_summary = a.error_summary;
}

abbrev pub is_below_zero : ℤ → Bool
is_below_zero n = ltb_ℤ n (pos 0)

abbrev pub check_results : MarketSeriesRound → Checked MarketSeriesRound
check_results r = elim (status_error r.status r) [
  | some error ↦ err error
  | none ↦ if too_long r.error_summary then err error_summary_too_long else ok r
]

-- `MarketSeriesRound.__post_init__`
pub check_round : MarketSeriesRoundArguments → Checked MarketSeriesRound
check_round a =
    if is_below_zero a.sample_seq || not (ltb_ℤ a.sample_seq (pos series_round_count))
    then err sample_seq_out_of_range
    else if not a.scheduled_at.is_utc
    then err not_utc
    else if not (
        a.scheduled_at.instant
        == series_slot (local_date a.scheduled_at.instant) (pos_part a.sample_seq))
    then err wrong_schedule
    else if not_utc_if a.collected_at
    then err not_utc
    else if precedes a.collected_at a.scheduled_at.instant
    then err collected_too_early
    else if is_below_zero a.attempt_count || ltb_ℤ (pos 2) a.attempt_count
    then err too_many_attempts
    else if not (ltb_ℤ (pos 0) a.expected_quotes)
    then err no_expected_quotes
    else if is_below_zero a.successful_quotes || is_below_zero a.failed_quotes
    then err negative_counts
    else check_results (natural_round a)
