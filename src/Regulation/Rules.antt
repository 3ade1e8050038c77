-- ===== src/Regulation/Rules.antt =====
-- Regulation rules with the guards of their constructor (src/market_data_center/domain/regulation.py).
-- A text is its code points, a percentage an integer of the smallest unit in use, and a date an ordinal.
use data_center.Prelude.{
  ℕ, Bool, true, false, not, ◌&&◌, ◌||◌, Option, none, some, List, [], is_none, is_some, ltb,
  if◌then◌else◌,
}
use data_center.Prelude.Int.{ℤ, pos, ltb_ℤ}
use data_center.Prelude.Codes.{codes_eq, strip}
use data_center.Domain.Series.Session.{is_symbol}
use data_center.Domain.Records
use data_center.Domain.Records.{Exchange}

-- `date(2026, 7, 6).toordinal()`
abbrev pub regulation_rules_effective_from : ℕ
regulation_rules_effective_from = 739803

pub data RegulationSegment : Type 0 where
  sse_main szse_main gem star : RegulationSegment

pub data RegulationRuleLevel : Type 0 where
  abnormal serious_abnormal : RegulationRuleLevel

pub data RegulationRuleKind : Type 0 where
  cumulative_deviation turnover_composite event_count : RegulationRuleKind

pub data RegulationDirection : Type 0 where
  up down no_direction : RegulationDirection

pub data RegulationResetLevel : Type 0 where
  reset_abnormal reset_serious : RegulationResetLevel

pub data RegulationError : Type 0 where
  blank_field exchange_mismatch effective_too_early expires_before_effective : RegulationError
  direction_missing window_missing threshold_sign benchmark_missing benchmark_format :
      RegulationError
  foreign_fields direction_given parameters_missing count_missing : RegulationError
  symbol_format prefix_mismatch level_mismatch direction_none period_reversed : RegulationError
  reset_too_early not_aware observed_too_early source_mismatch invalid_digest : RegulationError
  duplicate_codes blank_code : RegulationError
  duplicate_rule_code no_active_rule several_versions duplicate_dimension : RegulationError

pub data Result (A : Type 0) : Type 0 where
  done : A → Result A
  raised : RegulationError → Result A

abbrev pub is_blank_text : List ℕ → Bool
is_blank_text text = codes_eq (strip text) []

abbrev pub expected_exchange : RegulationSegment → Exchange
expected_exchange sse_main = Records.sse
expected_exchange star = Records.sse
expected_exchange szse_main = Records.szse
expected_exchange gem = Records.szse

abbrev pub same_exchange : Exchange → Exchange → Bool
same_exchange Records.sse Records.sse = true
same_exchange Records.szse Records.szse = true
same_exchange Records.bse Records.bse = true
same_exchange _ _ = false

pub record RegulationRule : Type 0 where
  pub rule_code : List ℕ
  pub exchange : Exchange
  pub segment : RegulationSegment
  pub level : RegulationRuleLevel
  pub kind : RegulationRuleKind
  pub direction : RegulationDirection
  pub window_days : Option ℤ
  pub threshold_pct : Option ℤ
  pub comparison_window_days : Option ℤ
  pub ratio_threshold : Option ℤ
  pub secondary_threshold_pct : Option ℤ
  pub count_window_days : Option ℤ
  pub required_count : Option ℤ
  pub counted_event_kind : Option (List ℕ)
  pub reset_level : RegulationResetLevel
  pub benchmark_symbol : Option (List ℕ)
  pub rule_set_version : List ℕ
  pub effective_date : ℕ
  pub expire_date : Option ℕ
  pub source_document : List ℕ
  pub source_clause : List ℕ
  pub source_url : List ℕ
  pub enabled : Bool

-- `value is not None and value > 0`, and the same for the sign of a threshold.
abbrev pub is_positive_value : Option ℤ → Bool
is_positive_value none = false
is_positive_value (some value) = ltb_ℤ (pos 0) value

abbrev pub is_negative_value : Option ℤ → Bool
is_negative_value none = false
is_negative_value (some value) = ltb_ℤ value (pos 0)

abbrev pub has_text : Option (List ℕ) → Bool
has_text none = false
has_text (some text) = not (is_blank_text text)

abbrev pub is_standard : Option (List ℕ) → Bool
is_standard none = false
is_standard (some symbol) = is_symbol symbol

abbrev pub has_wrong_sign : RegulationDirection → Option ℤ → Bool
has_wrong_sign up threshold = not (is_positive_value threshold)
has_wrong_sign down threshold = not (is_negative_value threshold)
has_wrong_sign no_direction threshold = false

abbrev pub has_direction : RegulationDirection → Bool
has_direction no_direction = false
has_direction _ = true

-- `_validate_cumulative_deviation`
unfoldable pub cumulative_error : RegulationRule → Option RegulationError
cumulative_error r =
    if not (has_direction r.direction)
    then some direction_missing
    else if not (is_positive_value r.window_days) || is_none r.threshold_pct
    then some window_missing
    else if has_wrong_sign r.direction r.threshold_pct
    then some threshold_sign
    else if not (has_text r.benchmark_symbol)
    then some benchmark_missing
    else if not (is_standard r.benchmark_symbol)
    then some benchmark_format
    else if is_some r.comparison_window_days
        || is_some r.ratio_threshold
        || is_some r.secondary_threshold_pct
        || is_some r.count_window_days
        || is_some r.required_count
        || is_some r.counted_event_kind
    then some foreign_fields
    else none

-- `_validate_turnover_composite`
unfoldable pub turnover_error : RegulationRule → Option RegulationError
turnover_error r =
    if has_direction r.direction
    then some direction_given
    else if not (
        is_positive_value r.window_days
        && is_positive_value r.comparison_window_days
        && is_positive_value r.ratio_threshold
        && is_positive_value r.secondary_threshold_pct)
    then some parameters_missing
    else if is_some r.threshold_pct
        || is_some r.count_window_days
        || is_some r.required_count
        || is_some r.counted_event_kind
        || is_some r.benchmark_symbol
    then some foreign_fields
    else none

-- `_validate_event_count`
unfoldable pub event_count_error : RegulationRule → Option RegulationError
event_count_error r =
    if not (has_direction r.direction)
    then some direction_missing
    else if not (is_positive_value r.count_window_days)
        || not (is_positive_value r.required_count)
        || not (has_text r.counted_event_kind)
    then some count_missing
    else if is_some r.window_days
        || is_some r.threshold_pct
        || is_some r.comparison_window_days
        || is_some r.ratio_threshold
        || is_some r.secondary_threshold_pct
        || is_some r.benchmark_symbol
    then some foreign_fields
    else none

abbrev pub kind_error : RegulationRuleKind → RegulationRule → Option RegulationError
kind_error cumulative_deviation r = cumulative_error r
kind_error turnover_composite r = turnover_error r
kind_error event_count r = event_count_error r

abbrev pub or_raise : Option RegulationError → RegulationRule → Result RegulationRule
or_raise none r = done r
or_raise (some e) r = raised e

abbrev pub expires_before : Option ℕ → ℕ → Bool
expires_before none day = false
expires_before (some expire_date) day = ltb expire_date day

-- `RegulationRule.__post_init__`
unfoldable pub check_rule : RegulationRule → Result RegulationRule
unfolding cumulative_error turnover_error event_count_error
check_rule r =
    if is_blank_text r.rule_code
      || is_blank_text r.rule_set_version
      || is_blank_text r.source_document
      || is_blank_text r.source_clause
      || is_blank_text r.source_url
    then raised blank_field
    else if not (same_exchange r.exchange (expected_exchange r.segment))
    then raised exchange_mismatch
    else if ltb r.effective_date regulation_rules_effective_from
    then raised effective_too_early
    else if expires_before r.expire_date r.effective_date
    then raised expires_before_effective
    else or_raise (kind_error r.kind r) r
