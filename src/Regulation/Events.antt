-- ===== src/Regulation/Events.antt =====
-- The exchanges' events with the guards of their constructor, and those that the count of a window
-- takes (src/market_data_center/domain/regulation.py, regulation_calculator.py).
use data_center.Prelude.{
  ℕ, Bool, true, false, not, ◌&&◌, ◌||◌, Option, none, some, List, length, any, all, has_duplicates,
  is_none, ltb, leb, ◌==◌, if◌then◌else◌,
}
use data_center.Prelude.Codes.{codes, codes_eq}
use data_center.Domain.Records
use data_center.Domain.Records.{Exchange}
use data_center.Domain.Series.Session.{after, is_symbol}
use data_center.Regulation.Rules.{
  RegulationSegment, RegulationRuleLevel, abnormal, serious_abnormal, RegulationDirection,
  no_direction, expected_exchange, same_exchange, is_blank_text, Result, done, raised,
  symbol_format, exchange_mismatch, prefix_mismatch, level_mismatch, direction_none,
  period_reversed, reset_too_early, not_aware, observed_too_early, blank_field, source_mismatch,
  invalid_digest, duplicate_codes, blank_code,
}
use data_center.Regulation.Active.{level_place}

pub data RegulationEventType : Type 0 where
  abnormal_volatility serious_abnormal_volatility : RegulationEventType

-- A `datetime`: whether it is aware, and its instant.
pub record Timestamp : Type 0 where
  pub is_aware : Bool
  pub instant : ℕ

pub record RegulationEventRecord : Type 0 where
  pub symbol : List ℕ
  pub exchange : Exchange
  pub segment : RegulationSegment
  pub event_type : RegulationEventType
  pub event_level : RegulationRuleLevel
  pub direction : Option RegulationDirection
  pub period_start_date : ℕ
  pub period_end_date : ℕ
  pub published_at : Timestamp
  pub effective_reset_date : Option ℕ
  pub source_event_id : List ℕ
  pub source_title : List ℕ
  pub source_url : List ℕ
  pub source_content_hash : List ℕ
  pub source_code : List ℕ
  pub explicit_rule_codes : List (List ℕ)
  pub observed_at : Timestamp

abbrev prefix_of : Exchange → List ℕ
prefix_of Records.sse = codes "SSE:"
prefix_of Records.szse = codes "SZSE:"
prefix_of Records.bse = codes "BSE:"

abbrev level_of : RegulationEventType → RegulationRuleLevel
level_of abnormal_volatility = abnormal
level_of serious_abnormal_volatility = serious_abnormal

-- The source code of an exchange; the segments have no other.
abbrev source_of : Exchange → Option (List ℕ)
source_of Records.sse = some (codes "sse_official")
source_of Records.szse = some (codes "szse_official")
source_of Records.bse = none

abbrev is_source : Option (List ℕ) → List ℕ → Bool
is_source none code = false
is_source (some source) code = codes_eq code source

abbrev is_no_direction : Option RegulationDirection → Bool
is_no_direction (some no_direction) = true
is_no_direction _ = false

abbrev not_after : Option ℕ → ℕ → Bool
not_after none day = false
not_after (some reset_date) day = leb reset_date day

abbrev is_lower_hex : ℕ → Bool
is_lower_hex c = (leb 48 c && leb c 57) || (leb 97 c && leb c 102)

-- `RegulationEventRecord.__post_init__`
unfoldable pub check_event : RegulationEventRecord → Result RegulationEventRecord
unfolding is_symbol
check_event r =
    if not (is_symbol r.symbol)
    then raised symbol_format
    else if not (same_exchange r.exchange (expected_exchange r.segment))
    then raised exchange_mismatch
    else if is_none (after (prefix_of r.exchange) r.symbol)
    then raised prefix_mismatch
    else if not (level_place r.event_level == level_place (level_of r.event_type))
    then raised level_mismatch
    else if is_no_direction r.direction
    then raised direction_none
    else if ltb r.period_end_date r.period_start_date
    then raised period_reversed
    else if not_after r.effective_reset_date r.period_end_date
    then raised reset_too_early
    else if not r.published_at.is_aware || not r.observed_at.is_aware
    then raised not_aware
    else if ltb r.observed_at.instant r.published_at.instant
    then raised observed_too_early
    else if is_blank_text r.source_event_id
        || is_blank_text r.source_title
        || is_blank_text r.source_url
        || is_blank_text r.source_code
    then raised blank_field
    else if not (is_source (source_of r.exchange) r.source_code)
    then raised source_mismatch
    else if not (length r.source_content_hash == 64 && all is_lower_hex r.source_content_hash)
    then raised invalid_digest
    else if has_duplicates codes_eq r.explicit_rule_codes
    then raised duplicate_codes
    else if any is_blank_text r.explicit_rule_codes
    then raised blank_code
    else done r
