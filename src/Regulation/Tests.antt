-- ===== src/Regulation/Tests.antt =====
-- Three rules of which two are active, and an event that comes twice.
use Prim.Native.String.{String}
use data_center.Prelude.{
  ℕ, ◌≡◌, ◌↔◌, refl, Bool, true, false, ◌&&◌, none, some, List, [], ◌∷◌, map, any, keep, All,
  has_duplicates,
}
use data_center.Prelude.Int.{ℤ, pos, negsuc}
use data_center.Prelude.Codes.{codes, codes_eq, strip}
use data_center.Domain.Records
use data_center.Domain.Series.Session.{is_symbol}
use data_center.Regulation.Rules.{
  RegulationRule, sse_main, abnormal, cumulative_deviation, RegulationDirection, up, down,
  reset_serious, done, check_rule,
}
use data_center.Regulation.Active.{same_dimension, is_active, validate_regulation_rules}
use data_center.Regulation.ActiveRules.{HasVersion, validate_regulation_rules-HasVersion}
use data_center.Regulation.RuleSpec.{IsWellFormed}
use data_center.Regulation.RuleGuards.{check_rule-IsWellFormed}
use data_center.Regulation.Events.{RegulationEventRecord, abnormal_volatility, check_event}
use data_center.Regulation.Count.{
  CalculationDates, CandidateEvents, window_dates, is_counted, same_key, end_of,
  events_in_count_window, evaluate_event_count,
}
use data_center.Regulation.Distinct.{events_in_count_window-Distinct}

abbrev rule : String → RegulationDirection → ℤ → Bool → RegulationRule
rule code direction threshold enabled = record {
  rule_code = codes code;
  exchange = Records.sse;
  segment = sse_main;
  level = abnormal;
  kind = cumulative_deviation;
  direction = direction;
  window_days = some (pos 3);
  threshold_pct = some threshold;
  comparison_window_days = none;
  ratio_threshold = none;
  secondary_threshold_pct = none;
  count_window_days = none;
  required_count = none;
  counted_event_kind = none;
  reset_level = reset_serious;
  benchmark_symbol = some (codes "SSE:000001");
  rule_set_version = codes "v1";
  effective_date = 739803;
  expire_date = none;
  source_document = codes "document";
  source_clause = codes "clause";
  source_url = codes "url";
  enabled = enabled;
}

abbrev rules : List RegulationRule
rules =
    rule "UP_3" up (pos 20) true
    ∷ rule "OLD_3" up (pos 20) false
    ∷ rule "DOWN_3" down (negsuc 19) true
    ∷ []

abbrev active : List RegulationRule
active = rule "UP_3" up (pos 20) true ∷ rule "DOWN_3" down (negsuc 19) true ∷ []

rules-active : validate_regulation_rules rules 739810 ≡ done active
unfolding validate_regulation_rules codes_eq
rules-active = refl

rule-passes : check_rule (rule "UP_3" up (pos 20) true) ≡ done (rule "UP_3" up (pos 20) true)
unfolding check_rule codes_eq strip is_symbol
rule-passes = refl

abbrev event : ℕ → RegulationEventRecord
event observed = record {
  symbol = codes "SSE:600001";
  exchange = Records.sse;
  segment = sse_main;
  event_type = abnormal_volatility;
  event_level = abnormal;
  direction = some up;
  period_start_date = 739806;
  period_end_date = 739808;
  published_at = record { is_aware = true; instant = 10 };
  effective_reset_date = none;
  source_event_id = codes "1";
  source_title = codes "title";
  source_url = codes "url";
  source_content_hash = codes "0123456789abcdef0123456789abcdef0123456789abcdef0123456789abcdef";
  source_code = codes "sse_official";
  explicit_rule_codes = codes "SSE_DEV_3" ∷ [];
  observed_at = record { is_aware = true; instant = observed };
}

event-passes : check_event (event 11) ≡ done (event 11)
unfolding check_event codes_eq strip is_symbol
event-passes = refl

abbrev dates : CalculationDates
dates = record {
  trade_date = 739810;
  next_trade_date = 739811;
  trading_dates = 739806 ∷ 739807 ∷ 739808 ∷ 739809 ∷ 739810 ∷ [];
  event_watermark = record { is_aware = true; instant = 20 };
}

abbrev candidate : CandidateEvents
candidate = record { events = event 11 ∷ event 12 ∷ event 30 ∷ []; serious_reset_date = none }

count_test : (evaluate_event_count dates candidate up 10 3).count ≡ 1
unfolding evaluate_event_count codes_eq
count_test = refl

validate_regulation_rules-HasVersion_example :
    (has_duplicates codes_eq (map (λ r. r.rule_code) rules) ≡ false)
    × (active ≡ keep (is_active 739810) rules)
    × HasVersion active
    × (has_duplicates same_dimension active ≡ false)
validate_regulation_rules-HasVersion_example =
    validate_regulation_rules-HasVersion rules active 739810 rules-active

check_rule-IsWellFormed_example :
    (check_rule (rule "UP_3" up (pos 20) true) ≡ done (rule "UP_3" up (pos 20) true))
    ↔ IsWellFormed (rule "UP_3" up (pos 20) true)
check_rule-IsWellFormed_example = check_rule-IsWellFormed (rule "UP_3" up (pos 20) true)

events_in_count_window-Distinct_example :
    let counted = is_counted dates candidate (window_dates dates 10 (end_of dates none)) in
    let events = events_in_count_window dates candidate 10 none in
    All (λ e. counted e ≡ true) events
    × (has_duplicates same_key events ≡ false)
    × ((k : RegulationEventRecord)
        → any (same_key k) events ≡ any (λ e. counted e && same_key k e) candidate.events)
events_in_count_window-Distinct_example = events_in_count_window-Distinct dates candidate 10 none
