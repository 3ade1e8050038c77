-- ===== src/Regulation/RuleGuards.antt =====
-- The rules that pass their guards are the well-formed ones.
use data_center.Prelude.{
  ◌≤◌, ◌≡◌, ◌↔◌, refl, ap, Bool, true, false, not, ◌||◌, Option, none, some, arith,
}
use data_center.Regulation.Rules.{
  RegulationError, RegulationRule, RegulationRuleKind, cumulative_deviation, turnover_composite,
  event_count, done, cumulative_error, turnover_error, event_count_error, kind_error, or_raise,
  check_rule, is_blank_text, same_exchange, expected_exchange, expires_before,
  regulation_rules_effective_from,
}
use data_center.Regulation.RuleSpec.{
  IsWellFormed, HasParameters, positive, absent, sign, directed, undirected, not_blank,
  has_text-IsText, benchmark, given, traded, unexpired,
}

cumulative-passes :
    (r : RegulationRule) → HasParameters cumulative_deviation r → cumulative_error r ≡ none
unfolding cumulative_error
cumulative-passes r (s, days, b, x1, x2, x3, x4, x5, x6) = ground (
  arith,
  (sign r.direction r.threshold_pct).0 s,
  given r.direction r.threshold_pct s,
  (positive r.window_days).0 days,
  (benchmark r.benchmark_symbol).0 b,
  (absent r.comparison_window_days).0 x1,
  (absent r.ratio_threshold).0 x2,
  (absent r.secondary_threshold_pct).0 x3,
  (absent r.count_window_days).0 x4,
  (absent r.required_count).0 x5,
  (absent r.counted_event_kind).0 x6,
)

cumulative-parameters :
    (r : RegulationRule) → cumulative_error r ≡ none → HasParameters cumulative_deviation r
unfolding cumulative_error
cumulative-parameters r h = (
  (sign r.direction r.threshold_pct).1 (ground (arith, h)),
  (positive r.window_days).1 (ground (arith, h)),
  (benchmark r.benchmark_symbol).1 (ground (arith, h)),
  (absent r.comparison_window_days).1 (ground (arith, h)),
  (absent r.ratio_threshold).1 (ground (arith, h)),
  (absent r.secondary_threshold_pct).1 (ground (arith, h)),
  (absent r.count_window_days).1 (ground (arith, h)),
  (absent r.required_count).1 (ground (arith, h)),
  (absent r.counted_event_kind).1 (ground (arith, h)),
)

turnover-passes :
    (r : RegulationRule) → HasParameters turnover_composite r → turnover_error r ≡ none
unfolding turnover_error
turnover-passes r (d, p1, p2, p3, p4, x1, x2, x3, x4, x5) = ground (
  arith,
  (undirected r.direction).0 d,
  (positive r.window_days).0 p1,
  (positive r.comparison_window_days).0 p2,
  (positive r.ratio_threshold).0 p3,
  (positive r.secondary_threshold_pct).0 p4,
  (absent r.threshold_pct).0 x1,
  (absent r.count_window_days).0 x2,
  (absent r.required_count).0 x3,
  (absent r.counted_event_kind).0 x4,
  (absent r.benchmark_symbol).0 x5,
)

turnover-parameters :
    (r : RegulationRule) → turnover_error r ≡ none → HasParameters turnover_composite r
unfolding turnover_error
turnover-parameters r h = (
  (undirected r.direction).1 (ground (arith, h)),
  (positive r.window_days).1 (ground (arith, h)),
  (positive r.comparison_window_days).1 (ground (arith, h)),
  (positive r.ratio_threshold).1 (ground (arith, h)),
  (positive r.secondary_threshold_pct).1 (ground (arith, h)),
  (absent r.threshold_pct).1 (ground (arith, h)),
  (absent r.count_window_days).1 (ground (arith, h)),
  (absent r.required_count).1 (ground (arith, h)),
  (absent r.counted_event_kind).1 (ground (arith, h)),
  (absent r.benchmark_symbol).1 (ground (arith, h)),
)

event_count-passes : (r : RegulationRule) → HasParameters event_count r → event_count_error r ≡ none
unfolding event_count_error
event_count-passes r (d, p1, p2, t, x1, x2, x3, x4, x5, x6) = ground (
  arith,
  (directed r.direction).0 d,
  (positive r.count_window_days).0 p1,
  (positive r.required_count).0 p2,
  (has_text-IsText r.counted_event_kind).0 t,
  (absent r.window_days).0 x1,
  (absent r.threshold_pct).0 x2,
  (absent r.comparison_window_days).0 x3,
  (absent r.ratio_threshold).0 x4,
  (absent r.secondary_threshold_pct).0 x5,
  (absent r.benchmark_symbol).0 x6,
)

event_count-parameters :
    (r : RegulationRule) → event_count_error r ≡ none → HasParameters event_count r
unfolding event_count_error
event_count-parameters r h = (
  (directed r.direction).1 (ground (arith, h)),
  (positive r.count_window_days).1 (ground (arith, h)),
  (positive r.required_count).1 (ground (arith, h)),
  (has_text-IsText r.counted_event_kind).1 (ground (arith, h)),
  (absent r.window_days).1 (ground (arith, h)),
  (absent r.threshold_pct).1 (ground (arith, h)),
  (absent r.comparison_window_days).1 (ground (arith, h)),
  (absent r.ratio_threshold).1 (ground (arith, h)),
  (absent r.secondary_threshold_pct).1 (ground (arith, h)),
  (absent r.benchmark_symbol).1 (ground (arith, h)),
)

kind-parameters :
    (kind : RegulationRuleKind) (r : RegulationRule)
    → kind_error kind r ≡ none
    → HasParameters kind r
kind-parameters cumulative_deviation r h = cumulative-parameters r h
kind-parameters turnover_composite r h = turnover-parameters r h
kind-parameters event_count r h = event_count-parameters r h

kind-passes :
    (kind : RegulationRuleKind) (r : RegulationRule)
    → HasParameters kind r
    → kind_error kind r ≡ none
kind-passes cumulative_deviation r h = cumulative-passes r h
kind-passes turnover_composite r h = turnover-passes r h
kind-passes event_count r h = event_count-passes r h

or_raise-done : (e : Option RegulationError) (r : RegulationRule) → or_raise e r ≡ done r → e ≡ none
or_raise-done none r h = refl
or_raise-done (some e) r h = cc

abbrev has_blank : RegulationRule → Bool
has_blank r =
    is_blank_text r.rule_code
    || is_blank_text r.rule_set_version
    || is_blank_text r.source_document
    || is_blank_text r.source_clause
    || is_blank_text r.source_url

check_rule-guards :
    (r : RegulationRule)
    → check_rule r ≡ done r
    → (has_blank r ≡ false)
      × (same_exchange r.exchange (expected_exchange r.segment) ≡ true)
      × (regulation_rules_effective_from ≤ r.effective_date)
      × (not (expires_before r.expire_date r.effective_date) ≡ true)
      × (or_raise (kind_error r.kind r) r ≡ done r)
unfolding check_rule
check_rule-guards r h = ground (arith, h)

check_rule-passed :
    (r : RegulationRule)
    → has_blank r ≡ false
    → same_exchange r.exchange (expected_exchange r.segment) ≡ true
    → regulation_rules_effective_from ≤ r.effective_date
    → not (expires_before r.expire_date r.effective_date) ≡ true
    → kind_error r.kind r ≡ none
    → check_rule r ≡ done r
unfolding check_rule
check_rule-passed r blank exchange effective expires kind =
    ground (arith, blank, exchange, effective, expires, ap (λ e. or_raise e r) kind)

-- A rule passes its guards exactly if its texts are not blank, it is of the exchange of its segment, is
-- effective no earlier than the rules are, does not expire before that, and has the parameters of its
-- kind and none of another: a deviation rule has a positive window, a standard benchmark and a threshold
-- with the sign of its direction, a turnover rule four positive parameters and no direction, and a count
-- rule a direction, a positive window and count, and an event kind.
pub check_rule-IsWellFormed : (r : RegulationRule) → (check_rule r ≡ done r) ↔ IsWellFormed r
check_rule-IsWellFormed r = (
  λ h.
      let (blank, exchange, effective, expires, kind) = check_rule-guards r h in
      (
        (
          (not_blank r.rule_code).1 (ground (arith, blank)),
          (not_blank r.rule_set_version).1 (ground (arith, blank)),
          (not_blank r.source_document).1 (ground (arith, blank)),
          (not_blank r.source_clause).1 (ground (arith, blank)),
          (not_blank r.source_url).1 (ground (arith, blank)),
        ),
        (traded r.segment r.exchange).1 exchange,
        effective,
        (unexpired r.expire_date r.effective_date).1 expires,
        kind-parameters r.kind r (or_raise-done _ r kind),
      ),
  λ ((a, b, c, d, e), exchange, effective, expires, fits).
      check_rule-passed r
        (ground (
          arith,
          (not_blank r.rule_code).0 a,
          (not_blank r.rule_set_version).0 b,
          (not_blank r.source_document).0 c,
          (not_blank r.source_clause).0 d,
          (not_blank r.source_url).0 e,
        ))
        ((traded r.segment r.exchange).0 exchange) effective
        ((unexpired r.expire_date r.effective_date).0 expires) (kind-passes r.kind r fits),
)
