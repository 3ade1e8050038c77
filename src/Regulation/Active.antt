-- ===== src/Regulation/Active.antt =====
-- The rules that are active on a day (src/market_data_center/domain/regulation.py).
use data_center.Prelude.{
  ℕ, Bool, true, false, not, ◌&&◌, Option, none, some, List, [], ◌∷◌, any, keep, map, leb, ◌==◌,
  if◌then◌else◌,
}
use data_center.Prelude.Int.{ℤ, eq_ℤ}
use data_center.Prelude.Codes.{codes_eq}
use data_center.Regulation.Rules.{
  RegulationSegment, sse_main, szse_main, gem, star, RegulationRuleLevel, abnormal,
  serious_abnormal, RegulationRuleKind, cumulative_deviation, turnover_composite, event_count,
  RegulationDirection, up, down, no_direction, RegulationRule, Result, done, raised,
  duplicate_rule_code, no_active_rule, several_versions, duplicate_dimension,
}

-- The enumerations are compared by the places of their values.
abbrev pub segment_place : RegulationSegment → ℕ
segment_place sse_main = 0
segment_place szse_main = 1
segment_place gem = 2
segment_place star = 3

abbrev pub level_place : RegulationRuleLevel → ℕ
level_place abnormal = 0
level_place serious_abnormal = 1

abbrev pub kind_place : RegulationRuleKind → ℕ
kind_place cumulative_deviation = 0
kind_place turnover_composite = 1
kind_place event_count = 2

abbrev pub direction_place : RegulationDirection → ℕ
direction_place up = 0
direction_place down = 1
direction_place no_direction = 2

abbrev pub same_days : Option ℤ → Option ℤ → Bool
same_days none none = true
same_days (some a) (some b) = eq_ℤ a b
same_days _ _ = false

-- `rule.window_days if rule.window_days is not None else rule.count_window_days`
abbrev pub days_of : Option ℤ → Option ℤ → Option ℤ
days_of none count_window_days = count_window_days
days_of (some window_days) count_window_days = some window_days

abbrev pub same_dimension : RegulationRule → RegulationRule → Bool
same_dimension a b =
    segment_place a.segment == segment_place b.segment
    && level_place a.level == level_place b.level
    && kind_place a.kind == kind_place b.kind
    && direction_place a.direction == direction_place b.direction
    && same_days (days_of a.window_days a.count_window_days)
        (days_of b.window_days b.count_window_days)
    && same_days a.comparison_window_days b.comparison_window_days

abbrev not_expired : Option ℕ → ℕ → Bool
not_expired none trade_date = true
not_expired (some expire_date) trade_date = leb trade_date expire_date

abbrev pub is_active : ℕ → RegulationRule → Bool
is_active trade_date r =
    r.enabled && leb r.effective_date trade_date && not_expired r.expire_date trade_date

-- The loops over the codes and over the dimensions: whether one is in the set of those seen before.
module _ {A : Type 0} (eq : A → A → Bool) where
  unfoldable pub repeats : List A → List A → Bool
  repeats seen [] = false
  repeats seen (x ∷ xs) = let rest = repeats (x ∷ seen) xs in if any (eq x) seen then true else rest

-- `len({rule.rule_set_version for rule in active}) != 1`, of active rules that are not empty.
abbrev pub has_versions : List RegulationRule → Bool
has_versions [] = false
has_versions (r ∷ rules) = any (λ s. not (codes_eq s.rule_set_version r.rule_set_version)) rules

abbrev pub is_none_active : List RegulationRule → Bool
is_none_active [] = true
is_none_active (r ∷ rules) = false

abbrev pub checked_active : List RegulationRule → Result (List RegulationRule)
checked_active active =
    if is_none_active active
    then raised no_active_rule
    else if has_versions active
    then raised several_versions
    else if repeats same_dimension [] active
    then raised duplicate_dimension
    else done active

unfoldable pub validate_regulation_rules : List RegulationRule → ℕ → Result (List RegulationRule)
unfolding repeats
validate_regulation_rules rules trade_date =
    if repeats codes_eq [] (map (λ r. r.rule_code) rules)
    then raised duplicate_rule_code
    else checked_active (keep (is_active trade_date) rules)
