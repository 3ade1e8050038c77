-- ===== src/Regulation/RuleSpec.antt =====
-- What a regulation rule must be (src/market_data_center/domain/regulation.py), and that the tests of its
-- guards decide it.
use data_center.Prelude.{
  ◌≤◌, ◌≡◌, ◌≢◌, refl, ap, Bool, true, false, not, ◌&&◌, ℕ, Option, none, some, List, [], ◌∷◌,
  is_none, is_some, arith,
}
use data_center.Prelude.Int.{ℤ, pos, negsuc}
use data_center.Prelude.Codes.{strip, codes_eq}
use data_center.Domain.Series.Session.{is_symbol}
use data_center.Domain.Records
use data_center.Domain.Records.{Exchange}
use data_center.Regulation.Rules.{
  RegulationSegment, sse_main, szse_main, gem, star, has_wrong_sign, RegulationRule,
  RegulationRuleKind, cumulative_deviation, turnover_composite, event_count, RegulationDirection,
  up, down, no_direction, is_blank_text, is_positive_value, is_negative_value, has_text,
  is_standard, has_direction, same_exchange, expected_exchange, expires_before,
  regulation_rules_effective_from,
}

-- The bounds of a parameter that must be given.
abbrev pub IsPositive : Option ℤ → Type 0
IsPositive (some (pos n)) = 1 ≤ n
IsPositive (some (negsuc n)) = ⊥
IsPositive none = ⊥

abbrev pub IsNegative : Option ℤ → Type 0
IsNegative (some (pos n)) = ⊥
IsNegative (some (negsuc n)) = Unit
IsNegative none = ⊥

-- The sign of a threshold is that of its direction.
abbrev pub HasSign : RegulationDirection → Option ℤ → Type 0
HasSign up threshold = IsPositive threshold
HasSign down threshold = IsNegative threshold
HasSign no_direction threshold = ⊥

abbrev pub IsDirected : RegulationDirection → Type 0
IsDirected up = Unit
IsDirected down = Unit
IsDirected no_direction = ⊥

-- The text has a character that is no space.
abbrev pub IsNotBlank : List ℕ → Type 0
IsNotBlank text = strip text ≢ []

abbrev pub IsText : Option (List ℕ) → Type 0
IsText (some text) = IsNotBlank text
IsText none = ⊥

-- The text of a symbol, which the pattern of `fullmatch` takes.
abbrev pub IsBenchmark : Option (List ℕ) → Type 0
IsBenchmark (some symbol) = IsNotBlank symbol × (is_symbol symbol ≡ true)
IsBenchmark none = ⊥

abbrev pub IsAbsent : {A : Type 0} → Option A → Type 0
IsAbsent none = Unit
IsAbsent (some x) = ⊥

abbrev pub IsTraded : RegulationSegment → Exchange → Type 0
IsTraded sse_main Records.sse = Unit
IsTraded star Records.sse = Unit
IsTraded szse_main Records.szse = Unit
IsTraded gem Records.szse = Unit
IsTraded _ _ = ⊥

abbrev pub IsNotExpired : Option ℕ → ℕ → Type 0
IsNotExpired none day = Unit
IsNotExpired (some expire_date) day = day ≤ expire_date

-- The parameters of a kind, and none of another.
abbrev pub HasParameters : RegulationRuleKind → RegulationRule → Type 0
HasParameters cumulative_deviation r =
    HasSign r.direction r.threshold_pct
    × IsPositive r.window_days
    × IsBenchmark r.benchmark_symbol
    × IsAbsent r.comparison_window_days
    × IsAbsent r.ratio_threshold
    × IsAbsent r.secondary_threshold_pct
    × IsAbsent r.count_window_days
    × IsAbsent r.required_count
    × IsAbsent r.counted_event_kind
HasParameters turnover_composite r =
    (r.direction ≡ no_direction)
    × IsPositive r.window_days
    × IsPositive r.comparison_window_days
    × IsPositive r.ratio_threshold
    × IsPositive r.secondary_threshold_pct
    × IsAbsent r.threshold_pct
    × IsAbsent r.count_window_days
    × IsAbsent r.required_count
    × IsAbsent r.counted_event_kind
    × IsAbsent r.benchmark_symbol
HasParameters event_count r =
    IsDirected r.direction
    × IsPositive r.count_window_days
    × IsPositive r.required_count
    × IsText r.counted_event_kind
    × IsAbsent r.window_days
    × IsAbsent r.threshold_pct
    × IsAbsent r.comparison_window_days
    × IsAbsent r.ratio_threshold
    × IsAbsent r.secondary_threshold_pct
    × IsAbsent r.benchmark_symbol

-- What a rule must be.
abbrev pub IsWellFormed : RegulationRule → Type 0
IsWellFormed r =
    (IsNotBlank r.rule_code
      × IsNotBlank r.rule_set_version
      × IsNotBlank r.source_document
      × IsNotBlank r.source_clause
      × IsNotBlank r.source_url)
    × IsTraded r.segment r.exchange
    × (regulation_rules_effective_from ≤ r.effective_date)
    × IsNotExpired r.expire_date r.effective_date
    × HasParameters r.kind r

-- The tests of the guards, by what they test.
abbrev pub Decides : Type 0 → Bool → Type 0
Decides P b = (P → b ≡ true) × (b ≡ true → P)

pub positive : (value : Option ℤ) → Decides (IsPositive value) (is_positive_value value)
positive none = (λ h. absurd h, λ h. cc)
positive (some (pos n)) = (λ h. ground (arith, h), λ h. ground (arith, h))
positive (some (negsuc n)) = (λ h. absurd h, λ h. ground (arith, h))

pub negative : (value : Option ℤ) → Decides (IsNegative value) (is_negative_value value)
negative none = (λ h. absurd h, λ h. cc)
negative (some (pos n)) = (λ h. absurd h, λ h. ground (arith, h))
negative (some (negsuc n)) = (λ h. ground arith, λ h. tt)

pub absent : {A : Type 0} (value : Option A) → Decides (IsAbsent value) (not (is_some value))
absent none = (λ h. refl, λ h. tt)
absent (some x) = (λ h. absurd h, λ h. cc)

pub sign :
    (direction : RegulationDirection) (threshold : Option ℤ)
    → Decides
        (HasSign direction threshold)
        (has_direction direction && not (has_wrong_sign direction threshold))
sign up threshold =
    (λ h. ground (arith, (positive threshold).0 h), λ h. (positive threshold).1 (ground (arith, h)))
sign down threshold =
    (λ h. ground (arith, (negative threshold).0 h), λ h. (negative threshold).1 (ground (arith, h)))
sign no_direction threshold = (λ h. absurd h, λ h. cc)

pub directed :
    (direction : RegulationDirection) → Decides (IsDirected direction) (has_direction direction)
directed up = (λ h. refl, λ h. tt)
directed down = (λ h. refl, λ h. tt)
directed no_direction = (λ h. absurd h, λ h. cc)

pub undirected :
    (direction : RegulationDirection)
    → Decides (direction ≡ no_direction) (not (has_direction direction))
undirected up = (λ h. cc, λ h. cc)
undirected down = (λ h. cc, λ h. cc)
undirected no_direction = (λ h. refl, λ h. refl)

codes_eq-nil : (text : List ℕ) → text ≢ [] → codes_eq text [] ≡ false
unfolding codes_eq
codes_eq-nil [] h = absurd (h refl)
codes_eq-nil (c ∷ text) h = refl

not_nil : (text : List ℕ) → codes_eq text [] ≡ false → text ≢ []
unfolding codes_eq
not_nil [] h e = cc
not_nil (c ∷ text) h e = cc

pub not_blank : (text : List ℕ) → Decides (IsNotBlank text) (not (is_blank_text text))
not_blank text =
    (λ h. ap not (codes_eq-nil (strip text) h), λ h. not_nil (strip text) (ground (arith, h)))

pub has_text-IsText : (text : Option (List ℕ)) → Decides (IsText text) (has_text text)
has_text-IsText none = (λ h. absurd h, λ h. cc)
has_text-IsText (some text) = not_blank text

pub benchmark :
    (symbol : Option (List ℕ))
    → Decides (IsBenchmark symbol) (has_text symbol && is_standard symbol)
benchmark none = (λ h. absurd h, λ h. cc)
benchmark (some symbol) = (
  λ h. ground (arith, (not_blank symbol).0 h.0, h.1),
  λ h. ((not_blank symbol).1 (ground (arith, h)), ground (arith, h)),
)

pub given :
    (direction : RegulationDirection) (threshold : Option ℤ)
    → HasSign direction threshold
    → is_none threshold ≡ false
given up none h = absurd h
given down none h = absurd h
given no_direction none h = absurd h
given up (some value) h = refl
given down (some value) h = refl
given no_direction (some value) h = refl

pub traded :
    (segment : RegulationSegment) (exchange : Exchange)
    → Decides (IsTraded segment exchange) (same_exchange exchange (expected_exchange segment))
traded sse_main Records.sse = (λ h. refl, λ h. tt)
traded sse_main Records.szse = (λ h. absurd h, λ h. cc)
traded sse_main Records.bse = (λ h. absurd h, λ h. cc)
traded star Records.sse = (λ h. refl, λ h. tt)
traded star Records.szse = (λ h. absurd h, λ h. cc)
traded star Records.bse = (λ h. absurd h, λ h. cc)
traded szse_main Records.szse = (λ h. refl, λ h. tt)
traded szse_main Records.sse = (λ h. absurd h, λ h. cc)
traded szse_main Records.bse = (λ h. absurd h, λ h. cc)
traded gem Records.szse = (λ h. refl, λ h. tt)
traded gem Records.sse = (λ h. absurd h, λ h. cc)
traded gem Records.bse = (λ h. absurd h, λ h. cc)

pub unexpired :
    (expire_date : Option ℕ) (day : ℕ)
    → Decides (IsNotExpired expire_date day) (not (expires_before expire_date day))
unexpired none day = (λ h. refl, λ h. tt)
unexpired (some expire_date) day = (λ h. ground (arith, h), λ h. ground (arith, h))
