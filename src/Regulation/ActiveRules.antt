-- ===== src/Regulation/ActiveRules.antt =====
-- What the active rules of a day are.
use data_center.Prelude.{
  ℕ, ◌≡◌, refl, sym, subst, inl, inr, Bool, false, not, ◌&&◌, Option, none, some, List, [], ◌∷◌,
  map, any, keep, All, has_duplicates, ◌==◌, arith, Bool-cases,
}
use data_center.Prelude.Int.{ℤ}
use data_center.Prelude.Codes.{codes_eq, codes_eq→eq}
use data_center.Regulation.Rules.{RegulationRule, done}
use data_center.Regulation.Active.{
  same_dimension, same_days, days_of, segment_place, kind_place, level_place, direction_place,
  is_active, repeats, has_versions, is_none_active, checked_active, validate_regulation_rules,
}

module _ {A : Type 0} (eq : A → A → Bool) (eq_sym : (x y : A) → eq x y ≡ eq y x) where
  not_among :
      (x : A) (seen xs : List A)
      → All (λ y. any (eq y) (x ∷ seen) ≡ false) xs
      → (any (eq x) xs ≡ false) × All (λ y. any (eq y) seen ≡ false) xs
  not_among x seen [] h = (refl, tt)
  not_among x seen (y ∷ ys) (h, hs) =
      let (others, olds) = not_among x seen ys hs in
      (ground (arith, eq_sym x y, h, others), (ground (arith, h), olds))

  repeats-None :
      (seen xs : List A)
      → repeats eq seen xs ≡ false
      → (has_duplicates eq xs ≡ false) × All (λ x. any (eq x) seen ≡ false) xs
  unfolding repeats
  repeats-None seen [] h = (refl, tt)
  repeats-None seen (x ∷ xs) h = elim (Bool-cases (any (eq x) seen)) [
    | inl q ↦ ground (arith, rw q at h)
    | inr q ↦
        let (distinct, news) = repeats-None (x ∷ seen) xs (rw q at h) in
        let (others, olds) = not_among x seen xs news in (rw (others, distinct) refl, (q, olds))
  ]

and-cong : {a b c d : Bool} → a ≡ b → c ≡ d → (a && c) ≡ (b && d)
and-cong p q = rw (p, q) refl

equal_sym : (m n : ℕ) → (m == n) ≡ (n == m)
equal_sym m n = ground arith

codes_eq_sym : (xs ys : List ℕ) → codes_eq xs ys ≡ codes_eq ys xs
unfolding codes_eq
codes_eq_sym [] [] = refl
codes_eq_sym [] (y ∷ ys) = refl
codes_eq_sym (x ∷ xs) [] = refl
codes_eq_sym (x ∷ xs) (y ∷ ys) = and-cong (equal_sym x y) (codes_eq_sym xs ys)

same_days_sym : (a b : Option ℤ) → same_days a b ≡ same_days b a
same_days_sym none none = refl
same_days_sym none (some b) = refl
same_days_sym (some a) none = refl
same_days_sym (some a) (some b) = ground arith

same_dimension_sym : (a b : RegulationRule) → same_dimension a b ≡ same_dimension b a
same_dimension_sym a b =
    and-cong
      (and-cong
        (and-cong
          (and-cong
            (and-cong (equal_sym (segment_place a.segment) (segment_place b.segment))
              (equal_sym (level_place a.level) (level_place b.level)))
            (equal_sym (kind_place a.kind) (kind_place b.kind)))
          (equal_sym (direction_place a.direction) (direction_place b.direction)))
        (same_days_sym (days_of a.window_days a.count_window_days)
          (days_of b.window_days b.count_window_days)))
      (same_days_sym a.comparison_window_days b.comparison_window_days)

one_version :
    (r : RegulationRule) (rules : List RegulationRule)
    → any (λ s. not (codes_eq s.rule_set_version r.rule_set_version)) rules ≡ false
    → All (λ s. s.rule_set_version ≡ r.rule_set_version) rules
one_version r [] h = tt
one_version r (s ∷ rules) h = (
  codes_eq→eq s.rule_set_version r.rule_set_version (ground (arith, h)),
  one_version r rules (ground (arith, h)),
)

-- There is a rule, and all have its version.
abbrev pub HasVersion : List RegulationRule → Type 0
HasVersion [] = ⊥
HasVersion (r ∷ rules) = All (λ s. s.rule_set_version ≡ r.rule_set_version) rules

has_versions-HasVersion :
    (active : List RegulationRule)
    → is_none_active active ≡ false
    → has_versions active ≡ false
    → HasVersion active
has_versions-HasVersion [] h k = ground (arith, h)
has_versions-HasVersion (r ∷ rules) h k = one_version r rules k

checked_active-done :
    (active result : List RegulationRule)
    → checked_active active ≡ done result
    → (is_none_active active ≡ false)
      × (has_versions active ≡ false)
      × (repeats same_dimension [] active ≡ false)
      × (active ≡ result)
checked_active-done active result h = ground (arith, h)

validate-done :
    (rules active : List RegulationRule) (trade_date : ℕ)
    → validate_regulation_rules rules trade_date ≡ done active
    → (repeats codes_eq [] (map (λ r. r.rule_code) rules) ≡ false)
      × (checked_active (keep (is_active trade_date) rules) ≡ done active)
unfolding validate_regulation_rules
validate-done rules active trade_date h = ground (arith, h)

-- Rules that are validated have different codes. The active ones are those that are enabled and in
-- force on the day, in their order; there is one, all have one version, and no two have one segment,
-- level, kind, direction and windows.
pub validate_regulation_rules-HasVersion :
    (rules active : List RegulationRule) (trade_date : ℕ)
    → validate_regulation_rules rules trade_date ≡ done active
    → (has_duplicates codes_eq (map (λ r. r.rule_code) rules) ≡ false)
      × (active ≡ keep (is_active trade_date) rules)
      × HasVersion active
      × (has_duplicates same_dimension active ≡ false)
validate_regulation_rules-HasVersion rules active trade_date h =
    let (fresh, checked) = validate-done rules active trade_date h in
    let (some_active, versions, dimensions, e) = checked_active-done _ active checked in
    (
      (repeats-None codes_eq codes_eq_sym [] _ fresh).0,
      sym e,
      subst HasVersion e (has_versions-HasVersion _ some_active versions),
      subst (λ rules. has_duplicates same_dimension rules ≡ false) e
          (repeats-None same_dimension same_dimension_sym [] _ dimensions).0,
    )
