-- ===== src/StockPools/Limits.antt =====
-- What the price limits of a day are.
use data_center.Prelude.{
  ℕ, leb, ◌+◌, ◌-◌, ◌*◌, ◌%◌, ◌≤◌, ◌≡◌, ◌⊎◌, inl, inr, refl, arith, subst, sym, ap, ◌∙◌, Bool,
  false, not, ◌||◌, if◌then◌else◌,
}
use data_center.Prelude.Int.{ℤ, pos, pos_part, sub_ℕ, ltb_ℤ}
use data_center.StockPools.Rules.{up, down, cent, Result, done}
use data_center.StockPools.Range.{half_up, limit_range, round_limit, calculate_price_limit_range}

-- A whole number of ticks, and the nearest to the value in hundredths, of two the greater.
abbrev pub IsNearest : ℕ → ℕ → Type 0
IsNearest m value = (m % 100 ≡ 0) × (m * 100 ≤ value + 5000) × (value + 1 ≤ m * 100 + 5000)

-- The nearest price to the value, if it is a tick or more above the previous close p, and otherwise the
-- price that is a tick above it.
abbrev pub IsRaised : ℕ → ℕ → ℕ → Type 0
IsRaised p value limit =
    (m : ℕ) × IsNearest m value × (p + 100 ≤ m → limit ≡ m) × (m + 1 ≤ p + 100 → limit ≡ p + 100)

abbrev pub a_tick_or_more : ℕ → ℕ
a_tick_or_more x = if leb 100 x then x else 100

-- The nearest price to the value, if it is a tick or more below the previous close, and otherwise the
-- price that is a tick below it, but in either case no less than a tick.
abbrev pub IsLowered : ℕ → ℕ → ℕ → Type 0
IsLowered p value limit =
    (m : ℕ) × IsNearest m value
    × (m + 100 ≤ p → limit ≡ a_tick_or_more m)
    × (p + 1 ≤ m + 100 → limit ≡ a_tick_or_more (p - 100))

-- The value of a limit, as a number.
abbrev limit_value : ℤ → ℕ
limit_value price = pos_part price

upper_limit :
    (p v : ℕ)
    → 100 ≤ p
    → p * 100 ≤ v
    → (round_limit (pos v) (pos p) up cent
        ≡ pos (limit_value (round_limit (pos v) (pos p) up cent)))
      × (p + 100 ≤ limit_value (round_limit (pos v) (pos p) up cent))
unfolding round_limit
upper_limit p v h k = (ground arith, ground arith)

round_limit-IsRaised :
    (p v value : ℕ)
    → 100 ≤ p
    → p * 100 ≤ v
    → v ≡ value
    → IsRaised p value (limit_value (round_limit (pos v) (pos p) up cent))
unfolding round_limit
round_limit-IsRaised p v value h k e = (
  half_up v 10000 * 100,
  (ground arith, ground arith, ground arith),
  (λ q. ground arith),
  λ q. ground arith,
)

lower_limit :
    (p v : ℕ)
    → 100 ≤ p
    → v ≤ p * 100
    → (round_limit (pos v) (pos p) down cent
        ≡ pos (limit_value (round_limit (pos v) (pos p) down cent)))
      × (100 ≤ limit_value (round_limit (pos v) (pos p) down cent))
      × (limit_value (round_limit (pos v) (pos p) down cent) ≤ p)
unfolding round_limit
lower_limit p v h k = (ground arith, ground arith, ground arith)

round_limit-IsLowered :
    (p v value : ℕ)
    → 100 ≤ p
    → v ≤ p * 100
    → v ≡ value
    → IsLowered p value (limit_value (round_limit (pos v) (pos p) down cent))
unfolding round_limit
round_limit-IsLowered p v value h k e = (
  half_up v 10000 * 100,
  (ground arith, ground arith, ground arith),
  (λ q. ground arith),
  λ q. ground arith,
)

-- The ratios of the rules, in hundredths.
abbrev pub IsRatio : ℕ → Type 0
IsRatio ratio = (ratio ≡ 10) ⊎ (ratio ≡ 20)

-- The limits l and u that a previous close p has: u is at least a tick above it, l is at least a tick
-- and not above p, and each is the price that the ratio gives.
abbrev pub IsRange : ℕ → ℕ → Result (ℤ × ℤ) → Type 0
IsRange p ratio (done (pos l, pos u)) =
    (p + 100 ≤ u)
    × IsRaised p (p * (100 + ratio)) u
    × (100 ≤ l)
    × (l ≤ p)
    × IsLowered p (p * (100 - ratio)) l
IsRange p ratio _ = ⊥

pub limits_IsRange :
    (p ratio v w : ℕ)
    → 100 ≤ p
    → v ≡ p * (100 + ratio)
    → w ≡ p * (100 - ratio)
    → p * 100 ≤ v
    → w ≤ p * 100
    → IsRange p ratio
        (done (round_limit (pos w) (pos p) down cent, round_limit (pos v) (pos p) up cent))
limits_IsRange p ratio v w h ev ew hv hw =
    let (u, high) = upper_limit p v h hv in
    let (l, low, below) = lower_limit p w h hw in
    rw (u, l)
      (high, round_limit-IsRaised p v _ h hv ev, low, below, round_limit-IsLowered p w _ h hw ew)

pub if_false : {A : Type 0} (b : Bool) (x y : A) → b ≡ false → (if b then x else y) ≡ y
if_false b x y h = rw h refl

sub_ℕ_le : (a b : ℕ) → b ≤ a → sub_ℕ a b ≡ pos (a - b)
sub_ℕ_le a b h = ground arith

-- The limits of positive arguments, with the lower value as a number.
calculate-limits :
    (p ratio : ℕ)
    → 1 ≤ p
    → 1 ≤ ratio
    → p * ratio ≤ p * 100
    → calculate_price_limit_range (pos p) (pos ratio) cent
      ≡ done (
        round_limit (pos (p * 100 - p * ratio)) (pos p) down cent,
        round_limit (pos (p * (100 + ratio))) (pos p) up cent,
      )
unfolding calculate_price_limit_range limit_range
calculate-limits p ratio h positive low =
    if_false
      (not (ltb_ℤ (pos 0) (pos p))
        || not (ltb_ℤ (pos 0) (pos ratio))
        || not (ltb_ℤ (pos 0) (pos 100)))
      _ _ (ground arith)
    ∙ ap
        (λ v.
          done (
            round_limit v (pos p) down cent,
            round_limit (pos (p * (100 + ratio))) (pos p) up cent,
          ))
        (sub_ℕ_le (p * 100) (p * ratio) low)

-- With the tick of a cent, the ratio of a rule and a previous close of a cent or more, there are
-- limits. The upper one is at least a tick above the previous close; the lower one is a tick or more
-- and not above it. Take the whole number of ticks that is the nearest to the previous close raised or
-- lowered by the ratio, a half up: if it is a tick or more from the previous close, it is the limit,
-- and otherwise the limit is a tick from the previous close; but the lower limit is a tick, where that
-- would be less.
pub calculate_price_limit_range-IsRange :
    (p ratio : ℕ)
    → 100 ≤ p
    → IsRatio ratio
    → IsRange p ratio (calculate_price_limit_range (pos p) (pos ratio) cent)
calculate_price_limit_range-IsRange p ratio h (inl e) =
    subst (λ r. IsRange p r (calculate_price_limit_range (pos p) (pos r) cent)) (sym e)
      (rw (calculate-limits p 10 (omega arith) (omega arith) (omega arith))
        (limits_IsRange p 10 _ _ h refl (omega arith) (omega arith) (omega arith)))
calculate_price_limit_range-IsRange p ratio h (inr e) =
    subst (λ r. IsRange p r (calculate_price_limit_range (pos p) (pos r) cent)) (sym e)
      (rw (calculate-limits p 20 (omega arith) (omega arith) (omega arith))
        (limits_IsRange p 20 _ _ h refl (omega arith) (omega arith) (omega arith)))
