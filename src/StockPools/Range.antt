-- ===== src/StockPools/Range.antt =====
-- The upper and the lower price limit of a day, rounded to the tick
-- (src/market_data_center/stock_pool_calculator.py).
use data_center.Prelude.{ℕ, suc, ◌+◌, ◌*◌, ◌/◌, not, ◌||◌, leb, ◌-◌, if◌then◌else◌}
use data_center.Prelude.Int.{ℤ, pos, negsuc, pos_part, neg_part, sub_ℕ, ltb_ℤ, ◌+ℤ◌}
use data_center.StockPools.Rules.{
  PriceLimitDirection, up, down, PriceTick, Result, done, raised, not_positive,
}

-- n / d, rounded, a half up.
abbrev pub half_up : ℕ → ℕ → ℕ
half_up n d = (2 * n + d) / (2 * d)

-- `value.quantize(price_tick, rounding=ROUND_HALF_UP)`, of a value in hundredths: a half goes away
-- from 0.
unfoldable pub quantize : ℤ → ℕ → ℤ
quantize (pos n) digit = pos (half_up n (100 * digit) * digit)
quantize (negsuc n) digit = sub_ℕ 0 (half_up (suc n) (100 * digit) * digit)

-- `abs(a - b)`
abbrev distance : ℤ → ℤ → ℕ
distance a b =
    let x = pos_part a + neg_part b in
    let y = pos_part b + neg_part a in if leb x y then y - x else x - y

abbrev shift : ℤ → ℤ → PriceLimitDirection → ℤ
shift previous_close tick up = previous_close +ℤ tick
shift previous_close tick down = previous_close +ℤ sub_ℕ (neg_part tick) (pos_part tick)

abbrev max_ℤ : ℤ → ℤ → ℤ
max_ℤ a b = if ltb_ℤ a b then b else a

unfoldable pub round_limit : ℤ → ℤ → PriceLimitDirection → PriceTick → ℤ
unfolding quantize ◌+ℤ◌
round_limit value previous_close direction price_tick =
    let rounded = quantize value price_tick.digit in
    max_ℤ
      (if ltb_ℤ (pos (distance rounded previous_close)) price_tick.value
        then shift previous_close price_tick.value direction
        else rounded)
      price_tick.value

-- The lower and the upper limit of a positive previous close and a positive ratio.
unfoldable pub limit_range : ℕ → ℕ → PriceTick → ℤ × ℤ
unfolding round_limit
limit_range previous_close ratio price_tick = (
  round_limit (sub_ℕ (previous_close * 100) (previous_close * ratio)) (pos previous_close) down
      price_tick,
  round_limit (pos (previous_close * (100 + ratio))) (pos previous_close) up price_tick,
)

-- Past the guard every value is positive.
unfoldable pub calculate_price_limit_range : ℤ → ℤ → PriceTick → Result (ℤ × ℤ)
unfolding limit_range
calculate_price_limit_range previous_close ratio price_tick =
    if not (ltb_ℤ (pos 0) previous_close)
      || not (ltb_ℤ (pos 0) ratio)
      || not (ltb_ℤ (pos 0) price_tick.value)
    then raised not_positive
    else done (limit_range (pos_part previous_close) (pos_part ratio) price_tick)
