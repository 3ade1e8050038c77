-- ===== src/StockPools/Completion.antt =====
-- When a calculation returns.
use Prim.Native.String.{String}
use data_center.Prelude.{
  ℕ, ◌≤◌, ◌<◌, ◌≡◌, refl, sym, ap, ◌∙◌, subst, inl, inr, Bool, true, false, ◌||◌, Option, none,
  some, List, [], ◌∷◌, not, any, length, map, has_duplicates, All, leb, ltb, ◌==◌, arith,
  Bool-cases,
}
use data_center.Prelude.Int.{ℤ, pos, negsuc, ltb_ℤ}
use data_center.Prelude.Codes.{codes_eq}
use data_center.Prelude.Sort.{All-sort_by}
use data_center.StockPools.Rules.{
  PriceLimitDirection, up, down, price_limit_rule_effective_from, StockPoolCandidate, cent,
  StockPoolBuildInput, DailyPriceLimit, check_limit, check_event, check_member, Result, done,
  raised,
}
use data_center.StockPools.Range.{limit_range}
use data_center.StockPools.Board.{rejection_reason, is_number_of, is_mainboard, is_priced}
use data_center.StockPools.Digits.{
  is_other_digit, number_from, is_digits, parse_digits, all-is_decimal,
}
use data_center.Domain.Records
use data_center.Domain.Records.{Exchange}
use data_center.StockPools.Limits.{IsRange, calculate_price_limit_range-IsRange}
use data_center.StockPools.Calculate.{
  Tally, mark, mark_both, mark_down, within_range, above, under, limit_of, assess, assess_reason,
  assess_candidate, assess_each, append_tally, by_symbol, output_of,
  calculate_mainboard_stock_pools,
}
use data_center.StockPools.Candidate.{
  mainboard, ratio-mainboard, assess-within, positive_range, rejection-none,
}

abbrev pub is_done : {A : Type 0} → Result A → Bool
is_done (done x) = true
is_done (raised e) = false

-- A positive previous close is a tick or more.
abbrev pub has_tick : Option ℤ → Bool
has_tick none = true
has_tick (some (pos n)) = n == 0 || leb 100 n
has_tick (some (negsuc n)) = true

-- The digits of a code are decimal: none is a superscript or the like, which `int` refuses.
abbrev pub has_other_digit : List ℕ → Bool
has_other_digit code = any is_other_digit code

-- A candidate whose code `int` reads, if it is one of digits, and whose close is a tick or more.
abbrev pub IsAssessable : StockPoolCandidate → Type 0
IsAssessable c = (has_other_digit c.code ≡ false) × (has_tick c.previous_close ≡ true)

is_number_of-some :
    (exchange : Exchange) (n : ℕ) → (b : Bool) × (is_number_of exchange (some n) ≡ some b)
is_number_of-some Records.sse n = (_, refl)
is_number_of-some Records.szse n = (_, refl)
is_number_of-some Records.bse n = (false, refl)

parse_digits-some :
    (text : List ℕ)
    → has_other_digit text ≡ false
    → is_digits text ≡ true
    → (n : ℕ) × (parse_digits text ≡ some n)
unfolding parse_digits
parse_digits-some text h k = (number_from 0 text, rw (all-is_decimal text h k) refl)

is_mainboard-some :
    (exchange : Exchange) (code : List ℕ)
    → has_other_digit code ≡ false
    → (b : Bool) × (is_mainboard exchange code ≡ some b)
unfolding is_mainboard
is_mainboard-some exchange code h =
    elim (Bool-cases (not (length code == 6) || not (is_digits code))) [
      | inl q ↦ (false, rw q refl)
      | inr q ↦
          let (n, read) = parse_digits-some code h (ground (arith, q)) in
          let (b, e) = is_number_of-some exchange n in (b, rw (q, read) e)
    ]

rejection_reason-returns :
    (c : StockPoolCandidate) → has_other_digit c.code ≡ false → is_done (rejection_reason c) ≡ true
unfolding rejection_reason
rejection_reason-returns c h =
    let (b, e) = is_mainboard-some c.exchange c.code h in rw e (ground arith)

mark-returns :
    (d : ℕ) (symbol : List ℕ) (close : ℤ) (direction : PriceLimitDirection) (limit : ℤ) (t : Tally)
    → ltb_ℤ (pos 0) limit ≡ true
    → is_done (mark d symbol close direction limit t) ≡ true
unfolding mark check_event check_member
mark-returns d symbol close up limit t h = ground (arith, h)
mark-returns d symbol close down limit t h = ground (arith, h)

module _ (d : ℕ) (close : ℤ) (l : DailyPriceLimit)
    (lower : ltb_ℤ (pos 0) l.lower_limit ≡ true) where
  lower_round-returns :
      (r : Result Tally)
      → is_done r ≡ true
      → is_done (mark_down d l.symbol close l.lower_limit r) ≡ true
  lower_round-returns (raised e) h = cc
  lower_round-returns (done t) h = mark-returns d l.symbol close down l.lower_limit t lower

  mark_both-returns :
      ltb_ℤ (pos 0) l.upper_limit ≡ true → is_done (mark_both d close (done l)) ≡ true
  mark_both-returns h = lower_round-returns _ (mark-returns d l.symbol close up l.upper_limit _ h)

check_limit-passes :
    (l : DailyPriceLimit)
    → ltb_ℤ l.previous_close l.upper_limit ≡ true
    → ltb_ℤ l.previous_close l.lower_limit ≡ false
    → ltb_ℤ (pos 0) l.lower_limit ≡ true
    → ltb_ℤ (pos 0) l.limit_ratio ≡ true
    → ltb_ℤ (pos 0) l.price_tick.value ≡ true
    → check_limit l ≡ done l
unfolding check_limit
check_limit-passes l a b c e f = ground (arith, a, b, c, e, f)

module _ (d : ℕ) (c : StockPoolCandidate) where
  within-returns :
      (p : ℕ) (close : ℤ) (range : ℤ × ℤ)
      → 100 ≤ p
      → IsRange p 10 (done range)
      → is_done (within_range d c (pos p) close (mainboard c.exchange) (done range)) ≡ true
  unfolding within_range
  within-returns p close (pos l, pos u) h (high, near, low, below, near_low) =
      elim (Bool-cases (above c.high (pos u) || under c.low (pos l))) [
        | inl q ↦ rw q refl
        | inr q ↦ rw q (
            subst (λ r. is_done (mark_both d close r) ≡ true)
              (sym (
                check_limit-passes (limit_of d c (pos p) (mainboard c.exchange) (pos l, pos u))
                  (ground arith) (ground arith) (ground arith)
                  (ap (λ ratio. ltb_ℤ (pos 0) ratio) (ratio-mainboard c.exchange c.is_st)) refl))
              (mark_both-returns d close
                (limit_of d c (pos p) (mainboard c.exchange) (pos l, pos u)) (ground arith)
                (ground arith)))
      ]
  within-returns p close (pos l, negsuc u) h r = elim r [ ]
  within-returns p close (negsuc l, u) h r = elim r [ ]

  module _ (effective : leb price_limit_rule_effective_from d ≡ true) where
    priced-returns :
        (p : ℕ) (close : ℤ)
        → is_mainboard c.exchange c.code ≡ some true
        → 100 ≤ p
        → is_done (assess d c none (some (pos p)) (some close)) ≡ true
    priced-returns p close board h =
        ap is_done (assess-within d c effective p close board (ground arith))
        ∙ within-returns p close (limit_range p 10 cent) h (
            subst (IsRange p 10) (positive_range p (ground arith))
              (calculate_price_limit_range-IsRange p 10 h (inl refl)))

    assess-returns :
        (reason : Option String) (previous_close close : Option ℤ)
        → done reason ≡ rejection_reason c
        → previous_close ≡ c.previous_close
        → close ≡ c.close
        → has_tick previous_close ≡ true
        → is_done (assess d c reason previous_close close) ≡ true
    unfolding assess
    assess-returns (some reason) previous_close close r q k h = refl
    assess-returns none (some (pos p)) (some close) r q k h =
        let (positive, closed, board) = rejection-none c (sym r) in
        priced-returns p close board
          (ground (arith, subst (λ x. is_priced x ≡ true) (sym q) positive, h))
    assess-returns none (some (negsuc n)) close r q k h =
        ground (arith, rejection-none c (sym r), q)
    assess-returns none none close r q k h = ground (arith, rejection-none c (sym r), q)
    assess-returns none (some (pos p)) none r q k h = ground (arith, rejection-none c (sym r), k)

    assess_reason-returns :
        (answer : Result (Option String))
        → answer ≡ rejection_reason c
        → is_done answer ≡ true
        → has_tick c.previous_close ≡ true
        → is_done (assess_reason d c answer) ≡ true
    assess_reason-returns (done reason) e r h = assess-returns _ _ _ e refl refl h
    assess_reason-returns (raised x) e r h = cc

    assess_candidate-returns : IsAssessable c → is_done (assess_candidate d c) ≡ true
    unfolding assess_candidate
    assess_candidate-returns (digits, ticks) =
        assess_reason-returns _ refl (rejection_reason-returns c digits) ticks

append_tally-returns :
    (r s : Result Tally) → is_done r ≡ true → is_done s ≡ true → is_done (append_tally r s) ≡ true
append_tally-returns (done t) (done u) h k = refl
append_tally-returns (raised e) s h k = cc
append_tally-returns (done t) (raised e) h k = cc

assess_each-returns :
    (d : ℕ) (candidates : List StockPoolCandidate)
    → leb price_limit_rule_effective_from d ≡ true
    → All IsAssessable candidates
    → is_done (assess_each d candidates) ≡ true
unfolding assess_each
assess_each-returns d [] e h = refl
assess_each-returns d (c ∷ candidates) e (h, hs) =
    append_tally-returns _ _ (assess_candidate-returns d c e h)
      (assess_each-returns d candidates e hs)

early :
    (source : StockPoolBuildInput)
    → price_limit_rule_effective_from ≤ source.basis_trade_date
    → ltb source.basis_trade_date price_limit_rule_effective_from ≡ false
early source h = ground arith

late :
    (source : StockPoolBuildInput)
    → source.basis_trade_date < source.effective_trade_date
    → leb source.effective_trade_date source.basis_trade_date ≡ false
late source h = ground arith

module _ (input_digest : StockPoolBuildInput → String) where
  output-returns :
      (source : StockPoolBuildInput) (r : Result Tally)
      → is_done r ≡ true
      → is_done (output_of input_digest source r) ≡ true
  output-returns source (done t) h = refl
  output-returns source (raised e) h = cc

  -- A calculation returns, and no constructor that it calls raises, if its basis date is one of the
  -- rules' days, its effective date is after it, no symbol stands among its candidates twice, no
  -- code has a digit that is not decimal, and no positive previous close is below a tick.
  pub calculate-returns :
      (source : StockPoolBuildInput)
      → price_limit_rule_effective_from ≤ source.basis_trade_date
      → source.basis_trade_date < source.effective_trade_date
      → has_duplicates codes_eq (map (λ c. c.symbol) source.candidates) ≡ false
      → All IsAssessable source.candidates
      → is_done (calculate_mainboard_stock_pools input_digest source) ≡ true
  unfolding calculate_mainboard_stock_pools
  calculate-returns source h k unique ticks =
      let ready = output-returns source _ (
        assess_each-returns source.basis_trade_date _ (ground arith)
          (All-sort_by by_symbol IsAssessable source.candidates ticks)) in
      rw (early source h, late source k, unique) ready
