-- ===== src/StockPools/Candidate.antt =====
-- What the loop makes of one candidate.
use Prim.Native.String.{String}
use data_center.Prelude.{
  ℕ, ◌≡◌, refl, sym, ap, ◌∙◌, subst, ◌⊎◌, inl, inr, Bool, true, false, not, ◌&&◌, ◌||◌, Option,
  none, some, List, [], ◌∷◌, ◌++◌, any, leb, is_some, arith, Bool-cases, if◌then◌else◌,
}
use data_center.Prelude.Int.{ℤ, pos, negsuc, ltb_ℤ, eq_ℤ}
use data_center.Prelude.Text.{text_eq}
use data_center.Prelude.Codes.{codes_eq}
use data_center.Domain.Records
use data_center.Domain.Records.{Exchange}
use data_center.StockPools.Rules.{
  PriceLimitDirection, up, down, PriceLimitRule, price_limit_rule, rule_of, cent,
  price_limit_rule_version, price_limit_rule_effective_from, StockPoolCandidate, DailyPriceLimit,
  check_limit, StockPoolMember, pool_of, Result, done, raised, check_event, check_member,
}
use data_center.StockPools.Range.{calculate_price_limit_range, limit_range}
use data_center.StockPools.Board.{
  board_reason, reason_on, rejection_reason, is_mainboard, is_priced,
}
use data_center.StockPools.Limits.{if_false}
use data_center.StockPools.Calculate.{
  Tally, reject, mark, mark_both, mark_down, within_range, under_rule, assess, assess_reason,
  assess_candidate, above, under, ratio_of, limit_of, event_of,
}

-- The symbol is a member of the pool of this direction.
abbrev pub has_member : PriceLimitDirection → List ℕ → List StockPoolMember → Bool
has_member direction symbol members =
    any (λ m. text_eq m.pool_code (pool_of direction) && codes_eq symbol m.symbol) members

abbrev pub direction_eq : PriceLimitDirection → PriceLimitDirection → Bool
direction_eq up up = true
direction_eq down down = true
direction_eq _ _ = false

mark-cases :
    (d : ℕ) (symbol : List ℕ) (close : ℤ) (direction : PriceLimitDirection) (limit : ℤ)
    (t u : Tally)
    → mark d symbol close direction limit t ≡ done u
    → ((eq_ℤ close limit ≡ false) × (t ≡ u))
      ⊎ ((eq_ℤ close limit ≡ true)
          × (record t {
            events = t.events ++ event_of d symbol direction close limit ∷ [];
            members =
                t.members
                ++ (record {
                  pool_code = pool_of direction;
                  symbol = symbol;
                  direction = direction;
                })
                  ∷ [];
          }
              ≡ u))
unfolding mark check_event check_member
mark-cases d symbol close up limit t u h = ground (arith, h)
mark-cases d symbol close down limit t u h = ground (arith, h)

board_reason-none :
    (c : StockPoolCandidate) (on_mainboard : Bool)
    → board_reason c on_mainboard ≡ none
    → (is_priced c.previous_close ≡ true) × (is_some c.close ≡ true) × (on_mainboard ≡ true)
unfolding board_reason
board_reason-none c on_mainboard h = ground (arith, h)

pub done_injective : {A : Type 0} (x y : A) → done x ≡ done y → x ≡ y
done_injective x y h = cc

reason_on-none :
    (c : StockPoolCandidate) (answer : Option Bool)
    → reason_on c answer ≡ done none
    → (b : Bool) × (answer ≡ some b) × (board_reason c b ≡ none)
reason_on-none c none h = cc
reason_on-none c (some b) h = (b, refl, done_injective _ _ h)

pub rejection-none :
    (c : StockPoolCandidate)
    → rejection_reason c ≡ done none
    → (is_priced c.previous_close ≡ true)
      × (is_some c.close ≡ true)
      × (is_mainboard c.exchange c.code ≡ some true)
unfolding rejection_reason
rejection-none c h =
    let (b, board, reason) = reason_on-none c _ (ground (arith, h)) in
    let (priced, closed, on) = board_reason-none c _ reason in (priced, closed, board ∙ ap some on)

abbrev pub limit_price : PriceLimitDirection → ℤ × ℤ → ℤ
limit_price up range = range.1
limit_price down range = range.0

abbrev hits : PriceLimitDirection → StockPoolCandidate → Option ℤ → Option ℤ → Bool
hits direction c (some (pos p)) (some close) =
    let range = limit_range p 10 cent in
    not (above c.high range.1 || under c.low range.0) && eq_ℤ close (limit_price direction range)
hits direction c _ _ = false

abbrev is_taken : Result (Option String) → Bool
is_taken (done none) = true
is_taken _ = false

-- The candidate is not excluded, its high and low are within the limits that its previous close has
-- at 10 percent, and it closed at the limit of this direction.
abbrev pub is_hit : PriceLimitDirection → StockPoolCandidate → Bool
is_hit direction c = is_taken (rejection_reason c) && hits direction c c.previous_close c.close

mainboard_rule :
    (e : Exchange) (code : List ℕ) (d : ℕ)
    → is_mainboard e code ≡ some true
    → leb price_limit_rule_effective_from d ≡ true
    → price_limit_rule e d "mainboard"
      ≡ done (rule_of price_limit_rule_version e "mainboard" (pos 10))
unfolding is_mainboard price_limit_rule
mainboard_rule Records.sse code d h k = rw k refl
mainboard_rule Records.szse code d h k = rw k refl
mainboard_rule Records.bse code d h k = ground (arith, h)

pub positive_range :
    (p : ℕ)
    → ltb_ℤ (pos 0) (pos p) ≡ true
    → calculate_price_limit_range (pos p) (pos 10) cent ≡ done (limit_range p 10 cent)
unfolding calculate_price_limit_range
positive_range p h =
    if_false (not (ltb_ℤ (pos 0) (pos p)) || false || false) _ _ (ground (arith, h))

abbrev only_if : {A : Type 0} → Bool → A → List A
only_if b x = if b then x ∷ [] else []

abbrev member_of : List ℕ → PriceLimitDirection → StockPoolMember
member_of symbol direction = record {
  pool_code = pool_of direction;
  symbol = symbol;
  direction = direction;
}

-- The entries of a limit, for the close at its upper and at its lower price.
abbrev pub marked : ℕ → ℤ → DailyPriceLimit → Bool → Bool → Tally
marked d close limit at_upper at_lower = record {
  limits = limit ∷ [];
  events =
      only_if at_upper (event_of d limit.symbol up close limit.upper_limit)
      ++ only_if at_lower (event_of d limit.symbol down close limit.lower_limit);
  members =
      only_if at_upper (member_of limit.symbol up)
      ++ only_if at_lower (member_of limit.symbol down);
  findings = [];
  rejected = 0;
}

mark_down-marked :
    (d : ℕ) (close : ℤ) (limit : DailyPriceLimit) (b : Bool) (t : Tally)
    → mark d limit.symbol close down limit.lower_limit (marked d close limit b false) ≡ done t
    → t ≡ marked d close limit b (eq_ℤ close limit.lower_limit)
mark_down-marked d close limit true t h = elim (mark-cases _ _ _ _ _ _ _ h) [
  | inl (q, e) ↦ rw q (sym e)
  | inr (q, e) ↦ rw q (sym e)
]
mark_down-marked d close limit false t h = elim (mark-cases _ _ _ _ _ _ _ h) [
  | inl (q, e) ↦ rw q (sym e)
  | inr (q, e) ↦ rw q (sym e)
]

module _ (d : ℕ) (close : ℤ) (limit : DailyPriceLimit) where
  abbrev lower_round : Result Tally → Result Tally
  lower_round r = mark_down d limit.symbol close limit.lower_limit r

  lower_round-marked :
      (b : Bool) (u t : Tally)
      → marked d close limit b false ≡ u
      → lower_round (done u) ≡ done t
      → t ≡ marked d close limit b (eq_ℤ close limit.lower_limit)
  lower_round-marked b u t e h =
      mark_down-marked d close limit b t (subst (λ v. lower_round (done v) ≡ done t) (sym e) h)

  rounds-marked :
      (r : Result Tally) (t : Tally)
      → r ≡ mark d limit.symbol close up limit.upper_limit (marked d close limit false false)
      → lower_round r ≡ done t
      → t ≡ marked d close limit (eq_ℤ close limit.upper_limit) (eq_ℤ close limit.lower_limit)
  rounds-marked (raised e) t q h = cc
  rounds-marked (done u) t q h = elim (mark-cases _ _ _ _ _ _ _ (sym q)) [
    | inl (k, e) ↦ rw k (lower_round-marked false u t e h)
    | inr (k, e) ↦ rw k (lower_round-marked true u t e h)
  ]

  pub mark_both-marked :
      (t : Tally)
      → mark_both d close (done limit) ≡ done t
      → t ≡ marked d close limit (eq_ℤ close limit.upper_limit) (eq_ℤ close limit.lower_limit)
  mark_both-marked t h = rounds-marked _ t refl h

abbrev pub mainboard : Exchange → PriceLimitRule
mainboard e = rule_of price_limit_rule_version e "mainboard" (pos 10)

pub ratio-mainboard : (e : Exchange) (is_st : Option Bool) → ratio_of (mainboard e) is_st ≡ pos 10
ratio-mainboard e none = refl
ratio-mainboard e (some true) = refl
ratio-mainboard e (some false) = refl

module _ (d : ℕ) (c : StockPoolCandidate)
    (effective : leb price_limit_rule_effective_from d ≡ true) where
  pub assess-within :
      (p : ℕ) (close : ℤ)
      → is_mainboard c.exchange c.code ≡ some true
      → ltb_ℤ (pos 0) (pos p) ≡ true
      → assess d c none (some (pos p)) (some close)
        ≡ within_range d c (pos p) close (mainboard c.exchange) (done (limit_range p 10 cent))
  unfolding assess under_rule
  assess-within p close board positive =
      ap (under_rule d c (pos p) close) (mainboard_rule c.exchange c.code d board effective)
      ∙ ap
          (λ ratio.
            within_range d c (pos p) close (mainboard c.exchange)
              (calculate_price_limit_range (pos p) ratio cent))
          (ratio-mainboard c.exchange c.is_st)
      ∙ ap (within_range d c (pos p) close (mainboard c.exchange)) (positive_range p positive)

  -- The candidate is excluded, or it has a limit and the entries that its close calls for.
  abbrev pub IsAssessed : Tally → Type 0
  IsAssessed t =
      ((code : String) × (message : String) × (t ≡ reject code message c)
        × ((direction : PriceLimitDirection) → is_hit direction c ≡ false))
      ⊎ ((limit : DailyPriceLimit) × (close : ℤ) × (limit.symbol ≡ c.symbol)
          × (t ≡ marked d close limit (eq_ℤ close limit.upper_limit) (eq_ℤ close limit.lower_limit))
          × ((direction : PriceLimitDirection)
              → is_hit direction c
                ≡ eq_ℤ close (limit_price direction (limit.lower_limit, limit.upper_limit))))

  checked-IsAssessed :
      (p : ℕ) (close : ℤ) (range : ℤ × ℤ) (r : Result DailyPriceLimit) (t : Tally)
      → r ≡ check_limit (limit_of d c (pos p) (mainboard c.exchange) range)
      → mark_both d close r ≡ done t
      → ((direction : PriceLimitDirection)
          → is_hit direction c ≡ eq_ℤ close (limit_price direction range))
      → IsAssessed t
  unfolding check_limit
  checked-IsAssessed p close range (raised e) t q h hit = cc
  checked-IsAssessed p close (lower, upper) (done limit) t q h hit =
      let e : limit_of d c (pos p) (mainboard c.exchange) (lower, upper) ≡ limit =
        ground (arith, q) in
      subst (λ l. mark_both d close (done l) ≡ done t → IsAssessed t) e
        (λ k. inr (
          limit_of d c (pos p) (mainboard c.exchange) (lower, upper),
          close,
          refl,
          mark_both-marked d close _ t k,
          hit,
        ))
        h

  within-IsAssessed :
      (p : ℕ) (close : ℤ) (range : ℤ × ℤ) (t : Tally)
      → within_range d c (pos p) close (mainboard c.exchange) (done range) ≡ done t
      → ((direction : PriceLimitDirection)
          → is_hit direction c ≡ (
              not (above c.high range.1 || under c.low range.0)
              && eq_ℤ close (limit_price direction range)))
      → IsAssessed t
  unfolding within_range
  within-IsAssessed p close (lower, upper) t h hit =
      elim (Bool-cases (above c.high upper || under c.low lower)) [
        | inl q ↦ inl (
          "stock_pool.ohlc_outside_price_limit",
          "candidate OHLC contradicts the selected price-limit rule",
          done_injective _ _ (sym (rw q at h)),
          λ direction. hit direction ∙ rw q refl,
        )
        | inr q ↦
            checked-IsAssessed p close (lower, upper) _ t refl (rw q at h)
              (λ direction. hit direction ∙ rw q refl)
      ]

  assess-IsAssessed :
      (reason : Option String) (previous_close close : Option ℤ) (t : Tally)
      → done reason ≡ rejection_reason c
      → previous_close ≡ c.previous_close
      → close ≡ c.close
      → assess d c reason previous_close close ≡ done t
      → IsAssessed t
  unfolding assess
  assess-IsAssessed (some reason) previous_close close t r p k h = inl (
    reason,
    "candidate excluded because the applicable price-limit rule is not provable",
    done_injective _ _ (sym h),
    λ direction. rw (sym r) refl,
  )
  assess-IsAssessed none (some (pos p)) (some close) t r q k h =
      let (positive, closed, board) = rejection-none c (sym r) in
      within-IsAssessed p close (limit_range p 10 cent) t
        (sym (assess-within p close board (subst (λ x. is_priced x ≡ true) (sym q) positive)) ∙ h)
        (λ direction. rw (sym r, sym q, sym k) refl)
  assess-IsAssessed none (some (negsuc n)) close t r q k h =
      ground (arith, rejection-none c (sym r), q)
  assess-IsAssessed none none close t r q k h = ground (arith, rejection-none c (sym r), q)
  assess-IsAssessed none (some (pos p)) none t r q k h = cc

  assess_reason-IsAssessed :
      (answer : Result (Option String)) (t : Tally)
      → answer ≡ rejection_reason c
      → assess_reason d c answer ≡ done t
      → IsAssessed t
  assess_reason-IsAssessed (done reason) t e h = assess-IsAssessed _ _ _ t e refl refl h
  assess_reason-IsAssessed (raised x) t e h = cc

  pub assess_candidate-IsAssessed : (t : Tally) → assess_candidate d c ≡ done t → IsAssessed t
  unfolding assess_candidate
  assess_candidate-IsAssessed t h = assess_reason-IsAssessed _ t refl h
