-- ===== src/StockPools/Accounts.antt =====
-- What the limits, events, members and findings of a calculation account for.
use Prim.Native.String.{String}
use data_center.Prelude.{
  ℕ, ◌+◌, ◌≡◌, refl, sym, ap, ◌∙◌, subst, inl, inr, Bool, true, false, ◌&&◌, ◌||◌, List, [], ◌∷◌,
  ◌++◌, map, length, length-append, any, All, All-append, leb, arith,
}
use data_center.Prelude.Int.{ℤ, eq_ℤ}
use data_center.Prelude.Codes.{codes_eq, codes_eq_refl}
use data_center.Prelude.Sort.{sort_by, any-sort_by, length-sort_by}
use data_center.StockPools.Rules.{
  PriceLimitDirection, up, down, price_limit_rule_effective_from, StockPoolCandidate,
  StockPoolBuildInput, DailyPriceLimit, PriceLimitEvent, StockPoolMember, Result, done, raised,
}
use data_center.StockPools.Calculate.{
  Tally, event_of, assess_each, merge, append_tally, by_symbol, StockPoolCalculationOutput,
  output_of, calculate_mainboard_stock_pools,
}
use data_center.StockPools.Candidate.{
  has_member, done_injective, direction_eq, limit_price, is_hit, marked,
  assess_candidate-IsAssessed, IsAssessed,
}

abbrev pub event_key : PriceLimitEvent → List ℕ × PriceLimitDirection
event_key e = (e.symbol, e.direction)

abbrev pub member_key : StockPoolMember → List ℕ × PriceLimitDirection
member_key m = (m.symbol, m.direction)

abbrev pub direction_price : PriceLimitDirection → DailyPriceLimit → ℤ
direction_price up l = l.upper_limit
direction_price down l = l.lower_limit

-- The limit of the event's symbol has the price of the event, in its direction.
abbrev pub is_limit_of : PriceLimitEvent → DailyPriceLimit → Bool
is_limit_of e l = codes_eq e.symbol l.symbol && eq_ℤ e.limit_price (direction_price e.direction l)

-- The close of the event is its limit price, which is that of a limit.
abbrev pub IsAtLimit : List DailyPriceLimit → PriceLimitEvent → Type 0
IsAtLimit limits e = (eq_ℤ e.close e.limit_price ≡ true) × (any (is_limit_of e) limits ≡ true)

-- Every candidate has a limit or is rejected, and every rejection is a finding; the events are those
-- of the members, and each closed at the price of a limit.
abbrev pub IsAccounted : List StockPoolCandidate → Tally → Type 0
IsAccounted candidates t =
    (length t.limits + t.rejected ≡ length candidates)
    × (length t.findings ≡ t.rejected)
    × (map event_key t.events ≡ map member_key t.members)
    × All (IsAtLimit t.limits) t.events

-- The members of a pool are the candidates that closed at its limit.
abbrev pub HasHits : List StockPoolCandidate → Tally → Type 0
HasHits candidates t =
    (direction : PriceLimitDirection) (symbol : List ℕ)
    → has_member direction symbol t.members
      ≡ any (λ c. is_hit direction c && codes_eq symbol c.symbol) candidates

limit_of_itself :
    (d : ℕ) (close : ℤ) (l : DailyPriceLimit) (direction : PriceLimitDirection)
    → any (is_limit_of (event_of d l.symbol direction close (direction_price direction l))) (l ∷ [])
      ≡ true
limit_of_itself d close l direction = ground (arith, codes_eq_refl l.symbol)

marked-events :
    (d : ℕ) (close : ℤ) (l : DailyPriceLimit) (b c : Bool)
    → (eq_ℤ close l.upper_limit ≡ b)
    → (eq_ℤ close l.lower_limit ≡ c)
    → (map event_key (marked d close l b c).events ≡ map member_key (marked d close l b c).members)
      × All (IsAtLimit (l ∷ [])) (marked d close l b c).events
marked-events d close l true true p q =
    (refl, ((p, limit_of_itself d close l up), ((q, limit_of_itself d close l down), tt)))
marked-events d close l true false p q = (refl, ((p, limit_of_itself d close l up), tt))
marked-events d close l false true p q = (refl, ((q, limit_of_itself d close l down), tt))
marked-events d close l false false p q = (refl, tt)

marked-has :
    (d : ℕ) (close : ℤ) (l : DailyPriceLimit) (b c : Bool) (direction : PriceLimitDirection)
    (symbol : List ℕ)
    → has_member direction symbol (marked d close l b c).members ≡ (
        ((direction_eq direction up && b) || (direction_eq direction down && c))
        && codes_eq symbol l.symbol)
marked-has d close l b c up symbol = ground arith
marked-has d close l b c down symbol = ground arith

or_false : (b : Bool) → (b || false) ≡ b
or_false b = ground arith

chosen_first : (b c : Bool) → ((b || false) && c) ≡ (b && c)
chosen_first b c = ground arith

marked-hits :
    (d : ℕ) (close : ℤ) (l : DailyPriceLimit) (direction : PriceLimitDirection) (symbol : List ℕ)
    → has_member direction symbol
        (marked d close l (eq_ℤ close l.upper_limit) (eq_ℤ close l.lower_limit)).members
      ≡ (eq_ℤ close (limit_price direction (l.lower_limit, l.upper_limit))
          && codes_eq symbol l.symbol)
marked-hits d close l up symbol =
    marked-has d close l _ _ up symbol
    ∙ chosen_first (eq_ℤ close l.upper_limit) (codes_eq symbol l.symbol)
marked-hits d close l down symbol = marked-has d close l _ _ down symbol

any-append :
    {A : Type 0} (p : A → Bool) (xs ys : List A) → any p (xs ++ ys) ≡ (any p xs || any p ys)
any-append p [] ys = refl
any-append p (x ∷ xs) ys = ground (arith, any-append p xs ys)

map-append : {A B : Type 0} (f : A → B) (xs ys : List A) → map f (xs ++ ys) ≡ map f xs ++ map f ys
map-append f [] ys = refl
map-append f (x ∷ xs) ys = ap (λ zs. f x ∷ zs) (map-append f xs ys)

All-map :
    {A : Type 0} (P Q : A → Type 0) (f : (x : A) → P x → Q x) (xs : List A) → All P xs → All Q xs
All-map P Q f [] h = tt
All-map P Q f (x ∷ xs) (p, h) = (f x p, All-map P Q f xs h)

merge-IsAccounted :
    (c : StockPoolCandidate) (candidates : List StockPoolCandidate) (t u : Tally)
    → IsAccounted (c ∷ []) t
    → IsAccounted candidates u
    → IsAccounted (c ∷ candidates) (merge t u)
merge-IsAccounted c candidates t u (a1, a2, a3, a4) (b1, b2, b3, b4) = (
  omega (arith, a1, b1, length-append t.limits u.limits),
  omega (arith, a2, b2, length-append t.findings u.findings),
  map-append event_key t.events u.events
      ∙ ap (λ xs. xs ++ map event_key u.events) a3
      ∙ ap (λ xs. map member_key t.members ++ xs) b3
      ∙ sym (map-append member_key t.members u.members),
  All-append (IsAtLimit (t.limits ++ u.limits)) t.events u.events
      (All-map (IsAtLimit t.limits) _
        (λ e (p, q). (p, any-append (is_limit_of e) t.limits u.limits ∙ rw q refl)) t.events a4)
      (All-map (IsAtLimit u.limits) _
        (λ e (p, q). (p, any-append (is_limit_of e) t.limits u.limits ∙ ground (arith, q))) u.events
        b4),
)

module _ (d : ℕ) (effective : leb price_limit_rule_effective_from d ≡ true) where
  assessed-IsAccounted :
      (c : StockPoolCandidate) (t : Tally)
      → IsAssessed d c effective t
      → IsAccounted (c ∷ []) t × HasHits (c ∷ []) t
  assessed-IsAccounted c t (inl (code, message, e, hit)) =
      subst (λ t. IsAccounted (c ∷ []) t × HasHits (c ∷ []) t) (sym e)
        ((refl, refl, refl, tt), λ direction symbol. rw (hit direction) refl)
  assessed-IsAccounted c t (inr (l, close, same, e, hit)) =
      let (keys, limits) = marked-events d close l _ _ refl refl in
      subst (λ t. IsAccounted (c ∷ []) t × HasHits (c ∷ []) t) (sym e)
        (
          (refl, refl, keys, limits),
          λ direction symbol.
              marked-hits d close l direction symbol ∙ rw (hit direction, same) (sym (or_false _)),
        )

  append-IsAccounted :
      (c : StockPoolCandidate) (candidates : List StockPoolCandidate) (r s : Result Tally)
      (t : Tally)
      → ((u : Tally) → r ≡ done u → IsAccounted (c ∷ []) u × HasHits (c ∷ []) u)
      → ((u : Tally) → s ≡ done u → IsAccounted candidates u × HasHits candidates u)
      → append_tally r s ≡ done t
      → IsAccounted (c ∷ candidates) t × HasHits (c ∷ candidates) t
  append-IsAccounted c candidates (raised e) s t f g h = cc
  append-IsAccounted c candidates (done u) (raised e) t f g h = cc
  append-IsAccounted c candidates (done u) (done v) t f g h =
      let (a, p) = f u refl in
      let (b, q) = g v refl in
      subst (λ t. IsAccounted (c ∷ candidates) t × HasHits (c ∷ candidates) t)
        (done_injective _ _ h)
        (
          merge-IsAccounted c candidates u v a b,
          λ direction symbol.
              any-append _ u.members v.members
              ∙ ground (arith, p direction symbol, q direction symbol),
        )

  assess_each-IsAccounted :
      (candidates : List StockPoolCandidate) (t : Tally)
      → assess_each d candidates ≡ done t
      → IsAccounted candidates t × HasHits candidates t
  unfolding assess_each
  assess_each-IsAccounted [] t h =
      subst (λ t. IsAccounted [] t × HasHits [] t) (done_injective _ _ h)
        ((refl, refl, refl, tt), λ direction symbol. refl)
  assess_each-IsAccounted (c ∷ candidates) t h =
      append-IsAccounted c candidates _ _ t
        (λ u e. assessed-IsAccounted c u (assess_candidate-IsAssessed d c effective u e))
        (assess_each-IsAccounted candidates) h

module _ (input_digest : StockPoolBuildInput → String) where
  pub output-done :
      (source : StockPoolBuildInput) (r : Result Tally) (o : StockPoolCalculationOutput)
      → output_of input_digest source r ≡ done o
      → (t : Tally) × (r ≡ done t) × (output_of input_digest source (done t) ≡ done o)
  output-done source (raised e) o h = cc
  output-done source (done t) o h = (t, refl, h)

  pub calculate-done :
      (source : StockPoolBuildInput) (o : StockPoolCalculationOutput)
      → calculate_mainboard_stock_pools input_digest source ≡ done o
      → (leb price_limit_rule_effective_from source.basis_trade_date ≡ true)
        × (output_of input_digest source
              (assess_each source.basis_trade_date (sort_by by_symbol source.candidates))
            ≡ done o)
  unfolding calculate_mainboard_stock_pools
  calculate-done source o h = ground (arith, h)

  -- A calculation that returns accounts for every candidate: each has a limit or is rejected, and
  -- every rejection is a finding. The events are those of the members, in their order, and the close
  -- of each is its limit price, which is the price of a limit of its symbol in its direction.
  pub calculate-Accounts :
      (source : StockPoolBuildInput) (o : StockPoolCalculationOutput)
      → calculate_mainboard_stock_pools input_digest source ≡ done o
      → (o.candidate_count ≡ length source.candidates)
        × (length o.daily_price_limits + o.rejected_count ≡ o.candidate_count)
        × (length o.findings ≡ o.rejected_count)
        × (map event_key o.events ≡ map member_key o.members)
        × All (IsAtLimit o.daily_price_limits) o.events
  calculate-Accounts source o h =
      let (effective, result) = calculate-done source o h in
      let (t, e, out) = output-done source _ o result in
      let ((counts, findings, keys, limits), hits) =
        assess_each-IsAccounted source.basis_trade_date effective _ t e in
      subst
        (λ o.
          (o.candidate_count ≡ length source.candidates)
          × (length o.daily_price_limits + o.rejected_count ≡ o.candidate_count)
          × (length o.findings ≡ o.rejected_count)
          × (map event_key o.events ≡ map member_key o.members)
          × All (IsAtLimit o.daily_price_limits) o.events)
        (done_injective _ _ out)
        (refl, counts ∙ length-sort_by by_symbol source.candidates, findings, keys, limits)

  -- In a calculation that returns, a symbol is in the pool of a direction exactly if a candidate with
  -- this symbol is not excluded, had a high and a low within the limits that its previous close has at
  -- 10 percent, and closed at the limit of this direction.
  pub calculate-HasHits :
      (source : StockPoolBuildInput) (o : StockPoolCalculationOutput)
      → calculate_mainboard_stock_pools input_digest source ≡ done o
      → (direction : PriceLimitDirection) (symbol : List ℕ)
      → has_member direction symbol o.members
        ≡ any (λ c. is_hit direction c && codes_eq symbol c.symbol) source.candidates
  calculate-HasHits source o h direction symbol =
      let (effective, result) = calculate-done source o h in
      let (t, e, out) = output-done source _ o result in
      let (accounts, hits) = assess_each-IsAccounted source.basis_trade_date effective _ t e in
      subst
        (λ o.
          has_member direction symbol o.members
          ≡ any (λ c. is_hit direction c && codes_eq symbol c.symbol) source.candidates)
        (done_injective _ _ out)
        (hits direction symbol
          ∙ any-sort_by by_symbol (λ c. is_hit direction c && codes_eq symbol c.symbol)
              source.candidates)
