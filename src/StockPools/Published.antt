-- ===== src/StockPools/Published.antt =====
-- Why the snapshots of a calculation pass their guards.
use Prim.Native.String.{String}
use data_center.Prelude.{
  ℕ, ◌≤◌, ◌≡◌, refl, sym, ap, subst, inl, inr, Bool, true, false, ◌||◌, List, [], ◌∷◌, ◌++◌, length,
  length-append, keep, leb, arith,
}
use data_center.Prelude.Int.{ℤ, pos, ltb_ℤ}
use data_center.Prelude.Text.{text_eq}
use data_center.StockPools.Rules.{
  PriceLimitDirection, up, down, pool_of, price_limit_rule_effective_from, StockPoolCandidate,
  StockPoolBuildInput, DailyPriceLimit, StockPoolMember, Result, done, raised,
}
use data_center.StockPools.Calculate.{
  Tally, assess_each, merge, append_tally, StockPoolCalculationOutput,
  calculate_mainboard_stock_pools,
}
use data_center.StockPools.Candidate.{
  marked, done_injective, assess_candidate-IsAssessed, IsAssessed,
}
use data_center.StockPools.Accounts.{calculate-done, output-done, calculate-Accounts}
use data_center.StockPools.Completion.{is_done}
use data_center.StockPools.Snapshot.{
  StockPoolSnapshot, in_pool, snapshot_record, is_digest, snapshot_of, check_snapshot,
  stock_pool_content_hash,
}

-- No pool has more members than there are limits.
abbrev IsBounded : Tally → Type 0
IsBounded t =
    (direction : PriceLimitDirection)
    → length (in_pool (pool_of direction) t.members) ≤ length t.limits

keep-append :
    {A : Type 0} (p : A → Bool) (xs ys : List A) → keep p (xs ++ ys) ≡ keep p xs ++ keep p ys
keep-append p [] ys = refl
keep-append p (x ∷ xs) ys = ground (arith, keep-append p xs ys)

marked-IsBounded :
    (d : ℕ) (close : ℤ) (l : DailyPriceLimit) (b c : Bool) → IsBounded (marked d close l b c)
marked-IsBounded d close l true true up = omega arith
marked-IsBounded d close l true false up = omega arith
marked-IsBounded d close l false true up = omega arith
marked-IsBounded d close l false false up = omega arith
marked-IsBounded d close l true true down = omega arith
marked-IsBounded d close l true false down = omega arith
marked-IsBounded d close l false true down = omega arith
marked-IsBounded d close l false false down = omega arith

merge-IsBounded : (t u : Tally) → IsBounded t → IsBounded u → IsBounded (merge t u)
merge-IsBounded t u f g direction =
    let in_pool_of : StockPoolMember → Bool = λ m. text_eq m.pool_code (pool_of direction) in
    omega (
      arith,
      f direction,
      g direction,
      length-append t.limits u.limits,
      ap length (keep-append in_pool_of t.members u.members),
      length-append (keep in_pool_of t.members) (keep in_pool_of u.members),
    )

module _ (d : ℕ) (effective : leb price_limit_rule_effective_from d ≡ true) where
  assessed-IsBounded :
      (c : StockPoolCandidate) (t : Tally) → IsAssessed d c effective t → IsBounded t
  assessed-IsBounded c t (inl (code, message, e, hit)) =
      subst IsBounded (sym e) (λ direction. omega arith)
  assessed-IsBounded c t (inr (l, close, same, e, hit)) =
      subst IsBounded (sym e) (marked-IsBounded d close l _ _)

  append-IsBounded :
      (r s : Result Tally) (t : Tally)
      → ((u : Tally) → r ≡ done u → IsBounded u)
      → ((u : Tally) → s ≡ done u → IsBounded u)
      → append_tally r s ≡ done t
      → IsBounded t
  append-IsBounded (raised e) s t f g h = cc
  append-IsBounded (done u) (raised e) t f g h = cc
  append-IsBounded (done u) (done v) t f g h =
      subst IsBounded (done_injective _ _ h) (merge-IsBounded u v (f u refl) (g v refl))

  assess_each-IsBounded :
      (candidates : List StockPoolCandidate) (t : Tally)
      → assess_each d candidates ≡ done t
      → IsBounded t
  unfolding assess_each
  assess_each-IsBounded [] t h = subst IsBounded (done_injective _ _ h) (λ direction. omega arith)
  assess_each-IsBounded (c ∷ candidates) t h =
      append-IsBounded _ _ t
        (λ u e. assessed-IsBounded c u (assess_candidate-IsAssessed d c effective u e))
        (assess_each-IsBounded candidates) h

check_snapshot-passes :
    (s : StockPoolSnapshot)
    → (leb s.effective_trade_date s.basis_trade_date || ltb_ℤ s.version (pos 1)) ≡ false
    → (ltb_ℤ s.member_count (pos 0)
        || ltb_ℤ s.candidate_count (pos 0)
        || ltb_ℤ s.rejected_count (pos 0))
      ≡ false
    → (ltb_ℤ s.candidate_count s.member_count || ltb_ℤ s.candidate_count s.rejected_count) ≡ false
    → is_digest s.content_hash ≡ true
    → is_digest s.input_hash ≡ true
    → is_done (check_snapshot s) ≡ true
unfolding check_snapshot
check_snapshot-passes s a b c e f = rw (a, b, c, e, f) refl

module _ (input_digest : StockPoolBuildInput → String) (digest : List (List ℕ) → List ℕ)
    (is_sha256 : (symbols : List (List ℕ)) → is_digest (digest symbols) ≡ true) where
  member_bound :
      (source : StockPoolBuildInput) (o : StockPoolCalculationOutput)
      → calculate_mainboard_stock_pools input_digest source ≡ done o
      → (direction : PriceLimitDirection)
      → length (in_pool (pool_of direction) o.members) ≤ length o.daily_price_limits
  member_bound source o h direction =
      let (effective, result) = calculate-done input_digest source o h in
      let (t, e, out) = output-done input_digest source _ o result in
      subst (λ o. length (in_pool (pool_of direction) o.members) ≤ length o.daily_price_limits)
        (done_injective _ _ out)
        (assess_each-IsBounded source.basis_trade_date effective _ t e direction)

  calculate-dates :
      (source : StockPoolBuildInput) (o : StockPoolCalculationOutput)
      → calculate_mainboard_stock_pools input_digest source ≡ done o
      → leb o.effective_trade_date o.basis_trade_date ≡ false
  unfolding calculate_mainboard_stock_pools
  calculate-dates source o h =
      let (effective, result) = calculate-done input_digest source o h in
      let (t, e, out) = output-done input_digest source _ o result in
      subst (λ o. leb o.effective_trade_date o.basis_trade_date ≡ false) (done_injective _ _ out)
        (ground (arith, h))

  -- If the digests of symbols are SHA-256 texts, the result of a calculation that returns is
  -- published: under a version from 1 on, and with a digest of the input, the snapshot of either pool
  -- passes the guards of its constructor.
  pub snapshot_of-returns :
      (source : StockPoolBuildInput) (o : StockPoolCalculationOutput)
      (snapshot_id calculation_id : ℕ) (version : ℤ) (generated_at : ℕ) (input_hash : List ℕ)
      (direction : PriceLimitDirection)
      → calculate_mainboard_stock_pools input_digest source ≡ done o
      → ltb_ℤ version (pos 1) ≡ false
      → is_digest input_hash ≡ true
      → is_done (
          snapshot_of digest snapshot_id calculation_id version generated_at input_hash
            (pool_of direction)
            o)
        ≡ true
  unfolding snapshot_of check_snapshot stock_pool_content_hash
  snapshot_of-returns source o snapshot_id calculation_id version generated_at input_hash direction
        h v k =
      let (count, total, findings, keys, limits) = calculate-Accounts input_digest source o h in
      let bound = member_bound source o h direction in
      let dates = calculate-dates source o h in
      check_snapshot-passes
        (snapshot_record digest snapshot_id calculation_id version generated_at input_hash
          (pool_of direction) o)
        (ground (arith, dates, v)) (ground arith) (ground (arith, total, bound)) (is_sha256 _) k
