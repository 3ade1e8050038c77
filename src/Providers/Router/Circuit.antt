-- ===== src/Providers/Router/Circuit.antt =====
-- The circuit breaker of `ProviderRouter`: which failures open a circuit, and what that changes.
use Prim.Native.String.{String}
use data_center.Prelude.{
  ℕ, ◌+◌, ◌≤◌, ◌≡◌, Bool-cases, false, List, [], ◌∷◌, ◌++◌, inl, inr, leb, arith,
}
use data_center.Prelude.Text.{text_eq-cases, contains, contains-add, lookup-insert}
use data_center.Providers.Router.{
  Error, Outcome, done, raised, World, RouterState, RoutingAttempt, Turn-cases, answers, fails,
  escapes, failures_of, record_failure, discard_provider, get_provider, call_provider,
  fail_provider, settle, turn, route_from, route,
}

-- A circuit is open exactly when the provider's consecutive failures have reached the threshold.
abbrev pub IsConsistent : {S : Type 0} → ℕ → RouterState S → Type 0
IsConsistent threshold r =
    (code : String) → contains code r.open_circuits ≡ leb threshold (failures_of r code)

module _ {S : Type 0} (threshold : ℕ) where
  record_failure-IsConsistent :
      (code : String) (r : RouterState S)
      → IsConsistent threshold r
      → IsConsistent threshold (record_failure threshold code r)
  unfolding record_failure
  record_failure-IsConsistent code r h k = ground (
    arith,
    h k,
    h code,
    text_eq-cases k code,
    contains-add k code r.open_circuits,
    lookup-insert k code (failures_of r code + 1) r.consecutive_failures,
  )

abbrev SameCircuits : {S : Type 0} → RouterState S → RouterState S → Type 0
SameCircuits r r1 =
    (r1.consecutive_failures ≡ r.consecutive_failures) × (r1.open_circuits ≡ r.open_circuits)

SameCircuits-IsConsistent :
    {S : Type 0} (threshold : ℕ) (r r1 : RouterState S)
    → SameCircuits r r1
    → IsConsistent threshold r
    → IsConsistent threshold r1
SameCircuits-IsConsistent threshold r r1 (failures, circuits) h k = rw (failures, circuits) (h k)

module _ {E S : Type 0} (world : World E S) where
  discard_provider-SameCircuits :
      (code : String) (r : RouterState S) (e : E)
      → SameCircuits r (discard_provider world code r e).1
  unfolding discard_provider
  discard_provider-SameCircuits code r e = ground arith

  get_provider-SameCircuits :
      (code : String) (r : RouterState S) (e : E) → SameCircuits r (get_provider world code r e).1
  unfolding get_provider
  get_provider-SameCircuits code r e = ground arith

module _ {E S V : Type 0} (world : World E S) (threshold : ℕ)
    (operation : S → E → Outcome V × E) where
  call_provider-SameCircuits :
      (code : String) (r : RouterState S) (e : E)
      → SameCircuits r (call_provider world threshold operation code r e).1
  unfolding call_provider
  call_provider-SameCircuits code r e = ground (arith, get_provider-SameCircuits world code r e)

  fail_provider-IsConsistent :
      (code : String) (error : Error) (r : RouterState S) (e : E)
      → IsConsistent threshold r
      → IsConsistent threshold (fail_provider world threshold operation code error r e).1
  unfolding fail_provider
  fail_provider-IsConsistent code error r e h k =
      let counted = record_failure threshold code r in
      ground (
        arith,
        record_failure-IsConsistent threshold code r h k,
        discard_provider-SameCircuits world code counted e,
      )

  settle-IsConsistent :
      (code : String) (answer : Outcome V) (r : RouterState S) (e : E)
      → 1 ≤ threshold
      → contains code r.open_circuits ≡ false
      → IsConsistent threshold r
      → IsConsistent threshold (settle world threshold operation code (answer, r, e)).1
  unfolding settle
  settle-IsConsistent code (done value) r e positive shut h k =
      ground (arith, h k, text_eq-cases k code, lookup-insert k code 0 r.consecutive_failures)
  settle-IsConsistent code (raised error) r e positive shut h k =
      ground (arith, h k, fail_provider-IsConsistent code error r e h k)

  turn-IsConsistent :
      (code : String) (r : RouterState S) (e : E)
      → 1 ≤ threshold
      → IsConsistent threshold r
      → IsConsistent threshold (turn world threshold operation code r e).1
  unfolding turn
  turn-IsConsistent code r e positive h =
      let (answer, r1, e1) = call_provider world threshold operation code r e in
      let same = call_provider-SameCircuits code r e in
      elim (Bool-cases (contains code r.open_circuits)) [
        | inl opened ↦ rw opened h
        | inr shut ↦ rw shut (
            settle-IsConsistent code answer r1 e1 positive (rw same.1 shut)
              (SameCircuits-IsConsistent threshold r r1 same h))
      ]

  route_from-IsConsistent :
      (codes : List String) (attempts : List RoutingAttempt) (r : RouterState S) (e : E)
      → 1 ≤ threshold
      → IsConsistent threshold r
      → IsConsistent threshold (route_from world threshold operation codes attempts r e).1
  unfolding route_from
  route_from-IsConsistent [] attempts r e positive h k = h k
  route_from-IsConsistent (code ∷ codes) attempts r e positive h k =
      let (result, r1, e1) = turn world threshold operation code r e in
      let h1 = turn-IsConsistent code r e positive h in
      elim (Turn-cases result) [
        | answers v e ↦ rw (e, route_from) (h1 k)
        | fails a e ↦
            rw (e, route_from)
              (route_from-IsConsistent codes (attempts ++ a ∷ []) r1 e1 positive h1 k)
        | escapes x e ↦ rw (e, route_from) (h1 k)
      ]

  -- Routing keeps a circuit open exactly for the providers whose consecutive failures have reached
  -- the threshold, on every way out of `route`, if the threshold is positive.
  pub route-IsConsistent :
      (codes : List String) (r : RouterState S) (e : E)
      → 1 ≤ threshold
      → IsConsistent threshold r
      → IsConsistent threshold (route world threshold operation codes r e).1
  unfolding route
  route-IsConsistent codes r e positive h = route_from-IsConsistent codes [] r e positive h
