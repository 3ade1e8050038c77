-- ===== src/Providers/Router/Frame.antt =====
-- What routing leaves alone: the providers that are no candidates, and the circuits that are open.
use Prim.Native.String.{String}
use data_center.Prelude.{ℕ, ◌+◌, ◌≡◌, ◌≢◌, refl, true, false, List, [], ◌∷◌, ◌++◌, arith, ◌∙◌}
use data_center.Prelude.Text.{
  text_eq, contains, contains-add, lookup, lookup-insert, lookup-erase_ne,
}
use data_center.Providers.Router.{
  Error, Outcome, done, raised, World, RouterState, RoutingAttempt, routed, answered, Turn-cases,
  answers, fails, escapes, failures_of, record_failure, discard_provider, get_provider,
  call_provider, fail_provider, settle, turn, route_from, route,
}

-- The session, the count of failures and the circuit of one provider are what they were.
abbrev pub Untouched : {S : Type 0} → String → RouterState S → RouterState S → Type 0
Untouched k r r1 =
    (lookup k r1.providers ≡ lookup k r.providers)
    × (failures_of r1 k ≡ failures_of r k)
    × (contains k r1.open_circuits ≡ contains k r.open_circuits)

Untouched-trans :
    {S : Type 0} (k : String) (r r1 r2 : RouterState S)
    → Untouched k r r1
    → Untouched k r1 r2
    → Untouched k r r2
Untouched-trans k r r1 r2 h g = (g.0 ∙ h.0, g.1 ∙ h.1, g.2 ∙ h.2)

module _ {E S V : Type 0} (world : World E S) (threshold : ℕ) (operation : S → E → Outcome V × E)
    (k code : String) (other : text_eq k code ≡ false) where
  get_provider-Untouched :
      (r : RouterState S) (e : E) → Untouched k r (get_provider world code r e).1
  unfolding get_provider
  get_provider-Untouched r e = grind (arith, lookup-insert)

  discard_provider-Untouched :
      (r : RouterState S) (e : E) → Untouched k r (discard_provider world code r e).1
  unfolding discard_provider
  discard_provider-Untouched r e = ground (arith, lookup-erase_ne k code r.providers)

  record_failure-Untouched : (r : RouterState S) → Untouched k r (record_failure threshold code r)
  unfolding record_failure
  record_failure-Untouched r = ground (
    arith,
    contains-add k code r.open_circuits,
    lookup-insert k code (failures_of r code + 1) r.consecutive_failures,
  )

  fail_provider-Untouched :
      (error : Error) (r : RouterState S) (e : E)
      → Untouched k r (fail_provider world threshold operation code error r e).1
  unfolding fail_provider
  fail_provider-Untouched error r e =
      let counted = record_failure threshold code r in
      let same =
        Untouched-trans k r counted _ (record_failure-Untouched r)
          (discard_provider-Untouched counted e) in
      ground (arith, same)

  settle-Untouched :
      (answer : Outcome V) (r : RouterState S) (e : E)
      → Untouched k r (settle world threshold operation code (answer, r, e)).1
  unfolding settle
  settle-Untouched (done value) r e = ground (arith, lookup-insert k code 0 r.consecutive_failures)
  settle-Untouched (raised error) r e = ground (arith, fail_provider-Untouched error r e)

  turn-Untouched :
      (r : RouterState S) (e : E) → Untouched k r (turn world threshold operation code r e).1
  unfolding turn call_provider
  turn-Untouched r e =
      let (opened, r1, e1) = get_provider world code r e in
      let (answer, r2, e2) = call_provider world threshold operation code r e in
      ground (arith, get_provider-Untouched r e, settle-Untouched answer r2 e2)

module _ {E S V : Type 0} (world : World E S) (threshold : ℕ) (operation : S → E → Outcome V × E)
    (k : String) where
  route_from-Untouched :
      (codes : List String) (attempts : List RoutingAttempt) (r : RouterState S) (e : E)
      → contains k codes ≡ false
      → Untouched k r (route_from world threshold operation codes attempts r e).1
  unfolding route_from contains
  route_from-Untouched [] attempts r e h = (refl, refl, refl)
  route_from-Untouched (code ∷ codes) attempts r e h =
      let (result, r1, e1) = turn world threshold operation code r e in
      let here = turn-Untouched world threshold operation k code (ground arith) r e in
      let later = λ (a : RoutingAttempt).
        route_from-Untouched codes (attempts ++ a ∷ []) r1 e1 (ground arith) in
      elim (Turn-cases result) [
        | answers v eq ↦ rw (eq, route_from) here
        | fails a eq ↦ rw (eq, route_from) (Untouched-trans k r r1 _ here (later a))
        | escapes x eq ↦ rw (eq, route_from) here
      ]

  -- Routing leaves every provider that is no candidate alone: its session, its count of
  -- consecutive failures and its circuit.
  pub route-Untouched :
      (codes : List String) (r : RouterState S) (e : E)
      → contains k codes ≡ false
      → Untouched k r (route world threshold operation codes r e).1
  unfolding route
  route-Untouched codes r e h = route_from-Untouched codes [] r e h

  turn-keeps_open :
      (code : String) (r : RouterState S) (e : E)
      → contains k r.open_circuits ≡ true
      → contains k (turn world threshold operation code r e).1.open_circuits ≡ true
  unfolding turn settle call_provider fail_provider discard_provider record_failure get_provider
  turn-keeps_open code r e h = ground (arith, contains-add k code r.open_circuits)

  turn-answered_shut :
      (code : String) (r : RouterState S) (e : E) {v : V}
      → (turn world threshold operation code r e).0 ≡ answered v
      → contains code r.open_circuits ≡ false
  unfolding turn
  turn-answered_shut code r e h = ground arith

  route_from_avoids_open :
      (codes : List String) (attempts : List RoutingAttempt) (r : RouterState S) (e : E) {v : V}
      {tried : List RoutingAttempt}
      → contains k r.open_circuits ≡ true
      → (route_from world threshold operation codes attempts r e).0 ≢ routed k v tried
  unfolding route_from
  route_from_avoids_open [] attempts r e h = λ q. cc
  route_from_avoids_open (code ∷ codes) attempts r e h =
      let (result, r1, e1) = turn world threshold operation code r e in
      let later = turn-keeps_open code r e h in
      elim (Turn-cases result) [
        | answers v eq ↦ rw (eq, route_from) (λ q. cc (turn-answered_shut code r e eq, h))
        | fails a eq ↦
            rw (eq, route_from) (route_from_avoids_open codes (attempts ++ a ∷ []) r1 e1 later)
        | escapes x eq ↦ rw (eq, route_from) (λ q. cc)
      ]

  -- An answer never comes from a provider whose circuit was open when routing began.
  pub route_avoids_open :
      (codes : List String) (r : RouterState S) (e : E) {v : V} {tried : List RoutingAttempt}
      → contains k r.open_circuits ≡ true
      → (route world threshold operation codes r e).0 ≢ routed k v tried
  unfolding route
  route_avoids_open codes r e h = route_from_avoids_open codes [] r e h
