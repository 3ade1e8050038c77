-- ===== src/Providers/Router/Failover.antt =====
-- The failover of `ProviderRouter.route`: the order of the candidates, the record of the attempts,
-- and what stays as it was.
use Prim.Native.String.{String}
use data_center.Prelude.{
  ℕ, ◌≡◌, refl, true, List, [], ◌∷◌, ◌++◌, map, arith, sym, ap, subst, ◌∙◌, All,
}
use mathlib.Core.List.{append-nil, append_assoc}
use data_center.Prelude.Text.{contains}
use data_center.Providers.Router.{
  Outcome, World, RouterState, RoutingAttempt, Routed, routed, routing_error, escaped, circuit_open,
  failed, Turn-cases, answers, fails, escapes, fail_provider, settle, turn, route_from, route,
}

abbrev pub codes_of : List RoutingAttempt → List String
codes_of attempts = map (λ a. a.provider_code) attempts

-- The attempts are the candidates before the provider that answered, or all of them.
abbrev pub Accounts : {V : Type 0} → List String → Routed V → Type 0
Accounts codes (routed code value attempts) =
    (rest : List String) × (codes ≡ codes_of attempts ++ code ∷ rest)
Accounts codes (routing_error attempts) = codes_of attempts ≡ codes
Accounts codes (escaped error) = Unit

codes_of-snoc :
    (attempts : List RoutingAttempt) (a : RoutingAttempt) (codes : List String)
    → codes_of (attempts ++ a ∷ []) ++ codes ≡ codes_of attempts ++ a.provider_code ∷ codes
codes_of-snoc [] a codes = refl
codes_of-snoc (x ∷ attempts) a codes = rw (codes_of-snoc attempts a codes)

module _ {E S V : Type 0} (world : World E S) (threshold : ℕ)
    (operation : S → E → Outcome V × E) where
  turn-failed-code :
      (code : String) (r : RouterState S) (e : E) {a : RoutingAttempt}
      → (turn world threshold operation code r e).0 ≡ failed a
      → a.provider_code ≡ code
  unfolding turn settle fail_provider
  turn-failed-code code r e h = ground arith

  turn_open :
      (code : String) (r : RouterState S) (e : E)
      → contains code r.open_circuits ≡ true
      → turn world threshold operation code r e ≡ (failed (circuit_open code), r, e)
  unfolding turn
  turn_open code r e h = rw h

  route_from-Accounts :
      (codes : List String) (attempts : List RoutingAttempt) (r : RouterState S) (e : E)
      → Accounts
          (codes_of attempts ++ codes)
          (route_from world threshold operation codes attempts r e).0
  unfolding route_from
  route_from-Accounts [] attempts r e = sym (append-nil (codes_of attempts))
  route_from-Accounts (code ∷ codes) attempts r e =
      let (result, r1, e1) = turn world threshold operation code r e in
      elim (Turn-cases result) [
        | answers v h ↦ rw (h, route_from) (codes, refl)
        | fails a h ↦
            let names = ap (λ c. codes_of attempts ++ c ∷ codes) (turn-failed-code code r e h) in
            let later = route_from-Accounts codes (attempts ++ a ∷ []) r1 e1 in
            rw (h, route_from)
              (subst
                (λ l.
                  Accounts l
                    (route_from world threshold operation codes (attempts ++ a ∷ []) r1 e1).0)
                (codes_of-snoc attempts a codes ∙ names) later)
        | escapes x h ↦ rw (h, route_from) tt
      ]

  -- Every candidate is tried in order: a result names the failed ones before it, and an exhausted
  -- route names them all.
  pub route-Accounts :
      (codes : List String) (r : RouterState S) (e : E)
      → Accounts codes (route world threshold operation codes r e).0
  unfolding route
  route-Accounts codes r e = route_from-Accounts codes [] r e

  route_from-failed :
      (code : String) (codes : List String) (attempts : List RoutingAttempt) (a : RoutingAttempt)
      (r r1 : RouterState S) (e e1 : E)
      → turn world threshold operation code r e ≡ (failed a, r1, e1)
      → route_from world threshold operation (code ∷ codes) attempts r e
        ≡ route_from world threshold operation codes (attempts ++ a ∷ []) r1 e1
  unfolding route_from
  route_from-failed code codes attempts a r r1 e e1 h = cc

  route_from-All_open :
      (codes : List String) (attempts : List RoutingAttempt) (r : RouterState S) (e : E)
      → All (λ code. contains code r.open_circuits ≡ true) codes
      → route_from world threshold operation codes attempts r e
        ≡ (routing_error (attempts ++ map circuit_open codes), r, e)
  unfolding route_from
  route_from-All_open [] attempts r e h = rw append-nil
  route_from-All_open (code ∷ codes) attempts r e h =
      route_from-failed code codes attempts (circuit_open code) r r e e (turn_open code r e h.0)
      ∙ route_from-All_open codes (attempts ++ circuit_open code ∷ []) r e h.1
      ∙ rw append_assoc

  -- While the circuit of every candidate is open, routing calls no provider: the world and the
  -- router stay as they were, and every candidate is reported as a circuit that is open.
  pub route-All_open :
      (codes : List String) (r : RouterState S) (e : E)
      → All (λ code. contains code r.open_circuits ≡ true) codes
      → route world threshold operation codes r e ≡ (routing_error (map circuit_open codes), r, e)
  unfolding route
  route-All_open codes r e h = route_from-All_open codes [] r e h
