-- ===== src/Providers/Router/Sessions.antt =====
-- The sessions that `ProviderRouter` holds: leaving the `with` block closes every one of them.
use Prim.Native.String.{String}
use mathlib.Core.List.{append_assoc}
use data_center.Prelude.{
  ◌≡◌, refl, sym, Bool, true, false, Option, none, some, List, [], ◌∷◌, ◌++◌, reverse, arith, ap,
  ◌∙◌, subst, if◌then◌else◌,
}
use data_center.Prelude.Text.{lookup, erase, erase_absent, keys, IsDict}
use data_center.Providers.Router.{
  Error, Outcome, done, raised, World, RouterState, Closing, closed, close_error, interrupted,
  discard_provider, close_each, exit_router,
}
use data_center.Providers.Router.Erased.{
  erase_each, erase_each-keys, found, found_each, found_each-keys, values,
}

data DiscardCase (o : Outcome (Option Error)) : Type 0 where
  silent : o ≡ done none → DiscardCase o
  noted : (error : Error) → o ≡ done (some error) → DiscardCase o
  breaks : (error : Error) → o ≡ raised error → DiscardCase o

Discard-cases : (o : Outcome (Option Error)) → DiscardCase o
Discard-cases (done none) = silent refl
Discard-cases (done (some error)) = noted error refl
Discard-cases (raised error) = breaks error refl

abbrev pub is_interrupted : Closing → Bool
is_interrupted (interrupted _) = true
is_interrupted _ = false

module _ {E S : Type 0} (world : World E S) where
  discard_provider-erase :
      (code : String) (r : RouterState S) (e : E)
      → (discard_provider world code r e).1.providers ≡ erase code r.providers
  unfolding discard_provider
  discard_provider-erase code r e = ground (arith, erase_absent code r.providers)

  close_each-erase_each :
      (codes : List String) (with_errors : Bool) (r : RouterState S) (e : E)
      → is_interrupted (close_each world codes with_errors r e).0 ≡ false
      → (close_each world codes with_errors r e).1.providers ≡ erase_each codes r.providers
  unfolding close_each
  close_each-erase_each [] with_errors r e = λ h. refl
  close_each-erase_each (code ∷ codes) with_errors r e =
      let (result, r1, e1) = discard_provider world code r e in
      let erased = ap (erase_each codes) (discard_provider-erase code r e) in
      elim (Discard-cases result) [
        | silent q ↦
            rw (q, close_each) (λ h. close_each-erase_each codes with_errors r1 e1 h ∙ erased)
        | noted x q ↦ rw (q, close_each) (λ h. close_each-erase_each codes true r1 e1 h ∙ erased)
        | breaks x q ↦ rw (q, close_each) (λ h. cc)
      ]

  -- `__exit__` of one session after another, with the errors that it raised.
  abbrev pub raised_by : Outcome (Unit {0}) → List Error
  raised_by (done _) = []
  raised_by (raised error) = error ∷ []

  abbrev pub exit_each : List S → E → List Error × E
  exit_each [] e = ([], e)
  exit_each (s ∷ sessions) e =
      let (outcome, e1) = world.exit s e in
      let (errors, e2) = exit_each sessions e1 in (raised_by outcome ++ errors, e2)

  abbrev discarded : Outcome (Option Error) → List Error
  discarded (done none) = []
  discarded (done (some error)) = error ∷ []
  discarded (raised error) = error ∷ []

  discard_provider-exits :
      (code : String) (r : RouterState S) (e : E)
      → ((discard_provider world code r e).2 ≡ (exit_each (found (lookup code r.providers)) e).1)
        × (discarded (discard_provider world code r e).0
            ≡ (exit_each (found (lookup code r.providers)) e).0)
  unfolding discard_provider
  discard_provider-exits code r e = (ground arith, ground arith)

  exit_each-append :
      (xs ys : List S) (e : E)
      → exit_each (xs ++ ys) e ≡ (
        (exit_each xs e).0 ++ (exit_each ys (exit_each xs e).1).0,
        (exit_each ys (exit_each xs e).1).1,
      )
  exit_each-append [] ys e = refl
  exit_each-append (x ∷ xs) ys e =
      ap (λ (p : List Error × E). (raised_by (world.exit x e).0 ++ p.0, p.1))
        (exit_each-append xs ys (world.exit x e).1)
      ∙ ap (λ l. (l, (exit_each ys (exit_each xs (world.exit x e).1).1).1))
          (sym (append_assoc (raised_by (world.exit x e).0) _ _))

  -- How the loop ends that has called `__exit__` with these errors.
  abbrev pub closing_of : Bool → List Error → Closing
  closing_of true errors = close_error
  closing_of false [] = closed
  closing_of false (error ∷ errors) = close_error

  -- The loop has called `__exit__` of the sessions that it found, and its end is that of their errors.
  abbrev HasExited : List S → Bool → E → Closing × RouterState S × E → Type 0
  HasExited sessions with_errors e end =
      (end.0 ≡ closing_of with_errors (exit_each sessions e).0) × (end.2 ≡ (exit_each sessions e).1)

  HasExited-found :
      (code : String) (sessions : List S) (b c : Bool) (r : RouterState S) (e : E)
      (end : Closing × RouterState S × E)
      → ((errors : List Error)
          → closing_of c errors
            ≡ closing_of b (discarded (discard_provider world code r e).0 ++ errors))
      → HasExited sessions c (discard_provider world code r e).2 end
      → HasExited (found (lookup code r.providers) ++ sessions) b e end
  HasExited-found code sessions b c r e end same (closing, after) =
      let (left, errors) = discard_provider-exits code r e in
      let both = exit_each-append (found (lookup code r.providers)) sessions e in
      (
        closing
            ∙ same _
            ∙ ap
                (λ l.
                  closing_of b (l ++ (exit_each sessions (discard_provider world code r e).2).0))
                errors
            ∙ ap
                (λ x.
                  closing_of b
                    ((exit_each (found (lookup code r.providers)) e).0 ++ (exit_each sessions x).0))
                left
            ∙ ap (λ (p : List Error × E). closing_of b p.0) (sym both),
        after
            ∙ ap (λ x. (exit_each sessions x).1) left
            ∙ ap (λ (p : List Error × E). p.1) (sym both),
      )

  any_closing :
      (b : Bool) (error : Error) (errors : List Error)
      → closing_of true errors ≡ closing_of b (error ∷ errors)
  any_closing true error errors = refl
  any_closing false error errors = refl

  close_each-HasExited :
      (codes : List String) (with_errors : Bool) (r : RouterState S) (e : E)
      → is_interrupted (close_each world codes with_errors r e).0 ≡ false
      → HasExited
          (found_each codes r.providers)
          with_errors
          e
          (close_each world codes with_errors r e)
  unfolding close_each
  close_each-HasExited [] true r e = λ h. (refl, refl)
  close_each-HasExited [] false r e = λ h. (refl, refl)
  close_each-HasExited (code ∷ codes) with_errors r e =
      let (result, r1, e1) = discard_provider world code r e in
      let erased = ap (found_each codes) (discard_provider-erase code r e) in
      elim (Discard-cases result) [
        | silent q ↦
            rw (q, close_each)
              (λ h.
                HasExited-found code _ with_errors with_errors r e
                  (close_each world codes with_errors r1 e1)
                  (λ errors. ap (λ o. closing_of with_errors (discarded o ++ errors)) (sym q))
                  (subst
                    (λ l. HasExited l with_errors e1 (close_each world codes with_errors r1 e1))
                    erased (close_each-HasExited codes with_errors r1 e1 h)))
        | noted x q ↦
            rw (q, close_each)
              (λ h.
                HasExited-found code _ with_errors true r e (close_each world codes true r1 e1)
                  (λ errors.
                    any_closing with_errors x errors
                    ∙ ap (λ o. closing_of with_errors (discarded o ++ errors)) (sym q))
                  (subst (λ l. HasExited l true e1 (close_each world codes true r1 e1)) erased
                    (close_each-HasExited codes true r1 e1 h)))
        | breaks x q ↦ rw (q, close_each) (λ h. cc)
      ]

  exit_router-closing :
      (body_failed : Bool) (r : RouterState S) (e : E)
      → let (result, r1, e1) = close_each world (reverse (keys r.providers)) false r e in
        is_interrupted (exit_router world body_failed r e).0 ≡ false
        → (is_interrupted result ≡ false)
          × ((exit_router world body_failed r e).0 ≡ (if body_failed then closed else result))
          × ((exit_router world body_failed r e).1 ≡ r1)
          × ((exit_router world body_failed r e).2 ≡ e1)
  unfolding exit_router
  exit_router-closing true r e h =
      (ground (arith, h), ground (arith, h), ground (arith, h), ground (arith, h))
  exit_router-closing false r e h =
      (ground (arith, h), ground (arith, h), ground (arith, h), ground (arith, h))

  -- From a dictionary of sessions, and unless an error that `except Exception` does not catch breaks
  -- the loop, leaving the `with` block calls `__exit__` of every session once, the last opened first,
  -- and of nothing else, and gives them up. It raises an error of its own exactly if one of these calls
  -- raised and the block had not.
  pub exit_router_closes :
      (body_failed : Bool) (r : RouterState S) (e : E)
      → IsDict r.providers
      → is_interrupted (exit_router world body_failed r e).0 ≡ false
      → let (errors, after) = exit_each (reverse (values r.providers)) e in
        ((exit_router world body_failed r e).1.providers ≡ [])
        × ((exit_router world body_failed r e).2 ≡ after)
        × ((exit_router world body_failed r e).0
            ≡ (if body_failed then closed else closing_of false errors))
  exit_router_closes body_failed r e dict h =
      let codes = reverse (keys r.providers) in
      let (going, result, state, after) = exit_router-closing body_failed r e h in
      let (closing, left) = close_each-HasExited codes false r e going in
      let sessions = found_each-keys r.providers dict in
      (
        ap (λ (x : RouterState S). x.providers) state
            ∙ close_each-erase_each codes false r e going
            ∙ erase_each-keys r.providers dict,
        after ∙ left ∙ ap (λ l. (exit_each l e).1) sessions,
        result
            ∙ ap (λ c. if body_failed then closed else c)
                (closing ∙ ap (λ l. closing_of false (exit_each l e).0) sessions),
      )
