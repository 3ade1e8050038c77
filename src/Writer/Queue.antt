-- ===== src/Writer/Queue.antt =====
-- Whatever the two threads do in turn, `persist` is called for every round that was
-- submitted, once and in order.
use Prim.Native.String.{String}
use mathlib.Core.List.{append_assoc, append-nil}
use data_center.Prelude.{
  ◌≡◌, refl, sym, ap, ◌∙◌, subst, Bool, true, false, ◌&&◌, Option, none, some, List, [], ◌∷◌, ◌++◌,
  arith, Bool-cases, inl, inr, if◌then◌else◌,
}
use data_center.Writer.{
  CapturedRound, Item, captured, stop, WriterState, initial, accepted, submit, close, sequence_of,
  record_round, work_on, work,
}
use data_center.Writer.Ledger.{
  Written, rounds, persisted_of, failed_of, first_error_of, queued, Recorded, Calls, no_call,
  changed, called, queued-snoc, record_round-Recorded,
}

-- A state that the two threads reach from a world, with the world and the rounds submitted so far.
-- Others may change the world between the turns of the writer.
pub data Reach {E : Type 0} (Changes : E → E → Type 0)
    (persist : CapturedRound → E → Option String × E) (e0 : E)
    : WriterState → E → List CapturedRound → Type 0 where
  begins : Reach Changes persist e0 initial e0 []
  submits :
      {w w1 : WriterState} {e : E} {log : List CapturedRound} (c : CapturedRound)
      → submit c w ≡ accepted w1
      → Reach Changes persist e0 w e log
      → Reach Changes persist e0 w1 e (log ++ c ∷ [])
  closes :
      {w w1 : WriterState} {e : E} {log : List CapturedRound}
      → close w ≡ accepted w1
      → Reach Changes persist e0 w e log
      → Reach Changes persist e0 w1 e log
  others :
      {w : WriterState} {e e1 : E} {log : List CapturedRound}
      → Changes e e1
      → Reach Changes persist e0 w e log
      → Reach Changes persist e0 w e1 log
  works :
      {w : WriterState} {e : E} {log : List CapturedRound}
      → Reach Changes persist e0 w e log
      → Reach Changes persist e0 (work persist w e).0 (work persist w e).1 log

-- The stop token is the last item of a closed queue, and nothing is left when the thread returns.
abbrev no_stop : List Item → Bool
no_stop [] = true
no_stop (captured c ∷ items) = no_stop items
no_stop (stop ∷ items) = false

abbrev ends_in_stop : List Item → Bool
ends_in_stop [] = false
ends_in_stop (captured c ∷ items) = ends_in_stop items
ends_in_stop (stop ∷ []) = true
ends_in_stop (stop ∷ item ∷ items) = false

abbrev is_empty : List Item → Bool
is_empty [] = true
is_empty (item ∷ items) = false

abbrev IsPlaced : List Item → WriterState → Type 0
IsPlaced items w =
    ((if w.has_returned
        then w.is_closed && is_empty items
        else if w.is_closed
        then ends_in_stop items
        else no_stop items)
      ≡ true)

record_round-IsPlaced :
    (answer : Option String) (c : CapturedRound) (items : List Item) (w : WriterState)
    → IsPlaced (captured c ∷ items) w
    → IsPlaced items (record_round answer (sequence_of c) (record w { queue = items }))
unfolding record_round
record_round-IsPlaced none c items w p = ground (arith, p)
record_round-IsPlaced (some x) c items w p = ground (arith, p)

record_round-queue :
    (answer : Option String) (c : CapturedRound) (items : List Item) (w : WriterState)
    → (record_round answer (sequence_of c) (record w { queue = items })).queue ≡ items
unfolding record_round
record_round-queue none c items w = refl
record_round-queue (some x) c items w = refl

stop-last :
    (items : List Item) (w : WriterState)
    → w.has_returned ≡ false
    → IsPlaced (stop ∷ items) w
    → (w.is_closed ≡ true) × (is_empty items ≡ true)
stop-last [] w r p = ground (arith, p, r)
stop-last (item ∷ items) w r p = ground (arith, p, r)

module _ {E : Type 0} (Changes : E → E → Type 0) (persist : CapturedRound → E → Option String × E)
    (e0 : E) where
  -- The calls of `persist` that a state accounts for.
  abbrev pub Accounts : List Item → WriterState → E → List CapturedRound → Type 0
  Accounts items w e log =
      (written : List Written) × Recorded written items w log × Calls Changes persist e0 written e

  -- A state accounts for the rounds, and its queue is in order.
  abbrev pub IsOrderly : WriterState → E → List CapturedRound → Type 0
  IsOrderly w e log = Accounts w.queue w e log × IsPlaced w.queue w

  work_on-IsOrderly :
      (items : List Item) (w : WriterState) (e : E) (log : List CapturedRound)
      → items ≡ w.queue
      → w.has_returned ≡ false
      → Accounts items w e log
      → IsPlaced items w
      → IsOrderly (work_on persist items w e).0 (work_on persist items w e).1 log
  unfolding work_on
  work_on-IsOrderly [] w e log q r h p =
      subst (λ items. Accounts items w e log × IsPlaced items w) q (h, p)
  work_on-IsOrderly (stop ∷ items) w e log q r h p =
      let (closed, last) = stop-last items w r p in (h, rw (closed, last) refl)
  work_on-IsOrderly (captured c ∷ items) w e log q r (written, recorded, calls) p =
      let answer = (persist c e).0 in
      let next : WriterState = record_round answer (sequence_of c) (record w { queue = items }) in
      subst (λ l. Accounts l next (persist c e).1 log × IsPlaced l next)
        (sym (record_round-queue answer c items w))
        (
          (
            written ++ (c, answer) ∷ [],
            record_round-Recorded written answer c items w log recorded,
            called c calls,
          ),
          record_round-IsPlaced answer c items w p,
        )

  work-returned :
      (w : WriterState) (e : E)
      → work persist w e ≡ (if w.has_returned then (w, e) else work_on persist w.queue w e)
  unfolding work
  work-returned w e = refl

  work-IsOrderly :
      (w : WriterState) (e : E) (log : List CapturedRound)
      → IsOrderly w e log
      → IsOrderly (work persist w e).0 (work persist w e).1 log
  work-IsOrderly w e log (h, p) =
      let same = λ (b : Bool) (r : w.has_returned ≡ b).
        work-returned w e ∙ ap (λ b. if b then (w, e) else work_on persist w.queue w e) r in
      elim (Bool-cases w.has_returned) [
        | inl r ↦ subst (λ (q : WriterState × E). IsOrderly q.0 q.1 log) (sym (same true r)) (h, p)
        | inr r ↦
            subst (λ (q : WriterState × E). IsOrderly q.0 q.1 log) (sym (same false r))
              (work_on-IsOrderly w.queue w e log refl r h p)
      ]

enqueue-Recorded :
    (written : List Written) (item : Item) (w : WriterState) (log : List CapturedRound)
    → Recorded written w.queue w log
    → Recorded written (w.queue ++ item ∷ []) w (log ++ queued (item ∷ []))
enqueue-Recorded written item w log (all, p, f, e) = (
  ap (λ l. rounds written ++ l) (queued-snoc w.queue item)
      ∙ sym (append_assoc (rounds written) (queued w.queue) (queued (item ∷ [])))
      ∙ ap (λ l. l ++ queued (item ∷ [])) all,
  p,
  f,
  e,
)

no_stop-snoc :
    (items : List Item) (c : CapturedRound)
    → no_stop items ≡ true
    → no_stop (items ++ captured c ∷ []) ≡ true
no_stop-snoc [] c h = refl
no_stop-snoc (captured d ∷ items) c h = no_stop-snoc items c h
no_stop-snoc (stop ∷ items) c h = cc

ends_in_stop-snoc :
    (items : List Item) → no_stop items ≡ true → ends_in_stop (items ++ stop ∷ []) ≡ true
ends_in_stop-snoc [] h = refl
ends_in_stop-snoc (captured d ∷ items) h = ends_in_stop-snoc items h
ends_in_stop-snoc (stop ∷ items) h = cc

nothing_queued :
    (items : List Item) (w : WriterState)
    → w.has_returned ≡ true
    → IsPlaced items w
    → queued items ≡ []
nothing_queued [] w r p = refl
nothing_queued (item ∷ items) w r p = ground (arith, r, p)

open_queue :
    (items : List Item) (w : WriterState)
    → w.is_closed ≡ false
    → IsPlaced items w
    → (w.has_returned ≡ false) × (no_stop items ≡ true)
open_queue items w closed p = ground (arith, closed, p)

submit-accepted :
    (c : CapturedRound) (w w1 : WriterState)
    → submit c w ≡ accepted w1
    → (w.is_closed ≡ false) × (record w { queue = w.queue ++ captured c ∷ [] } ≡ w1)
unfolding submit
submit-accepted c w w1 h = ground (arith, h)

close-accepted :
    (w w1 : WriterState)
    → close w ≡ accepted w1
    → (w.is_closed ≡ false) × (record w { queue = w.queue ++ stop ∷ []; is_closed = true } ≡ w1)
unfolding close
close-accepted w w1 h = ground (arith, h)

module _ {E : Type 0} {Changes : E → E → Type 0} {persist : CapturedRound → E → Option String × E}
    {e0 : E} where
  enqueue-Accounts :
      (item : Item) (w : WriterState) (e : E) (log : List CapturedRound)
      → Accounts Changes persist e0 w.queue w e log
      → Accounts Changes persist e0 (w.queue ++ item ∷ []) w e (log ++ queued (item ∷ []))
  enqueue-Accounts item w e log (written, recorded, calls) =
      (written, enqueue-Recorded written item w log recorded, calls)

  -- In every state that the two threads reach, `persist` has been called for rounds, in order, and
  -- with what it answered are the failures, the successes and the first error recorded; the rounds that
  -- were submitted are these and then the ones queued, in order; the stop token is the last item, and a
  -- thread that has returned has left none.
  pub Reach-IsOrderly :
      {w : WriterState} {e : E} {log : List CapturedRound}
      → Reach Changes persist e0 w e log
      → IsOrderly Changes persist e0 w e log
  unfolding initial
  Reach-IsOrderly begins = (([], (refl, refl, refl, refl), no_call), refl)
  Reach-IsOrderly (submits {w} {w1} {e} {log} c ok reach) =
      let (h, p) = Reach-IsOrderly reach in
      let (shut, eq) = submit-accepted c w w1 ok in
      let (going, clear) = open_queue w.queue w shut p in
      subst (λ (x : WriterState). IsOrderly Changes persist e0 x e (log ++ c ∷ [])) eq
        (enqueue-Accounts (captured c) w e log h, rw (going, shut) (no_stop-snoc w.queue c clear))
  Reach-IsOrderly (closes {w} {w1} {e} {log} ok reach) =
      let (h, p) = Reach-IsOrderly reach in
      let (shut, eq) = close-accepted w w1 ok in
      let (going, clear) = open_queue w.queue w shut p in
      subst (λ (x : WriterState). IsOrderly Changes persist e0 x e log) eq
        (
          subst (λ l. Accounts Changes persist e0 (w.queue ++ stop ∷ []) w e l) (append-nil log)
              (enqueue-Accounts stop w e log h),
          rw going (ends_in_stop-snoc w.queue clear),
        )
  Reach-IsOrderly (others change reach) =
      let ((written, recorded, calls), p) = Reach-IsOrderly reach in
      ((written, recorded, changed change calls), p)
  Reach-IsOrderly (works {w} {e} {log} reach) =
      work-IsOrderly Changes persist e0 w e log (Reach-IsOrderly reach)

  -- Once the writer's thread has returned, `persist` has been called for every round that was
  -- submitted, once and in order: the persisted ones are those for which it raised nothing, the failed
  -- ones are the others, and the first error is what it raised for the first of these.
  pub returned-Accounts :
      (w : WriterState) (e : E) (log : List CapturedRound)
      → Reach Changes persist e0 w e log
      → w.has_returned ≡ true
      → (written : List Written) × Calls Changes persist e0 written e
        × (rounds written ≡ log)
        × (w.persisted_sequences ≡ persisted_of written)
        × (w.failed_sequences ≡ failed_of written)
        × (w.first_error_type ≡ first_error_of written)
  returned-Accounts w e log reach r =
      let ((written, (all, p, f, x), calls), placed) = Reach-IsOrderly reach in
      (
        written,
        calls,
        sym (append-nil (rounds written))
            ∙ ap (λ l. rounds written ++ l) (sym (nothing_queued w.queue w r placed))
            ∙ all,
        p,
        f,
        x,
      )
