-- ===== src/Writer/Ledger.antt =====
-- What the writer has recorded of the rounds that it took from its queue.
use Prim.Native.String.{String}
use data_center.Prelude.{ℕ, ◌≡◌, refl, sym, ap, ◌∙◌, Option, none, some, List, [], ◌∷◌, ◌++◌}
use data_center.Writer.{
  CapturedRound, Item, captured, stop, WriterState, sequence_of, record_round, first_of,
}

-- A round that was given to `persist`, and the error that this raised.
abbrev pub Written : Type 0
Written = CapturedRound × Option String

abbrev pub rounds : List Written → List CapturedRound
rounds [] = []
rounds ((c, answer) ∷ written) = c ∷ rounds written

abbrev pub persisted_of : List Written → List ℕ
persisted_of [] = []
persisted_of ((c, none) ∷ written) = sequence_of c ∷ persisted_of written
persisted_of ((c, some error) ∷ written) = persisted_of written

abbrev pub failed_of : List Written → List ℕ
failed_of [] = []
failed_of ((c, none) ∷ written) = failed_of written
failed_of ((c, some error) ∷ written) = sequence_of c ∷ failed_of written

abbrev pub first_error_of : List Written → Option String
first_error_of [] = none
first_error_of ((c, none) ∷ written) = first_error_of written
first_error_of ((c, some error) ∷ written) = some error

abbrev pub queued : List Item → List CapturedRound
queued [] = []
queued (captured c ∷ items) = c ∷ queued items
queued (stop ∷ items) = queued items

-- The rounds that were submitted are the written ones and then the queued ones, and the writer's
-- lists and first error are those of the written ones.
abbrev pub Recorded : List Written → List Item → WriterState → List CapturedRound → Type 0
Recorded written items w log =
    (rounds written ++ queued items ≡ log)
    × (w.persisted_sequences ≡ persisted_of written)
    × (w.failed_sequences ≡ failed_of written)
    × (w.first_error_type ≡ first_error_of written)

-- The written rounds are the calls of `persist`, in order, with the answers that it gave in the worlds
-- that it found: each call leaves a world, and between two calls others may change it.
pub data Calls {E : Type 0} (Changes : E → E → Type 0)
    (persist : CapturedRound → E → Option String × E) (e0 : E) : List Written → E → Type 0 where
  no_call : Calls Changes persist e0 [] e0
  changed :
      {written : List Written} {e e1 : E}
      → Changes e e1
      → Calls Changes persist e0 written e
      → Calls Changes persist e0 written e1
  called :
      {written : List Written} {e : E} (c : CapturedRound)
      → Calls Changes persist e0 written e
      → Calls Changes persist e0 (written ++ (c, (persist c e).0) ∷ []) (persist c e).1

rounds-snoc :
    (written : List Written) (c : CapturedRound) (answer : Option String)
    (rest : List CapturedRound)
    → rounds (written ++ (c, answer) ∷ []) ++ rest ≡ rounds written ++ c ∷ rest
rounds-snoc [] c answer rest = refl
rounds-snoc (x ∷ written) c answer rest = ap (λ l. x.0 ∷ l) (rounds-snoc written c answer rest)

pub queued-snoc :
    (items : List Item) (item : Item)
    → queued (items ++ item ∷ []) ≡ queued items ++ queued (item ∷ [])
queued-snoc [] item = refl
queued-snoc (captured c ∷ items) item = ap (λ l. c ∷ l) (queued-snoc items item)
queued-snoc (stop ∷ items) item = queued-snoc items item

-- The lists of a written round that was persisted, and of one that failed.
persisted-snoc :
    (written : List Written) (c : CapturedRound)
    → (persisted_of (written ++ (c, none) ∷ []) ≡ persisted_of written ++ sequence_of c ∷ [])
      × (failed_of (written ++ (c, none) ∷ []) ≡ failed_of written)
      × (first_error_of (written ++ (c, none) ∷ []) ≡ first_error_of written)
persisted-snoc [] c = (refl, refl, refl)
persisted-snoc ((d, none) ∷ written) c =
    let (p, f, e) = persisted-snoc written c in (ap (λ l. sequence_of d ∷ l) p, f, e)
persisted-snoc ((d, some error) ∷ written) c =
    let (p, f, e) = persisted-snoc written c in (p, ap (λ l. sequence_of d ∷ l) f, refl)

failed-snoc :
    (written : List Written) (c : CapturedRound) (x : String)
    → (persisted_of (written ++ (c, some x) ∷ []) ≡ persisted_of written)
      × (failed_of (written ++ (c, some x) ∷ []) ≡ failed_of written ++ sequence_of c ∷ [])
      × (first_error_of (written ++ (c, some x) ∷ []) ≡ first_of (first_error_of written) x)
failed-snoc [] c x = (refl, refl, refl)
failed-snoc ((d, none) ∷ written) c x =
    let (p, f, e) = failed-snoc written c x in (ap (λ l. sequence_of d ∷ l) p, f, e)
failed-snoc ((d, some error) ∷ written) c x =
    let (p, f, e) = failed-snoc written c x in (p, ap (λ l. sequence_of d ∷ l) f, refl)

pub record_round-Recorded :
    (written : List Written) (answer : Option String) (c : CapturedRound) (items : List Item)
    (w : WriterState) (log : List CapturedRound)
    → Recorded written (captured c ∷ items) w log
    → Recorded
        (written ++ (c, answer) ∷ [])
        items
        (record_round answer (sequence_of c) (record w { queue = items }))
        log
unfolding record_round
record_round-Recorded written none c items w log (all, p, f, e) =
    let (ps, fs, es) = persisted-snoc written c in
    (
      rounds-snoc written c none (queued items) ∙ all,
      ap (λ l. l ++ sequence_of c ∷ []) p ∙ sym ps,
      f ∙ sym fs,
      e ∙ sym es,
    )
record_round-Recorded written (some x) c items w log (all, p, f, e) =
    let (ps, fs, es) = failed-snoc written c x in
    (
      rounds-snoc written c (some x) (queued items) ∙ all,
      p ∙ sym ps,
      ap (λ l. l ++ sequence_of c ∷ []) f ∙ sym fs,
      ap (λ o. first_of o x) e ∙ sym es,
    )
