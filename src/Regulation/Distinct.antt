-- ===== src/Regulation/Distinct.antt =====
-- The count of a window takes every event once.
use data_center.Prelude.{
  ℕ, ◌≡◌, refl, sym, ap, ◌∙◌, inl, inr, Bool, true, false, ◌&&◌, ◌||◌, Option, List, [], ◌∷◌, any,
  All, has_duplicates, arith, Bool-cases,
}
use data_center.Prelude.Codes.{codes_eq→eq, codes_eq_refl}
use data_center.Regulation.Events.{RegulationEventRecord}
use data_center.Regulation.Count.{
  CalculationDates, CandidateEvents, window_dates, is_counted, same_key, insert_event,
  collect_events, end_of, events_in_count_window,
}

and-true : (a b : Bool) → (a && b) ≡ true → (a ≡ true) × (b ≡ true)
and-true a b h = (ground (arith, h), ground (arith, h))

same_key-eq :
    (e f : RegulationEventRecord)
    → same_key e f ≡ true
    → (e.source_code ≡ f.source_code) × (e.source_event_id ≡ f.source_event_id)
same_key-eq e f h =
    let (p, q) = and-true _ _ h in
    (codes_eq→eq e.source_code f.source_code p, codes_eq→eq e.source_event_id f.source_event_id q)

same_key_left : (e f k : RegulationEventRecord) → same_key e f ≡ true → same_key k e ≡ same_key k f
same_key_left e f k h = let (p, q) = same_key-eq e f h in rw (p, q) refl

same_key_right : (e f k : RegulationEventRecord) → same_key e f ≡ true → same_key e k ≡ same_key f k
same_key_right e f k h = let (p, q) = same_key-eq e f h in rw (p, q) refl

any-insert_event :
    (k e : RegulationEventRecord) (events : List RegulationEventRecord)
    → any (same_key k) (insert_event e events) ≡ (same_key k e || any (same_key k) events)
unfolding insert_event
any-insert_event k e [] = refl
any-insert_event k e (f ∷ events) = elim (Bool-cases (same_key e f)) [
  | inl q ↦ rw q (ground (arith, same_key_left e f k q))
  | inr q ↦ rw q (ground (arith, any-insert_event k e events))
]

same_key_refl : (e : RegulationEventRecord) → same_key e e ≡ true
same_key_refl e = rw (codes_eq_refl e.source_code, codes_eq_refl e.source_event_id) refl

same_key_sym : (e f : RegulationEventRecord) → same_key e f ≡ true → same_key f e ≡ true
same_key_sym e f h = sym (same_key_right e f e h) ∙ same_key_refl e

other_key : (e f : RegulationEventRecord) → same_key e f ≡ false → same_key f e ≡ false
other_key e f h = elim (Bool-cases (same_key f e)) [
  | inl q ↦ ground (arith, h, same_key_sym f e q)
  | inr q ↦ q
]

any-same_key :
    (e f : RegulationEventRecord) (events : List RegulationEventRecord)
    → same_key e f ≡ true
    → any (same_key e) events ≡ any (same_key f) events
any-same_key e f [] h = refl
any-same_key e f (k ∷ events) h = ground (arith, same_key_right e f k h, any-same_key e f events h)

has_duplicates-insert_event :
    (e : RegulationEventRecord) (events : List RegulationEventRecord)
    → has_duplicates same_key (insert_event e events) ≡ has_duplicates same_key events
unfolding insert_event
has_duplicates-insert_event e [] = refl
has_duplicates-insert_event e (f ∷ events) = elim (Bool-cases (same_key e f)) [
  | inl q ↦ rw q (ap (λ b. b || has_duplicates same_key events) (any-same_key e f events q))
  | inr q ↦ rw q (
      ap (λ b. b || has_duplicates same_key (insert_event e events))
        (any-insert_event f e events ∙ ap (λ b. b || any (same_key f) events) (other_key e f q))
      ∙ ap (λ b. any (same_key f) events || b) (has_duplicates-insert_event e events))
]

All-insert_event :
    (P : RegulationEventRecord → Type 0) (e : RegulationEventRecord)
    (events : List RegulationEventRecord)
    → P e
    → All P events
    → All P (insert_event e events)
unfolding insert_event
All-insert_event P e [] p h = (p, tt)
All-insert_event P e (f ∷ events) p (h, hs) = elim (Bool-cases (same_key e f)) [
  | inl q ↦ rw q (p, hs)
  | inr q ↦ rw q (h, All-insert_event P e events p hs)
]

module _ (counted : RegulationEventRecord → Bool) where
  -- Every event satisfies the condition, no key stands among them twice, and the keys are those of the
  -- ones before and of the events that satisfy it.
  abbrev IsCollected :
      List RegulationEventRecord → List RegulationEventRecord → List RegulationEventRecord → Type 0
  IsCollected by_key events result =
      All (λ e. counted e ≡ true) result
      × (has_duplicates same_key result ≡ false)
      × ((k : RegulationEventRecord)
          → any (same_key k) result
            ≡ (any (same_key k) by_key || any (λ e. counted e && same_key k e) events))

  collect_events-IsCollected :
      (by_key events : List RegulationEventRecord)
      → All (λ e. counted e ≡ true) by_key
      → has_duplicates same_key by_key ≡ false
      → IsCollected by_key events (collect_events counted by_key events)
  unfolding collect_events
  collect_events-IsCollected by_key [] h u = (h, u, λ k. ground arith)
  collect_events-IsCollected by_key (e ∷ events) h u = elim (Bool-cases (counted e)) [
    | inl q ↦
        let (all, unique, keys) =
          collect_events-IsCollected (insert_event e by_key) events
            (All-insert_event (λ e. counted e ≡ true) e by_key q h)
            (has_duplicates-insert_event e by_key ∙ u) in
        rw q (all, unique, λ k. keys k ∙ ground (arith, any-insert_event k e by_key))
    | inr q ↦ rw q (collect_events-IsCollected by_key events h u)
  ]

-- Whatever the order of a candidate's events and however often one of them came, the count of a window
-- takes events that fulfil its condition, no two of them with one natural key, and for every natural
-- key that such an event of the candidate has, it takes one.
pub events_in_count_window-Distinct :
    (source : CalculationDates) (candidate : CandidateEvents) (window_days : ℕ) (as_of : Option ℕ)
    → let counted =
        is_counted source candidate (window_dates source window_days (end_of source as_of)) in
      let events = events_in_count_window source candidate window_days as_of in
      All (λ e. counted e ≡ true) events
      × (has_duplicates same_key events ≡ false)
      × ((k : RegulationEventRecord)
          → any (same_key k) events ≡ any (λ e. counted e && same_key k e) candidate.events)
unfolding events_in_count_window
events_in_count_window-Distinct source candidate window_days as_of =
    collect_events-IsCollected
      (is_counted source candidate (window_dates source window_days (end_of source as_of))) []
      candidate.events tt refl
