-- ===== src/Derived/InForce.antt =====
-- Stepping through sorted records gives the record in force.
use data_center.Prelude.{
  ℕ, ◌≤◌, ◌<◌, ◌≡◌, refl, sym, ap, ◌∙◌, inl, inr, true, false, Option, none, some, List, [], ◌∷◌,
  ltb, leb, All, arith, Bool-cases, if◌then◌else◌,
}
use data_center.Prelude.Sort.{sort_by, insert_sorted, IsSorted, sort_by-IsSorted}
use data_center.Derived.Latest.{by_date, advance, later, in_force}

module _ {A : Type 0} (date_of : A → ℕ) where
  pub advance_again :
      (day next : ℕ) (current : Option A) (records : List A)
      → day ≤ next
      → advance date_of next
          (advance date_of day current records).0
          (advance date_of day current records).1
        ≡ advance date_of next current records
  unfolding advance
  advance_again day next current [] h = refl
  advance_again day next current (r ∷ records) h = elim (Bool-cases (leb (date_of r) day)) [
    | inl q ↦
        let passed : leb (date_of r) next ≡ true = ground (arith, q) in
        rw (q, passed) (advance_again day next (some r) records h)
    | inr q ↦ rw q refl
  ]

  abbrev replace : Option A → Option A → Option A
  replace current none = current
  replace current (some r) = some r

  -- Nothing is in force before the first date.
  in_force_early :
      (day first : ℕ) (records : List A)
      → day < first
      → All (λ r. leb first (date_of r) ≡ true) records
      → in_force date_of day records ≡ none
  unfolding in_force
  in_force_early day first [] h k = refl
  in_force_early day first (r ∷ records) h (k, ks) =
      let late : leb (date_of r) day ≡ false = ground (arith, k) in
      rw late (in_force_early day first records h ks)

  abbrev IsFrom : ℕ → Option A → Type 0
  IsFrom first none = Unit
  IsFrom first (some s) = leb first (date_of s) ≡ true

  later-IsFrom :
      (first : ℕ) (r : A) (o : Option A)
      → leb first (date_of r) ≡ true
      → IsFrom first o
      → IsFrom first (later date_of r o)
  later-IsFrom first r none h k = h
  later-IsFrom first r (some s) h k = elim (Bool-cases (ltb (date_of s) (date_of r))) [
    | inl q ↦ rw q h
    | inr q ↦ rw q k
  ]

  in_force-IsFrom :
      (day first : ℕ) (records : List A)
      → All (λ r. leb first (date_of r) ≡ true) records
      → IsFrom first (in_force date_of day records)
  unfolding in_force
  in_force-IsFrom day first [] h = tt
  in_force-IsFrom day first (r ∷ records) (h, hs) = elim (Bool-cases (leb (date_of r) day)) [
    | inl q ↦ rw q (later-IsFrom first r _ h (in_force-IsFrom day first records hs))
    | inr q ↦ rw q (in_force-IsFrom day first records hs)
  ]

  -- A record that is at most another gives way to it.
  later_first :
      (r : A) (o : Option A) → IsFrom (date_of r) o → later date_of r o ≡ replace (some r) o
  later_first r none h = refl
  later_first r (some s) h =
      let order : ltb (date_of s) (date_of r) ≡ false = ground (arith, h) in rw order refl

  replace_twice :
      (current o : Option A) (r : A) → replace current (replace (some r) o) ≡ replace (some r) o
  replace_twice current none r = refl
  replace_twice current (some s) r = refl

  -- In sorted records, the loop passes the records up to the day, and the last of them is in force.
  advance-in_force :
      (day : ℕ) (current : Option A) (records : List A)
      → IsSorted (by_date date_of) records
      → (advance date_of day current records).0 ≡ replace current (in_force date_of day records)
  unfolding advance in_force
  advance-in_force day current [] h = refl
  advance-in_force day current (r ∷ records) (h, hs) = elim (Bool-cases (leb (date_of r) day)) [
    | inl q ↦ rw q (
        advance-in_force day (some r) records hs
        ∙ sym (replace_twice current (in_force date_of day records) r)
        ∙ ap (replace current) (sym (later_first r _ (in_force-IsFrom day (date_of r) records h))))
    | inr q ↦
        let before : day < date_of r = ground (arith, q) in
        rw q (ap (replace current) (sym (in_force_early day (date_of r) records before h)))
  ]

  later_swap :
      (x y : A) (o : Option A)
      → leb (date_of x) (date_of y) ≡ false
      → later date_of y (later date_of x o) ≡ later date_of x (later date_of y o)
  later_swap x y none h = ground (arith, h)
  later_swap x y (some z) h = ground (arith, h)

  swapped :
      (day : ℕ) (x y : A) (o : Option A)
      → leb (date_of x) (date_of y) ≡ false
      → (let inner = if leb (date_of x) day then later date_of x o else o in
          if leb (date_of y) day then later date_of y inner else inner)
        ≡ (let inner = if leb (date_of y) day then later date_of y o else o in
            if leb (date_of x) day then later date_of x inner else inner)
  swapped day x y o h = elim (Bool-cases (leb (date_of x) day)) [
    | inl q ↦ elim (Bool-cases (leb (date_of y) day)) [
      | inl k ↦ rw (q, k) (later_swap x y o h)
      | inr k ↦ rw (q, k) refl
    ]
    | inr q ↦ rw q refl
  ]

  replace-none : (o : Option A) → replace none o ≡ o
  replace-none none = refl
  replace-none (some r) = refl

  in_force-insert_sorted :
      (day : ℕ) (x : A) (records : List A)
      → in_force date_of day (insert_sorted (by_date date_of) x records)
        ≡ in_force date_of day (x ∷ records)
  unfolding in_force insert_sorted
  in_force-insert_sorted day x [] = refl
  in_force-insert_sorted day x (y ∷ records) = elim (Bool-cases (leb (date_of x) (date_of y))) [
    | inl q ↦ rw q refl
    | inr q ↦ rw q (
        ap (λ o. if leb (date_of y) day then later date_of y o else o)
          (in_force-insert_sorted day x records)
        ∙ swapped day x y _ q)
  ]

  -- Sorting keeps the record in force, since it keeps the order of the records of one date.
  in_force-sort_by :
      (day : ℕ) (records : List A)
      → in_force date_of day (sort_by (by_date date_of) records) ≡ in_force date_of day records
  unfolding in_force sort_by
  in_force-sort_by day [] = refl
  in_force-sort_by day (x ∷ records) =
      in_force-insert_sorted day x (sort_by (by_date date_of) records)
      ∙ ap (λ o. if leb (date_of x) day then later date_of x o else o)
          (in_force-sort_by day records)

  pub by_date-IsSorted :
      (records : List A) → IsSorted (by_date date_of) (sort_by (by_date date_of) records)
  by_date-IsSorted records =
      sort_by-IsSorted (by_date date_of) (λ x y h. ground (arith, h))
        (λ x y z h k. ground (arith, h, k)) records

  -- Stepping through the sorted records from the start gives the record in force.
  pub advance-sort_by :
      (day : ℕ) (records : List A)
      → (advance date_of day none (sort_by (by_date date_of) records)).0
        ≡ in_force date_of day records
  advance-sort_by day records =
      advance-in_force day none _ (by_date-IsSorted records)
      ∙ replace-none _
      ∙ in_force-sort_by day records
