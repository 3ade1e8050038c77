-- ===== src/BoardIndex/Groups.antt =====
-- The groups that the validation of daily bars forms: every record stands in one, under its key.
use data_center.Prelude.{
  ℕ, zero, suc, ◌+◌, ◌≡◌, ◌⊎◌, inl, inr, refl, sym, ap, subst, Bool, true, false, List, [], ◌∷◌,
  ◌++◌, map, length, length-append, All, arith, Bool-cases, if◌then◌else◌,
}
use data_center.Prelude.Codes.{codes_eq_refl}
use data_center.BoardIndex.Records.{BoardIndexDailyBarRecord}
use data_center.BoardIndex.Best.{IsIn}
use data_center.BoardIndex.Validation.{BarGroup, same_bar_key, add_record, group_records}

IsIn-last : {A : Type 0} → (x : A) (xs : List A) → IsIn x (xs ++ x ∷ [])
IsIn-last x [] = inl refl
IsIn-last x (y ∷ xs) = inr (IsIn-last x xs)

IsIn-append : {A : Type 0} → (y x : A) (xs : List A) → IsIn y xs → IsIn y (xs ++ x ∷ [])
IsIn-append y x (z ∷ xs) (inl e) = inl e
IsIn-append y x (z ∷ xs) (inr h) = inr (IsIn-append y x xs h)
IsIn-append y x [] h = absurd h

module _ {D : Type 0} where
  -- The record stands in a group, under the group's key.
  abbrev pub IsGrouped : BoardIndexDailyBarRecord D → List (BarGroup D) → Type 0
  IsGrouped r [] = ⊥
  IsGrouped r (g ∷ groups) =
      ((same_bar_key g.first r ≡ true) × (IsIn r g.others ⊎ (r ≡ g.first))) ⊎ IsGrouped r groups

  -- No two groups have one key.
  abbrev pub IsNewKey : BoardIndexDailyBarRecord D → List (BoardIndexDailyBarRecord D) → Type 0
  IsNewKey r firsts = All (λ s. same_bar_key r s ≡ false) firsts

  abbrev pub AreNewKeys : List (BoardIndexDailyBarRecord D) → Type 0
  AreNewKeys [] = Unit
  AreNewKeys (r ∷ firsts) = IsNewKey r firsts × AreNewKeys firsts

  abbrev pub firsts_of : List (BarGroup D) → List (BoardIndexDailyBarRecord D)
  firsts_of groups = map (λ g. g.first) groups

  abbrev pub total_size : List (BarGroup D) → ℕ
  total_size [] = zero
  total_size (g ∷ groups) = suc (length g.others) + total_size groups

  total_size-add_record :
      (r : BoardIndexDailyBarRecord D) (groups : List (BarGroup D))
      → total_size (add_record r groups) ≡ suc (total_size groups)
  unfolding add_record
  total_size-add_record r [] = refl
  total_size-add_record r (g ∷ groups) = elim (Bool-cases (same_bar_key g.first r)) [
    | inl q ↦ rw q (omega (arith, length-append g.others (r ∷ [])))
    | inr q ↦ rw q (omega (arith, total_size-add_record r groups))
  ]

  pub total_size-group_records :
      (groups : List (BarGroup D)) (records : List (BoardIndexDailyBarRecord D))
      → total_size (group_records groups records) ≡ total_size groups + length records
  unfolding group_records
  total_size-group_records groups [] = omega arith
  total_size-group_records groups (r ∷ records) = omega (
    arith,
    total_size-group_records (add_record r groups) records,
    total_size-add_record r groups,
  )

  key_refl : (r : BoardIndexDailyBarRecord D) → same_bar_key r r ≡ true
  key_refl r = rw (codes_eq_refl r.board_id) (ground arith)

  IsGrouped-one : (r : BoardIndexDailyBarRecord D) → IsGrouped r (add_record r [])
  unfolding add_record
  IsGrouped-one r = inl (key_refl r, inr refl)

  IsNewKey-one :
      (s r : BoardIndexDailyBarRecord D)
      → same_bar_key s r ≡ false
      → IsNewKey s (firsts_of (add_record r []))
  unfolding add_record
  IsNewKey-one s r q = (q, tt)

  AreNewKeys-one : (r : BoardIndexDailyBarRecord D) → AreNewKeys (firsts_of (add_record r []))
  unfolding add_record
  AreNewKeys-one r = (tt, tt)

  -- The groups after a record is added, by whether the first of them has its key.
  add_record-cases :
      (P : List (BarGroup D) → Type 0) (r : BoardIndexDailyBarRecord D) (g : BarGroup D)
      (groups : List (BarGroup D))
      → (same_bar_key g.first r ≡ true
          → P (record { first = g.first; others = g.others ++ r ∷ [] } ∷ groups))
      → (same_bar_key g.first r ≡ false → P (g ∷ add_record r groups))
      → P (add_record r (g ∷ groups))
  unfolding add_record
  add_record-cases P r g groups same other =
      let kept : BarGroup D = record { first = g.first; others = g.others ++ r ∷ [] } in
      let added : Bool → List (BarGroup D) =
        λ b. if b then kept ∷ groups else g ∷ add_record r groups in
      elim (Bool-cases (same_bar_key g.first r)) [
        | inl q ↦ subst P (sym (ap added q)) (same q)
        | inr q ↦ subst P (sym (ap added q)) (other q)
      ]

  IsGrouped-add_record :
      (r : BoardIndexDailyBarRecord D) (groups : List (BarGroup D))
      → IsGrouped r (add_record r groups)
  IsGrouped-add_record r [] = IsGrouped-one r
  IsGrouped-add_record r (g ∷ groups) =
      add_record-cases (IsGrouped r) r g groups (λ q. inl (q, inl (IsIn-last r g.others)))
        (λ q. inr (IsGrouped-add_record r groups))

  IsGrouped-add_other :
      (s r : BoardIndexDailyBarRecord D) (groups : List (BarGroup D))
      → IsGrouped s groups
      → IsGrouped s (add_record r groups)
  IsGrouped-add_other s r [] h = absurd h
  IsGrouped-add_other s r (g ∷ groups) (inl (same, inl h)) =
      add_record-cases (IsGrouped s) r g groups (λ q. inl (same, inl (IsIn-append s r g.others h)))
        (λ q. inl (same, inl h))
  IsGrouped-add_other s r (g ∷ groups) (inl (same, inr e)) =
      add_record-cases (IsGrouped s) r g groups (λ q. inl (same, inr e)) (λ q. inl (same, inr e))
  IsGrouped-add_other s r (g ∷ groups) (inr h) =
      add_record-cases (IsGrouped s) r g groups (λ q. inr h)
        (λ q. inr (IsGrouped-add_other s r groups h))

  IsGrouped-group_records :
      (s : BoardIndexDailyBarRecord D) (groups : List (BarGroup D))
      (records : List (BoardIndexDailyBarRecord D))
      → IsGrouped s groups
      → IsGrouped s (group_records groups records)
  unfolding group_records
  IsGrouped-group_records s groups [] h = h
  IsGrouped-group_records s groups (r ∷ records) h =
      IsGrouped-group_records s (add_record r groups) records (IsGrouped-add_other s r groups h)

  -- Every record stands in a group.
  pub All-IsGrouped :
      (groups : List (BarGroup D)) (records : List (BoardIndexDailyBarRecord D))
      → All (λ r. IsGrouped r (group_records groups records)) records
  unfolding group_records
  All-IsGrouped groups [] = tt
  All-IsGrouped groups (r ∷ records) = (
    IsGrouped-group_records r (add_record r groups) records (IsGrouped-add_record r groups),
    All-IsGrouped (add_record r groups) records,
  )

  IsNewKey-add_record :
      (s r : BoardIndexDailyBarRecord D) (groups : List (BarGroup D))
      → same_bar_key s r ≡ false
      → IsNewKey s (firsts_of groups)
      → IsNewKey s (firsts_of (add_record r groups))
  IsNewKey-add_record s r [] q h = IsNewKey-one s r q
  IsNewKey-add_record s r (g ∷ groups) q (new, h) =
      add_record-cases (λ gs. IsNewKey s (firsts_of gs)) r g groups (λ k. (new, h))
        (λ k. (new, IsNewKey-add_record s r groups q h))

  AreNewKeys-add_record :
      (r : BoardIndexDailyBarRecord D) (groups : List (BarGroup D))
      → AreNewKeys (firsts_of groups)
      → AreNewKeys (firsts_of (add_record r groups))
  AreNewKeys-add_record r [] h = AreNewKeys-one r
  AreNewKeys-add_record r (g ∷ groups) (new, h) =
      add_record-cases (λ gs. AreNewKeys (firsts_of gs)) r g groups (λ k. (new, h))
        (λ k. (IsNewKey-add_record g.first r groups k new, AreNewKeys-add_record r groups h))

  pub AreNewKeys-group_records :
      (groups : List (BarGroup D)) (records : List (BoardIndexDailyBarRecord D))
      → AreNewKeys (firsts_of groups)
      → AreNewKeys (firsts_of (group_records groups records))
  unfolding group_records
  AreNewKeys-group_records groups [] h = h
  AreNewKeys-group_records groups (r ∷ records) h =
      AreNewKeys-group_records (add_record r groups) records (AreNewKeys-add_record r groups h)
