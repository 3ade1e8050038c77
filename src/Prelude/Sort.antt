-- ===== src/Prelude/Sort.antt =====
-- Python's `sorted`: stable, by a test for "at most". Its elements are those of the list.
use mathlib.Core.List.Perm
use mathlib.Core.List.{Perm}
use data_center.Prelude.{
  ◌≡◌, refl, ap, ◌∙◌, suc, Bool, true, false, ◌||◌, List, [], ◌∷◌, map, arith, if◌then◌else◌, any,
  All, length, Bool-cases, inl, inr,
}

module _ {ℓ} {A : Type ℓ} (le : A → A → Bool) where
  unfoldable pub insert_sorted : A → List A → List A
  insert_sorted x [] = x ∷ []
  insert_sorted x (y ∷ ys) = if le x y then x ∷ y ∷ ys else y ∷ insert_sorted x ys

  unfoldable pub sort_by : List A → List A
  sort_by [] = []
  sort_by (x ∷ xs) = insert_sorted x (sort_by xs)

  -- Each element is at most every one behind it.
  abbrev pub IsSorted : List A → Type ℓ
  IsSorted [] = Unit
  IsSorted (x ∷ xs) = All (λ y. le x y ≡ true) xs × IsSorted xs

module _ {A : Type 0} (le : A → A → Bool) where
  insert_sorted-perm : (x : A) (ys : List A) → Perm (insert_sorted le x ys) (x ∷ ys)
  unfolding insert_sorted
  insert_sorted-perm x [] = Perm.rfl
  insert_sorted-perm x (y ∷ ys) = elim (Bool-cases (le x y)) [
    | inl e ↦ rw e Perm.rfl
    | inr e ↦ rw e (Perm.trans (Perm.cons y (insert_sorted-perm x ys)) (Perm.swap x y ys))
  ]

  pub sort_by-perm : (xs : List A) → Perm (sort_by le xs) xs
  unfolding sort_by
  sort_by-perm [] = Perm.rfl
  sort_by-perm (x ∷ xs) =
      Perm.trans (insert_sorted-perm x (sort_by le xs)) (Perm.cons x (sort_by-perm xs))

  All-insert_sorted :
      (P : A → Type 0) (x : A) (ys : List A) → P x → All P ys → All P (insert_sorted le x ys)
  unfolding insert_sorted
  All-insert_sorted P x [] p h = (p, tt)
  All-insert_sorted P x (y ∷ ys) p h = elim (Bool-cases (le x y)) [
    | inl e ↦ rw e (p, h)
    | inr e ↦ rw e (h.0, All-insert_sorted P x ys p h.1)
  ]

  pub All-sort_by : (P : A → Type 0) (xs : List A) → All P xs → All P (sort_by le xs)
  unfolding sort_by
  All-sort_by P [] h = tt
  All-sort_by P (x ∷ xs) h = All-insert_sorted P x (sort_by le xs) h.0 (All-sort_by P xs h.1)

  All-insert_sorted_back :
      (P : A → Type 0) (x : A) (ys : List A) → All P (insert_sorted le x ys) → P x × All P ys
  unfolding insert_sorted
  All-insert_sorted_back P x [] = λ h. h
  All-insert_sorted_back P x (y ∷ ys) = elim (Bool-cases (le x y)) [
    | inl e ↦ rw e (λ h. h)
    | inr e ↦ rw e (λ h. let (p, q) = All-insert_sorted_back P x ys h.1 in (p, (h.0, q)))
  ]

  pub All-sort_by_back : (P : A → Type 0) (xs : List A) → All P (sort_by le xs) → All P xs
  unfolding sort_by
  All-sort_by_back P [] h = tt
  All-sort_by_back P (x ∷ xs) h =
      let (p, q) = All-insert_sorted_back P x (sort_by le xs) h in (p, All-sort_by_back P xs q)

  length-insert_sorted : (x : A) (xs : List A) → length (insert_sorted le x xs) ≡ suc (length xs)
  unfolding insert_sorted
  length-insert_sorted x [] = refl
  length-insert_sorted x (y ∷ ys) = ground (arith, length-insert_sorted x ys)

  pub length-sort_by : (xs : List A) → length (sort_by le xs) ≡ length xs
  unfolding sort_by
  length-sort_by [] = refl
  length-sort_by (x ∷ xs) =
      length-insert_sorted x (sort_by le xs) ∙ ap (λ n. suc n) (length-sort_by xs)

  any-insert_sorted :
      (p : A → Bool) (x : A) (ys : List A) → any p (insert_sorted le x ys) ≡ (p x || any p ys)
  unfolding insert_sorted
  any-insert_sorted p x [] = refl
  any-insert_sorted p x (y ∷ ys) = ground (arith, any-insert_sorted p x ys)

  pub any-sort_by : (p : A → Bool) (xs : List A) → any p (sort_by le xs) ≡ any p xs
  unfolding sort_by
  any-sort_by p [] = refl
  any-sort_by p (x ∷ xs) = ground (arith, any-insert_sorted p x (sort_by le xs), any-sort_by p xs)

  pub any-map-insert_sorted :
      {B : Type 0} (f : A → B) (p : B → Bool) (x : A) (ys : List A)
      → any p (map f (insert_sorted le x ys)) ≡ (p (f x) || any p (map f ys))
  unfolding insert_sorted
  any-map-insert_sorted f p x [] = refl
  any-map-insert_sorted f p x (y ∷ ys) = ground (arith, any-map-insert_sorted f p x ys)

  pub any-map-sort_by :
      {B : Type 0} (f : A → B) (p : B → Bool) (xs : List A)
      → any p (map f (sort_by le xs)) ≡ any p (map f xs)
  unfolding sort_by
  any-map-sort_by f p [] = refl
  any-map-sort_by f p (x ∷ xs) =
      ground (arith, any-map-insert_sorted f p x (sort_by le xs), any-map-sort_by f p xs)

  insert_sorted_first :
      (x : A) (ys : List A) → All (λ y. le x y ≡ true) ys → insert_sorted le x ys ≡ x ∷ ys
  unfolding insert_sorted
  insert_sorted_first x [] h = refl
  insert_sorted_first x (y ∷ ys) h = rw (h.0)

  -- A sorted list stays as it is.
  pub sort_by_sorted : (xs : List A) → IsSorted le xs → sort_by le xs ≡ xs
  unfolding sort_by
  sort_by_sorted [] h = refl
  sort_by_sorted (x ∷ xs) h = rw (sort_by_sorted xs h.1) (insert_sorted_first x xs h.0)

  module _ (total : (x y : A) → le x y ≡ false → le y x ≡ true)
      (trans : (x y z : A) → le x y ≡ true → le y z ≡ true → le x z ≡ true) where
    All-le :
        (x y : A) (ys : List A)
        → le x y ≡ true
        → All (λ z. le y z ≡ true) ys
        → All (λ z. le x z ≡ true) ys
    All-le x y [] h hs = tt
    All-le x y (z ∷ ys) h hs = (trans x y z h hs.0, All-le x y ys h hs.1)

    insert_sorted-IsSorted :
        (x : A) (ys : List A) → IsSorted le ys → IsSorted le (insert_sorted le x ys)
    unfolding insert_sorted
    insert_sorted-IsSorted x [] h = (tt, tt)
    insert_sorted-IsSorted x (y ∷ ys) h = elim (Bool-cases (le x y)) [
      | inl e ↦ rw e ((e, All-le x y ys e h.0), h)
      | inr e ↦ rw e (
        All-insert_sorted (λ z. le y z ≡ true) x ys (total x y e) h.0,
        insert_sorted-IsSorted x ys h.1,
      )
    ]

    pub sort_by-IsSorted : (xs : List A) → IsSorted le (sort_by le xs)
    unfolding sort_by
    sort_by-IsSorted [] = tt
    sort_by-IsSorted (x ∷ xs) = insert_sorted-IsSorted x (sort_by le xs) (sort_by-IsSorted xs)
