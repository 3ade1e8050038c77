-- ===== src/BoardIndex/Best.antt =====
-- What `max` and `min` with a key give (src/market_data_center/board_index_bias.py), and the sizes of the
-- slices.
use data_center.Prelude.{
  ℕ, zero, suc, ◌-◌, ◌≤◌, ◌≡◌, ◌⊎◌, inl, inr, refl, sym, ap, subst, Bool, true, false, Option, none,
  some, List, [], ◌∷◌, length, All, arith, Bool-cases, if◌then◌else◌,
}
use data_center.BoardIndex.Bias.{
  Sample, Scored, best_from, beats, drop, last_of, add_sample, valid_samples,
}

abbrev pub IsIn : {A : Type 0} → A → List A → Type 0
IsIn a [] = ⊥
IsIn a (x ∷ xs) = (a ≡ x) ⊎ IsIn a xs

module _ {A : Type 0} (beats : A → A → Bool) where
  IsIn-swap : (a x y : A) (xs : List A) → IsIn a (x ∷ xs) → IsIn a (x ∷ y ∷ xs)
  IsIn-swap a x y xs (inl e) = inl e
  IsIn-swap a x y xs (inr h) = inr (inr h)

  pub best_from-IsIn : (x : A) (xs : List A) → IsIn (best_from beats x xs) (x ∷ xs)
  best_from-IsIn x [] = inl refl
  best_from-IsIn x (y ∷ xs) =
      let P : A → Type 0 = λ b. IsIn (best_from beats b xs) (x ∷ y ∷ xs) in
      elim (Bool-cases (beats y x)) [
        | inl q ↦ subst P (sym (ap (λ c. if c then y else x) q)) (inr (best_from-IsIn y xs))
        | inr q ↦
            subst P (sym (ap (λ c. if c then y else x) q))
              (IsIn-swap _ x y xs (best_from-IsIn x xs))
      ]

  module _ (irrefl : (x : A) → beats x x ≡ false)
      (asym : (x y : A) → beats x y ≡ true → beats y x ≡ false)
      (trans : (x y z : A) → beats x y ≡ false → beats y z ≡ false → beats x z ≡ false) where
    -- Nothing in the list beats the best.
    pub best_from_unbeaten :
        (x : A) (xs : List A) → All (λ y. beats y (best_from beats x xs) ≡ false) (x ∷ xs)
    best_from_unbeaten x [] = (irrefl x, tt)
    best_from_unbeaten x (y ∷ xs) =
        let P : A → Type 0 = λ b. All (λ z. beats z (best_from beats b xs) ≡ false) (x ∷ y ∷ xs) in
        elim (Bool-cases (beats y x)) [
          | inl q ↦
              subst P (sym (ap (λ c. if c then y else x) q))
                (let (h, hs) = best_from_unbeaten y xs in (trans x y _ (asym y x q) h, (h, hs)))
          | inr q ↦
              subst P (sym (ap (λ c. if c then y else x) q))
                (let (h, hs) = best_from_unbeaten x xs in (h, (trans y x _ q h, hs)))
        ]

module _ {D : Type 0} (less : D → D → Bool) where
  -- The laws of a strict order of which what is not less either way is equal.
  abbrev pub IsAsym : Type 0
  IsAsym = (a b : D) → less a b ≡ true → less b a ≡ false

  abbrev pub IsLeTrans : Type 0
  IsLeTrans = (a b c : D) → less b a ≡ false → less c b ≡ false → less c a ≡ false

  pub asym_irrefl : IsAsym → (a : D) → less a a ≡ false
  asym_irrefl asym a = elim (Bool-cases (less a a)) [ inl q ↦ asym a a q | inr q ↦ q ]

  pub beats_irrefl : IsAsym → (s : Sample D) → beats less s s ≡ false
  beats_irrefl asym s = rw (asym_irrefl asym s.bias) (ground arith)

  pub beats_asym : IsAsym → (s t : Sample D) → beats less s t ≡ true → beats less t s ≡ false
  beats_asym asym s t h = ground (arith, h, asym t.bias s.bias, asym s.bias t.bias)

  pub beats_trans :
      IsLeTrans
      → (s t u : Sample D) → beats less s t ≡ false
      → beats less t u ≡ false
      → beats less s u ≡ false
  beats_trans le s t u h k =
      ground
        (arith, h, k, le s.bias t.bias u.bias, le t.bias u.bias s.bias, le u.bias s.bias t.bias)

length-drop : {A : Type 0} → (n : ℕ) (xs : List A) → length (drop n xs) ≡ length xs - n
length-drop zero xs = omega arith
length-drop (suc n) [] = omega arith
length-drop (suc n) (x ∷ xs) = omega (arith, length-drop n xs)

pub length-last_of : {A : Type 0} → (n : ℕ) (xs : List A) → length (last_of n xs) ≤ n
length-last_of n xs = omega (arith, length-drop (length xs - n) xs)

length-add_sample :
    {D : Type 0}
    → (day : ℕ) (bias : Option D) (samples : List (Sample D))
    → length (add_sample day bias samples) ≤ suc (length samples)
length-add_sample day none samples = omega arith
length-add_sample day (some bias) samples = omega arith

pub length-valid_samples :
    {D : Type 0} → (scored : List (Scored D)) → length (valid_samples scored) ≤ length scored
length-valid_samples [] = omega arith
length-valid_samples (s ∷ scored) = omega (
  arith,
  length-valid_samples scored,
  length-add_sample s.bar.trade_date s.bias (valid_samples scored),
)
