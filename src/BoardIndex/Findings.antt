-- ===== src/BoardIndex/Findings.antt =====
-- When the validation of a snapshot of constituents has no findings.
use data_center.Prelude.{
  ℕ, ◌≡◌, refl, ap, ◌∙◌, Bool, true, false, not, ◌&&◌, ◌||◌, List, [], ◌∷◌, ◌++◌, any, all, keep,
  has_duplicates, ltb, ◌==◌, arith, Bool-cases, inl, inr,
}
use data_center.Prelude.Codes.{codes_eq, codes_eq→eq, codes_eq_refl}
use data_center.Prelude.Sort.{sort_by, insert_sorted}
use data_center.BoardIndex.Records.{BoardIndexConstituentSnapshotRecord}
use data_center.BoardIndex.Validation.{BoardIndexFinding}
use data_center.BoardIndex.Constituents.{
  distinct_symbols, count_of, by_code, is_empty, repeated_symbols, unknown_symbols, finding_if,
  validate_board_index_constituent_snapshot,
}

module _ {A : Type 0} where
  is_empty-insert_sorted :
      (le : A → A → Bool) (x : A) (xs : List A) → is_empty (insert_sorted le x xs) ≡ false
  unfolding insert_sorted
  is_empty-insert_sorted le x [] = refl
  is_empty-insert_sorted le x (y ∷ xs) = ground arith

  is_empty-sort_by : (le : A → A → Bool) (xs : List A) → is_empty (sort_by le xs) ≡ is_empty xs
  unfolding sort_by
  is_empty-sort_by le [] = refl
  is_empty-sort_by le (x ∷ xs) = is_empty-insert_sorted le x (sort_by le xs)

  is_empty-keep : (p : A → Bool) (xs : List A) → is_empty (keep p xs) ≡ not (any p xs)
  is_empty-keep p [] = refl
  is_empty-keep p (x ∷ xs) = ground (arith, is_empty-keep p xs)

  not-any-not : (p : A → Bool) (xs : List A) → not (any (λ x. not (p x)) xs) ≡ all p xs
  not-any-not p [] = refl
  not-any-not p (x ∷ xs) = ground (arith, not-any-not p xs)

-- A symbol that is left out equals the one that is kept.
any-keep_others :
    (p : List ℕ → Bool) (x : List ℕ) (ys : List (List ℕ))
    → (p x || any p (keep (λ y. not (codes_eq x y)) ys)) ≡ (p x || any p ys)
any-keep_others p x [] = refl
any-keep_others p x (y ∷ ys) = elim (Bool-cases (codes_eq x y)) [
  | inl q ↦ ground (arith, q, any-keep_others p x ys, ap p (codes_eq→eq x y q))
  | inr q ↦ ground (arith, q, any-keep_others p x ys)
]

any-distinct_symbols :
    (p : List ℕ → Bool) (xs : List (List ℕ)) → any p (distinct_symbols xs) ≡ any p xs
any-distinct_symbols p [] = refl
any-distinct_symbols p (x ∷ xs) =
    any-keep_others p x (distinct_symbols xs) ∙ ap (λ b. p x || b) (any-distinct_symbols p xs)

ltb-count_of : (x : List ℕ) (xs : List (List ℕ)) → ltb 0 (count_of x xs) ≡ any (codes_eq x) xs
ltb-count_of x [] = refl
ltb-count_of x (y ∷ xs) = ground (arith, ltb-count_of x xs)

-- Where a symbol stands in the list, one that equals it is found.
count_of-other :
    (x : List ℕ) (members xs : List (List ℕ))
    → any (codes_eq x) xs ≡ false
    → any (λ s. ltb 1 (count_of s (x ∷ members))) xs ≡ any (λ s. ltb 1 (count_of s members)) xs
count_of-other x members [] h = refl
count_of-other x members (y ∷ xs) h = elim (Bool-cases (codes_eq y x)) [
  | inl q ↦ absurd (ground (arith, h, codes_eq_refl x, ap (codes_eq x) (codes_eq→eq y x q)))
  | inr q ↦ ground (arith, h, q, count_of-other x members xs (ground (arith, h)))
]

-- A symbol is counted more than once exactly if the list has duplicates.
any-count_of :
    (xs : List (List ℕ)) → any (λ s. ltb 1 (count_of s xs)) xs ≡ has_duplicates codes_eq xs
any-count_of [] = refl
any-count_of (x ∷ xs) = elim (Bool-cases (any (codes_eq x) xs)) [
  | inl q ↦ ground (arith, q, codes_eq_refl x, ltb-count_of x xs)
  | inr q ↦
      ground
        (arith, q, codes_eq_refl x, ltb-count_of x xs, count_of-other x xs xs q, any-count_of xs)
]

is_empty-repeated_symbols :
    (members : List (List ℕ))
    → is_empty (repeated_symbols members) ≡ not (has_duplicates codes_eq members)
is_empty-repeated_symbols members =
    is_empty-sort_by by_code _
    ∙ is_empty-keep _ (distinct_symbols members)
    ∙ ap not (any-distinct_symbols _ members ∙ any-count_of members)

is_empty-unknown_symbols :
    (known members : List (List ℕ))
    → is_empty (unknown_symbols known members) ≡ all (λ s. any (codes_eq s) known) members
is_empty-unknown_symbols known members =
    is_empty-sort_by by_code _
    ∙ is_empty-keep _ (distinct_symbols members)
    ∙ ap not (any-distinct_symbols _ members)
    ∙ not-any-not (λ s. any (codes_eq s) known) members

is_empty-four :
    {A : Type 0}
    → (a b c d : List A)
    → is_empty (a ++ b ++ c ++ d) ≡ (is_empty a && (is_empty b && (is_empty c && is_empty d)))
is_empty-four [] [] [] d = refl
is_empty-four [] [] (x ∷ c) d = refl
is_empty-four [] (x ∷ b) c d = refl
is_empty-four (x ∷ a) b c d = refl

is_empty-finding_if : (b : Bool) (f : BoardIndexFinding) → is_empty (finding_if (not b) f) ≡ b
is_empty-finding_if true f = refl
is_empty-finding_if false f = refl

-- A snapshot has no finding exactly if its board and its day are known, no symbol is a member twice, and
-- every member is a known symbol.
pub validate_board_index_constituent_snapshot-is_empty :
    (boards symbols : List (List ℕ)) (dates : List ℕ) (r : BoardIndexConstituentSnapshotRecord)
    → is_empty (validate_board_index_constituent_snapshot boards symbols dates r) ≡ (
        any (codes_eq r.board_id) boards
        && (any (λ day. r.trade_date == day) dates
            && (not (has_duplicates codes_eq r.members)
                && all (λ s. any (codes_eq s) symbols) r.members)))
unfolding validate_board_index_constituent_snapshot
validate_board_index_constituent_snapshot-is_empty boards symbols dates r =
    is_empty-four (finding_if (not (any (codes_eq r.board_id) boards)) _)
      (finding_if (not (any (λ day. r.trade_date == day) dates)) _)
      (finding_if (not (is_empty (repeated_symbols r.members))) _)
      (finding_if (not (is_empty (unknown_symbols symbols r.members))) _)
    ∙ rw
        (
          is_empty-finding_if (any (codes_eq r.board_id) boards) _,
          is_empty-finding_if (any (λ day. r.trade_date == day) dates) _,
          is_empty-finding_if (is_empty (repeated_symbols r.members)) _,
          is_empty-finding_if (is_empty (unknown_symbols symbols r.members)) _,
          is_empty-repeated_symbols r.members,
          is_empty-unknown_symbols symbols r.members,
        )
        refl
