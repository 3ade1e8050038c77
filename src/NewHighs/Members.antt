-- ===== src/NewHighs/Members.antt =====
-- Who is a member of the closing highs, and what the counts of the calculation add up to.
use Prim.Native.String.{String}
use data_center.Prelude.{
  ℕ, ◌+◌, ◌≤◌, ◌≡◌, refl, ap, ◌∙◌, Bool, true, false, ◌&&◌, ◌||◌, Option, none, some, List, [], ◌∷◌,
  length, any, All, arith, Bool-cases, inl, inr,
}
use data_center.Prelude.Int.{ℤ, pos, ltb_ℤ}
use data_center.Prelude.Codes.{codes_eq}
use data_center.Prelude.Sort.{sort_by, All-sort_by, any-sort_by, length-sort_by}
use data_center.NewHighs.{
  ClosePriceNewHighCandidate, ClosePriceNewHighInput, ClosePriceNewHighMember, is_eligible,
  is_positive, is_named, by_symbol, by_breakout, member_of, add_member, collect,
  calculate_close_price_new_highs_120d,
}

-- The close strictly exceeds a positive previous high.
abbrev pub IsBreakout : ClosePriceNewHighMember → Type 0
IsBreakout m =
    (ltb_ℤ (pos 0) m.previous_119d_high ≡ true) × (ltb_ℤ m.previous_119d_high m.close ≡ true)

-- The test of a candidate that the loop makes.
abbrev pub exceeds : Option ℤ → Option ℤ → Bool
exceeds (some close) (some high) = ltb_ℤ high close
exceeds _ _ = false

abbrev pub is_new_high : ClosePriceNewHighCandidate → Bool
is_new_high c = is_eligible c && exceeds c.close c.previous_119d_high

abbrev pub has_member : List ℕ → List ClosePriceNewHighMember → Bool
has_member symbol members = any (λ m. codes_eq symbol m.symbol) members

eligible-positive :
    (c : ClosePriceNewHighCandidate)
    → is_eligible c ≡ true
    → is_positive c.previous_119d_high ≡ true
unfolding is_eligible
eligible-positive c h = ground (arith, h)

eligible-named :
    (c : ClosePriceNewHighCandidate) → is_eligible c ≡ true → is_named c.display_name ≡ true
unfolding is_eligible
eligible-named c h = ground (arith, h)

module _ (breakout : ℤ → ℤ → ℕ) where
  add_member-IsBreakout :
      (c : ClosePriceNewHighCandidate) (close high : Option ℤ) (name : Option String)
      (members : List ClosePriceNewHighMember)
      → is_positive high ≡ true
      → All IsBreakout members
      → All IsBreakout (add_member breakout (member_of breakout c close high name) members)
  add_member-IsBreakout c (some close) (some high) (some name) members h all =
      elim (Bool-cases (ltb_ℤ high close)) [ inl q ↦ rw q ((h, q), all) | inr q ↦ rw q all ]
  add_member-IsBreakout c none high name members h all = all
  add_member-IsBreakout c (some close) none name members h all = all
  add_member-IsBreakout c (some close) (some high) none members h all = all

  collect-IsBreakout :
      (candidates : List ClosePriceNewHighCandidate)
      → All IsBreakout (collect breakout candidates).1
  unfolding collect
  collect-IsBreakout [] = tt
  collect-IsBreakout (c ∷ candidates) = elim (Bool-cases (is_eligible c)) [
    | inl q ↦ rw q (
        add_member-IsBreakout c c.close c.previous_119d_high c.display_name _
          (eligible-positive c q) (collect-IsBreakout candidates))
    | inr q ↦ rw q (collect-IsBreakout candidates)
  ]

  collect-length :
      (candidates : List ClosePriceNewHighCandidate)
      → (length (collect breakout candidates).1 ≤ length (collect breakout candidates).0)
        × (length (collect breakout candidates).0 ≤ length candidates)
  unfolding collect
  collect-length [] = (omega arith, omega arith)
  collect-length (c ∷ candidates) =
      (ground (arith, collect-length candidates), ground (arith, collect-length candidates))

  add_member-has :
      (symbol : List ℕ) (c : ClosePriceNewHighCandidate) (close high : Option ℤ)
      (name : Option String) (members : List ClosePriceNewHighMember)
      → is_named name ≡ true
      → has_member symbol (add_member breakout (member_of breakout c close high name) members)
        ≡ ((exceeds close high && codes_eq symbol c.symbol) || has_member symbol members)
  add_member-has symbol c (some close) (some high) (some name) members h =
      elim (Bool-cases (ltb_ℤ high close)) [ inl q ↦ rw q refl | inr q ↦ rw q refl ]
  add_member-has symbol c close high none members h = cc
  add_member-has symbol c none high (some name) members h = refl
  add_member-has symbol c (some close) none (some name) members h = refl

  collect-has :
      (symbol : List ℕ) (candidates : List ClosePriceNewHighCandidate)
      → has_member symbol (collect breakout candidates).1
        ≡ any (λ c. is_new_high c && codes_eq symbol c.symbol) candidates
  unfolding collect
  collect-has symbol [] = refl
  collect-has symbol (c ∷ candidates) = elim (Bool-cases (is_eligible c)) [
    | inl q ↦ rw q (
        add_member-has symbol c c.close c.previous_119d_high c.display_name
          (collect breakout candidates).1 (eligible-named c q)
        ∙ ap (λ b. (exceeds c.close c.previous_119d_high && codes_eq symbol c.symbol) || b)
            (collect-has symbol candidates))
    | inr q ↦ rw q (collect-has symbol candidates)
  ]

  module _ (input_digest : ClosePriceNewHighInput → List ClosePriceNewHighCandidate → String)
      (content_digest : List ClosePriceNewHighMember → String) where
    -- Every member strictly exceeds a positive previous high, and a symbol is among the members
    -- exactly if a candidate with this symbol is eligible and exceeds the high before it.
    pub calculate-IsBreakout :
        (source : ClosePriceNewHighInput)
        → let members =
            (calculate_close_price_new_highs_120d breakout input_digest content_digest
              source).members in
          All IsBreakout members
          × ((symbol : List ℕ)
              → has_member symbol members
                ≡ any (λ c. is_new_high c && codes_eq symbol c.symbol) source.candidates)
    unfolding calculate_close_price_new_highs_120d
    calculate-IsBreakout source =
        let ordered = sort_by by_symbol source.candidates in
        (
          All-sort_by by_breakout IsBreakout (collect breakout ordered).1
              (collect-IsBreakout ordered),
          λ symbol.
              any-sort_by by_breakout (λ m. codes_eq symbol m.symbol) (collect breakout ordered).1
              ∙ collect-has symbol ordered
              ∙ any-sort_by by_symbol (λ c. is_new_high c && codes_eq symbol c.symbol)
                  source.candidates,
        )

    -- The counts account for every candidate: each is eligible or omitted, and no more are members
    -- than are eligible.
    pub calculate-counts :
        (source : ClosePriceNewHighInput)
        → let result =
            calculate_close_price_new_highs_120d breakout input_digest content_digest source in
          (result.candidate_count ≡ length source.candidates)
          × (result.eligible_history_count + result.omitted_count ≡ result.candidate_count)
          × (length result.members ≤ result.eligible_history_count)
    unfolding calculate_close_price_new_highs_120d
    calculate-counts source =
        let ordered = sort_by by_symbol source.candidates in
        let (members, eligible) = collect-length ordered in
        (
          length-sort_by by_symbol source.candidates,
          omega (arith, eligible),
          omega (arith, members, length-sort_by by_breakout (collect breakout ordered).1),
        )
