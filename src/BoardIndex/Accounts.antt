-- ===== src/BoardIndex/Accounts.antt =====
-- What the validation of daily bars does with each record.
use Prim.Native.String.{String}
use data_center.Prelude.{
  ℕ, suc, ◌+◌, ◌≤◌, ◌≡◌, ◌⊎◌, inl, inr, refl, true, false, not, ◌&&◌, Option, none, some, List, [],
  ◌∷◌, length, any, All, ◌==◌, arith,
}
use data_center.Prelude.Codes.{codes_eq}
use data_center.BoardIndex.Records.{DecimalOps, BoardIndexDailyBarRecord}
use data_center.BoardIndex.Best.{IsIn}
use data_center.BoardIndex.Validation.{
  BoardIndexFinding, BoardIndexDailyBarValidationResult, BarGroup, same_bar_key, group_records,
  same_bar, group_error, add_group, judge_groups, validate_board_index_daily_bars,
}
use data_center.BoardIndex.Groups.{
  IsGrouped, IsNewKey, AreNewKeys, firsts_of, total_size, total_size-group_records, All-IsGrouped,
  AreNewKeys-group_records,
}

module _ {D : Type 0} (ops : DecimalOps D) (boards : List (List ℕ)) (dates : List ℕ) where
  -- An accepted bar of the record's key is the record, or equals it.
  abbrev pub IsAccepted : BoardIndexDailyBarRecord D → List (BoardIndexDailyBarRecord D) → Type 0
  IsAccepted r [] = ⊥
  IsAccepted r (a ∷ accepted) =
      ((same_bar_key a r ≡ true) × ((same_bar ops r a ≡ true) ⊎ (r ≡ a))) ⊎ IsAccepted r accepted

  -- A finding has the record's key.
  abbrev pub IsRejected : BoardIndexDailyBarRecord D → List BoardIndexFinding → Type 0
  IsRejected r [] = ⊥
  IsRejected r (f ∷ findings) =
      ((codes_eq f.board_id r.board_id && f.trade_date == r.trade_date) ≡ true)
      ⊎ IsRejected r findings

  abbrev pub IsAnswered : BoardIndexDailyBarValidationResult D → BoardIndexDailyBarRecord D → Type 0
  IsAnswered v r = IsAccepted r v.accepted ⊎ IsRejected r v.findings

  abbrev pub IsKnown : BoardIndexDailyBarRecord D → Type 0
  IsKnown r =
      (any (codes_eq r.board_id) boards ≡ true) × (any (λ day. r.trade_date == day) dates ≡ true)

  abbrev pub IsValidation :
      List (BoardIndexDailyBarRecord D) → BoardIndexDailyBarValidationResult D → Type 0
  IsValidation records v =
      All (IsAnswered v) records
      × All IsKnown v.accepted
      × AreNewKeys v.accepted
      × (v.rejected_rows + length v.accepted ≤ length records)

  group_error-none :
      (g : BarGroup D)
      → group_error ops boards dates g ≡ none
      → (any (λ c. not (same_bar ops c g.first)) g.others ≡ false) × IsKnown g.first
  group_error-none g h = (ground (arith, h), (ground (arith, h), ground (arith, h)))

  same_bar-IsIn :
      (r first : BoardIndexDailyBarRecord D) (others : List (BoardIndexDailyBarRecord D))
      → any (λ c. not (same_bar ops c first)) others ≡ false
      → IsIn r others
      → same_bar ops r first ≡ true
  same_bar-IsIn r first (c ∷ others) h (inl e) = rw e (ground (arith, h))
  same_bar-IsIn r first (c ∷ others) h (inr k) = same_bar-IsIn r first others (ground (arith, h)) k
  same_bar-IsIn r first [] h k = absurd k

  module _ (g : BarGroup D) (rest : BoardIndexDailyBarValidationResult D) where
    IsAnswered-first :
        (e : Option (String × String)) (r : BoardIndexDailyBarRecord D)
        → group_error ops boards dates g ≡ e
        → same_bar_key g.first r ≡ true
        → IsIn r g.others ⊎ (r ≡ g.first)
        → IsAnswered (add_group ops boards dates g e rest) r
    IsAnswered-first none r h key (inl k) =
        inl (inl (key, inl (same_bar-IsIn r g.first g.others (group_error-none g h).0 k)))
    IsAnswered-first none r h key (inr e) = inl (inl (key, inr e))
    IsAnswered-first (some (rule, message)) r h key k = inr (inl key)

    IsAnswered-rest :
        (e : Option (String × String)) (r : BoardIndexDailyBarRecord D)
        → IsAnswered rest r
        → IsAnswered (add_group ops boards dates g e rest) r
    IsAnswered-rest none r (inl h) = inl (inr h)
    IsAnswered-rest none r (inr h) = inr h
    IsAnswered-rest (some (rule, message)) r (inl h) = inl h
    IsAnswered-rest (some (rule, message)) r (inr h) = inr (inr h)

    AreKnown-add_group :
        (e : Option (String × String))
        → group_error ops boards dates g ≡ e
        → All IsKnown rest.accepted
        → All IsKnown (add_group ops boards dates g e rest).accepted
    AreKnown-add_group none h k = ((group_error-none g h).1, k)
    AreKnown-add_group (some (rule, message)) h k = k

    IsNewKey-add_group :
        (e : Option (String × String)) (r : BoardIndexDailyBarRecord D)
        → same_bar_key r g.first ≡ false
        → IsNewKey r rest.accepted
        → IsNewKey r (add_group ops boards dates g e rest).accepted
    IsNewKey-add_group none r q h = (q, h)
    IsNewKey-add_group (some (rule, message)) r q h = h

    AreNewKeys-add_group :
        (e : Option (String × String))
        → IsNewKey g.first rest.accepted
        → AreNewKeys rest.accepted
        → AreNewKeys (add_group ops boards dates g e rest).accepted
    AreNewKeys-add_group none q h = (q, h)
    AreNewKeys-add_group (some (rule, message)) q h = h

    rows-add_group :
        (e : Option (String × String)) (n : ℕ)
        → rest.rejected_rows + length rest.accepted ≤ n
        → (add_group ops boards dates g e rest).rejected_rows
            + length (add_group ops boards dates g e rest).accepted
          ≤ suc (length g.others) + n
    rows-add_group none n h = omega (arith, h)
    rows-add_group (some (rule, message)) n h = omega (arith, h)

  -- What a result says of the groups that it comes from.
  judge_groups-IsAnswered :
      (r : BoardIndexDailyBarRecord D) (groups : List (BarGroup D))
      → IsGrouped r groups
      → IsAnswered (judge_groups ops boards dates groups) r
  unfolding judge_groups
  judge_groups-IsAnswered r (g ∷ groups) (inl (key, h)) =
      IsAnswered-first g _ (group_error ops boards dates g) r refl key h
  judge_groups-IsAnswered r (g ∷ groups) (inr h) =
      IsAnswered-rest g _ (group_error ops boards dates g) r (judge_groups-IsAnswered r groups h)
  judge_groups-IsAnswered r [] h = absurd h

  All-IsAnswered :
      (groups : List (BarGroup D)) (records : List (BoardIndexDailyBarRecord D))
      → All (λ r. IsGrouped r groups) records
      → All (IsAnswered (judge_groups ops boards dates groups)) records
  All-IsAnswered groups [] h = tt
  All-IsAnswered groups (r ∷ records) (h, hs) =
      (judge_groups-IsAnswered r groups h, All-IsAnswered groups records hs)

  judge_groups-AreKnown :
      (groups : List (BarGroup D)) → All IsKnown (judge_groups ops boards dates groups).accepted
  unfolding judge_groups
  judge_groups-AreKnown [] = tt
  judge_groups-AreKnown (g ∷ groups) =
      AreKnown-add_group g _ (group_error ops boards dates g) refl (judge_groups-AreKnown groups)

  judge_groups-IsNewKey :
      (r : BoardIndexDailyBarRecord D) (groups : List (BarGroup D))
      → IsNewKey r (firsts_of groups)
      → IsNewKey r (judge_groups ops boards dates groups).accepted
  unfolding judge_groups
  judge_groups-IsNewKey r [] h = tt
  judge_groups-IsNewKey r (g ∷ groups) (q, h) =
      IsNewKey-add_group g _ (group_error ops boards dates g) r q (judge_groups-IsNewKey r groups h)

  judge_groups-AreNewKeys :
      (groups : List (BarGroup D))
      → AreNewKeys (firsts_of groups)
      → AreNewKeys (judge_groups ops boards dates groups).accepted
  unfolding judge_groups
  judge_groups-AreNewKeys [] h = tt
  judge_groups-AreNewKeys (g ∷ groups) (q, h) =
      AreNewKeys-add_group g _ (group_error ops boards dates g)
        (judge_groups-IsNewKey g.first groups q) (judge_groups-AreNewKeys groups h)

  judge_groups-rows :
      (groups : List (BarGroup D))
      → (judge_groups ops boards dates groups).rejected_rows
          + length (judge_groups ops boards dates groups).accepted
        ≤ total_size groups
  unfolding judge_groups
  judge_groups-rows [] = omega arith
  judge_groups-rows (g ∷ groups) =
      rows-add_group g _ (group_error ops boards dates g) (total_size groups)
        (judge_groups-rows groups)

  -- The validation answers every record: a bar of its key is accepted that is the record or equals it, or
  -- a finding has its key. The accepted bars have a known board and a known day, no two have one key, and
  -- with the rejected rows they are no more than the records.
  pub validate_board_index_daily_bars-Accounts :
      (records : List (BoardIndexDailyBarRecord D))
      → IsValidation records (validate_board_index_daily_bars ops boards dates records)
  unfolding validate_board_index_daily_bars
  validate_board_index_daily_bars-Accounts records =
      let groups = group_records [] records in
      (
        All-IsAnswered groups records (All-IsGrouped [] records),
        judge_groups-AreKnown groups,
        judge_groups-AreNewKeys groups (AreNewKeys-group_records [] records tt),
        omega (arith, judge_groups-rows groups, total_size-group_records [] records),
      )
