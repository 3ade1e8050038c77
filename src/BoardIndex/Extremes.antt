-- ===== src/BoardIndex/Extremes.antt =====
-- The result of the bias calculation: its day, its samples and their extremes.
use data_center.Prelude.{
  ℕ, ◌≤◌, ◌≡◌, refl, ap, subst, sym, ◌∙◌, Bool, true, false, Option, none, some, List, [], ◌∷◌,
  ◌++◌, length, any, All, has_duplicates, ◌==◌, arith,
}
use data_center.Prelude.Sort.{
  sort_by, IsSorted, sort_by-IsSorted, All-sort_by_back, any-sort_by, length-sort_by,
}
use data_center.BoardIndex.Records.{DecimalOps, BoardIndexDailyBarRecord}
use data_center.BoardIndex.Bias.{
  BoardIndexBiasCalculation, DataOrigin, PersistenceStatus, Scored, Sample, ok, last_of, last_two,
  best_of, by_trade_date, valid_samples, beats, score, score_from, sample_bias, sample_date,
  calculation_of, is_foreign, trade_dates, calculate_board_index_bias,
}
use data_center.BoardIndex.Samples.{samples_among, score_from-samples_among}
use data_center.BoardIndex.Best.{
  IsIn, best_from-IsIn, best_from_unbeaten, IsAsym, IsLeTrans, beats_irrefl, beats_asym,
  beats_trans, length-last_of, length-valid_samples,
}

module _ {D : Type 0} (ops : DecimalOps D) where
  -- The sample's bias is not past the other's, and if it is not behind it either, its day is not later.
  abbrev pub IsBehind : (D → D → Bool) → Sample D → Sample D → Type 0
  IsBehind less t s =
      (less s.bias t.bias ≡ false) × (less t.bias s.bias ≡ false → t.trade_date ≤ s.trade_date)

  beats-IsBehind :
      (less : D → D → Bool) (s t : Sample D) → beats less t s ≡ false → IsBehind less t s
  beats-IsBehind less s t h = (ground (arith, h), λ k. ground (arith, h, k))

  All-IsBehind :
      (less : D → D → Bool) (s : Sample D) (samples : List (Sample D))
      → All (λ t. beats less t s ≡ false) samples
      → All (λ t. IsBehind less t s) samples
  All-IsBehind less s [] h = tt
  All-IsBehind less s (t ∷ samples) (h, hs) =
      (beats-IsBehind less s t h, All-IsBehind less s samples hs)

  -- The bias and the date of a sample that every sample is behind; of no samples, neither.
  abbrev pub IsExtreme : (D → D → Bool) → List (Sample D) → Option D → Option ℕ → Type 0
  IsExtreme less [] bias day = (bias ≡ none) × (day ≡ none)
  IsExtreme less (x ∷ xs) bias day =
      (s : Sample D) × IsIn s (x ∷ xs)
      × All (λ t. IsBehind less t s) (x ∷ xs)
      × (bias ≡ some (ops.round_six_half_up s.bias))
      × (day ≡ some s.trade_date)

  best_of-IsExtreme :
      (less : D → D → Bool)
      → IsAsym less
      → IsLeTrans less
      → (samples : List (Sample D))
      → IsExtreme less samples
          (sample_bias ops (best_of (beats less) samples))
          (sample_date ops (best_of (beats less) samples))
  best_of-IsExtreme less asym le [] = (refl, refl)
  best_of-IsExtreme less asym le (x ∷ xs) = (
    _,
    best_from-IsIn (beats less) x xs,
    All-IsBehind less _ (x ∷ xs) (
        best_from_unbeaten (beats less) (beats_irrefl less asym) (beats_asym less asym)
          (beats_trans less le) x xs),
    refl,
    refl,
  )

  bar_score :
      (r : BoardIndexDailyBarRecord D) (window : List (BoardIndexDailyBarRecord D))
      → (score ops r window).bar.trade_date ≡ r.trade_date
  bar_score r window = ground arith

  -- The records are up to the day.
  abbrev pub AreUpTo : ℕ → List (BoardIndexDailyBarRecord D) → Type 0
  AreUpTo day records = All (λ r. r.trade_date ≤ day) records

  -- One of the records is of the day.
  abbrev pub has_date : ℕ → List (BoardIndexDailyBarRecord D) → Bool
  has_date day records = any (λ r. r.trade_date == day) records

  last_two-score_from :
      (before : List (BoardIndexDailyBarRecord D)) (x : BoardIndexDailyBarRecord D)
      (xs : List (BoardIndexDailyBarRecord D))
      → IsSorted by_trade_date (x ∷ xs)
      → (s : Scored D) × (p : Option (Scored D)) × (last_two (score_from ops before (x ∷ xs))
          ≡ some (s, p))
        × AreUpTo s.bar.trade_date (x ∷ xs)
        × (has_date s.bar.trade_date (x ∷ xs) ≡ true)
  unfolding score_from
  last_two-score_from before x [] h =
      let same = bar_score x (last_of 5 (before ++ x ∷ [])) in
      (_, none, refl, (omega (arith, same), tt), ground (arith, same))
  last_two-score_from before x (y ∷ []) ((le, end), h) =
      let same = bar_score y (last_of 5 ((before ++ x ∷ []) ++ y ∷ [])) in
      (_, _, refl, (ground (arith, le, same), (omega (arith, same), tt)), ground (arith, same))
  last_two-score_from before x (y ∷ z ∷ zs) ((le, les), h) =
      let (s, p, e, (up_to, more), dated) = last_two-score_from (before ++ x ∷ []) y (z ∷ zs) h in
      (s, p, e, (ground (arith, le, up_to), (up_to, more)), ground (arith, dated))

  by_trade_date-IsSorted :
      (records : List (BoardIndexDailyBarRecord D))
      → IsSorted by_trade_date (sort_by by_trade_date records)
  by_trade_date-IsSorted records =
      sort_by-IsSorted by_trade_date (λ x y h. ground (arith, h))
        (λ x y z h k. ground (arith, h, k)) records

  abbrev pub samples_of : List (BoardIndexDailyBarRecord D) → List (Sample D)
  samples_of records = samples_among ops (sort_by by_trade_date records)

  abbrev scored_samples : List (BoardIndexDailyBarRecord D) → List (Sample D)
  scored_samples records =
      valid_samples (last_of 30 (score_from ops [] (sort_by by_trade_date records)))

  same_samples :
      (records : List (BoardIndexDailyBarRecord D)) → scored_samples records ≡ samples_of records
  same_samples records = score_from-samples_among ops (sort_by by_trade_date records)

  -- What a result says of the records.
  abbrev pub IsBias : List (BoardIndexDailyBarRecord D) → BoardIndexBiasCalculation D → Type 0
  IsBias records r =
      AreUpTo r.trade_date records
      × (has_date r.trade_date records ≡ true)
      × (r.bias_sample_count ≡ length (samples_of records))
      × (r.bias_sample_count ≤ 30)
      × IsExtreme ops.less (samples_of records) r.highest_bias_5_pct r.highest_bias_trade_date
      × IsExtreme (λ a b. ops.less b a) (samples_of records) r.lowest_bias_5_pct
          r.lowest_bias_trade_date

  module _ (asym : IsAsym ops.less) (le : IsLeTrans ops.less) where
    reverse_trans : IsLeTrans (λ a b. ops.less b a)
    reverse_trans a b c h k = le c b a k h

    count_le : (records : List (BoardIndexDailyBarRecord D)) → length (samples_of records) ≤ 30
    count_le records =
        let scored = score_from ops [] (sort_by by_trade_date records) in
        omega (
          arith,
          length-valid_samples (last_of 30 scored),
          length-last_of 30 scored,
          ap length (same_samples records),
        )

    best_of_records-IsExtreme :
        (less : D → D → Bool)
        → IsAsym less
        → IsLeTrans less
        → (records : List (BoardIndexDailyBarRecord D))
        → IsExtreme less
            (samples_of records)
            (sample_bias ops (best_of (beats less) (scored_samples records)))
            (sample_date ops (best_of (beats less) (scored_samples records)))
    best_of_records-IsExtreme less asym le records =
        let best = best_of (beats less) (scored_samples records) in
        subst (λ l. IsExtreme less l (sample_bias ops best) (sample_date ops best))
          (same_samples records) (best_of-IsExtreme less asym le (scored_samples records))

    calculation_of-IsBias :
        (fetched_at : ℕ) (origin : DataOrigin) (status : PersistenceStatus)
        (records ordered : List (BoardIndexDailyBarRecord D))
        → sort_by by_trade_date records ≡ ordered
        → length ordered ≡ length records
        → 1 ≤ length records
        → (r : BoardIndexBiasCalculation D) × (calculation_of ops origin status fetched_at
              (score_from ops [] (sort_by by_trade_date records))
              (last_two (score_from ops [] (sort_by by_trade_date records)))
            ≡ ok r)
          × IsBias records r
    calculation_of-IsBias fetched_at origin status records [] e same h =
        absurd (omega (arith, same, h))
    calculation_of-IsBias fetched_at origin status records (x ∷ xs) e same h =
        let scored = score_from ops [] (sort_by by_trade_date records) in
        let sorted : IsSorted by_trade_date (x ∷ xs) =
          subst (IsSorted by_trade_date) e (by_trade_date-IsSorted records) in
        let (s, p, last, up_to, dated) = last_two-score_from [] x xs sorted in
        (
          _,
          ap (calculation_of ops origin status fetched_at scored)
              (ap (λ o. last_two (score_from ops [] o)) e ∙ last),
          (
            All-sort_by_back by_trade_date (λ r. r.trade_date ≤ s.bar.trade_date) records
                (subst (AreUpTo s.bar.trade_date) (sym e) up_to),
            sym (any-sort_by by_trade_date (λ r. r.trade_date == s.bar.trade_date) records)
                ∙ ap (has_date s.bar.trade_date) e
                ∙ dated,
            ap length (same_samples records),
            subst (λ l. length l ≤ 30) (sym (same_samples records)) (count_le records),
            best_of_records-IsExtreme ops.less asym le records,
            best_of_records-IsExtreme (λ a b. ops.less b a) (λ a b k. asym b a k) reverse_trans
                records,
          ),
        )

    -- For records of the board, one or more and each of a day of its own, there is a result: its day is
    -- the last of the records'; its samples are of the last thirty records, each with the bias of its
    -- close from the average of five closes up to it, all of which are positive; and its extremes are the
    -- bias and the day of a sample that no other exceeds, or falls below, of equal ones the latest.
    pub calculate_board_index_bias-IsBias :
        (first : BoardIndexDailyBarRecord D) (records : List (BoardIndexDailyBarRecord D))
        (fetched_at : ℕ) (origin : DataOrigin) (status : PersistenceStatus)
        → any (is_foreign ops) (first ∷ records) ≡ false
        → has_duplicates (λ a b. a == b) (trade_dates ops (sort_by by_trade_date (first ∷ records)))
          ≡ false
        → (r : BoardIndexBiasCalculation D) × (calculate_board_index_bias ops
              (first ∷ records)
              fetched_at
              origin
              status
            ≡ ok r)
          × IsBias (first ∷ records) r
    unfolding calculate_board_index_bias
    calculate_board_index_bias-IsBias first records fetched_at origin status own distinct =
        let (r, e, is) =
          calculation_of-IsBias fetched_at origin status (first ∷ records)
            (sort_by by_trade_date (first ∷ records)) refl
            (length-sort_by by_trade_date (first ∷ records)) (omega arith) in
        (r, rw (own, distinct) e, is)
