-- ===== src/BoardIndex/Samples.antt =====
-- The samples of the bias, by the records themselves: each has the four records before its own.
use mathlib.Core.List.{append_assoc}
use data_center.Prelude.{
  ℕ, suc, ◌-◌, ◌≤◌, ◌≡◌, refl, sym, ap, ◌∙◌, inl, inr, Bool, true, false, ◌&&◌, Option, none, some,
  List, [], ◌∷◌, ◌++◌, length, length-append, ltb, arith, Bool-cases, if◌then◌else◌,
}
use data_center.BoardIndex.Records.{DecimalOps, BoardIndexDailyBarRecord}
use data_center.BoardIndex.Bias.{
  Scored, Sample, drop, last_of, add_sample, valid_samples, score, score_from,
}

drop-append : {A : Type 0} → (xs ys : List A) → drop (length xs) (xs ++ ys) ≡ ys
drop-append [] ys = refl
drop-append (x ∷ xs) ys = drop-append xs ys

last_of-append : {A : Type 0} → (n : ℕ) (xs ys : List A) → length ys ≡ n → last_of n (xs ++ ys) ≡ ys
last_of-append n xs ys h =
    ap (λ k. drop k (xs ++ ys)) (omega (arith, h, length-append xs ys)) ∙ drop-append xs ys

module _ {D : Type 0} where
  sample_step :
      (s : Scored D) (scored : List (Scored D))
      → valid_samples (last_of 30 (s ∷ scored)) ≡ (
          if ltb (length scored) 30
          then add_sample s.bar.trade_date s.bias (valid_samples (last_of 30 scored))
          else valid_samples (last_of 30 scored))
  sample_step s scored = elim (Bool-cases (ltb (length scored) 30)) [
    | inl q ↦
        ap (λ k. valid_samples (drop k (s ∷ scored)))
          (all_of (suc (length scored)) (ground (arith, q)))
        ∙ rw q (
            ap (λ k. add_sample s.bar.trade_date s.bias (valid_samples (drop k scored)))
              (sym (all_of (length scored) (ground (arith, q)))))
    | inr q ↦
        ap (λ k. valid_samples (drop k (s ∷ scored))) (later (length scored) (ground (arith, q)))
        ∙ rw q refl
  ]
    where
      all_of : (n : ℕ) → n ≤ 30 → n - 30 ≡ 0
      all_of n h = omega (arith, h)

      later : (n : ℕ) → 30 ≤ n → suc n - 30 ≡ suc (n - 30)
      later n h = omega (arith, h)

module _ {D : Type 0} (ops : DecimalOps D) where
  abbrev five_average : D → D → D → D → D → D
  five_average a b c d e =
      ops.divide (ops.add (ops.add (ops.add (ops.add (ops.add (ops.number 0) a) b) c) d) e)
        (ops.number 5)

  -- How far the last of five closes is from their average, in percent; none if one is not positive.
  abbrev pub five_bias : D → D → D → D → D → Option D
  five_bias a b c d e =
      let is_positive : D → Bool = λ close. ops.less (ops.number 0) close in
      let average = five_average a b c d e in
      if is_positive a && is_positive b && is_positive c && is_positive d && is_positive e
      then some (ops.multiply (ops.divide (ops.subtract e average) average) (ops.number 100))
      else none

  -- The samples of records in the order of their days: of every five in a row, the last of which is one
  -- of the last thirty records.
  unfoldable pub samples_among : List (BoardIndexDailyBarRecord D) → List (Sample D)
  samples_among (a ∷ b ∷ c ∷ d ∷ e ∷ after) =
      let rest = samples_among (b ∷ c ∷ d ∷ e ∷ after) in
      if ltb (length after) 30
      then add_sample e.trade_date (five_bias a.close b.close c.close d.close e.close) rest
      else rest
  samples_among _ = []

  abbrev scored_samples :
      List (BoardIndexDailyBarRecord D) → List (BoardIndexDailyBarRecord D) → List (Sample D)
  scored_samples before records = valid_samples (last_of 30 (score_from ops before records))

  length-score_from :
      (before records : List (BoardIndexDailyBarRecord D))
      → length (score_from ops before records) ≡ length records
  unfolding score_from
  length-score_from before [] = refl
  length-score_from before (r ∷ records) =
      ap (λ n. suc n) (length-score_from (before ++ r ∷ []) records)

  bar_score :
      (r : BoardIndexDailyBarRecord D) (window : List (BoardIndexDailyBarRecord D))
      → (score ops r window).bar.trade_date ≡ r.trade_date
  bar_score r window = ground arith

  -- The samples from a record on, by the window that it has.
  scored_samples_step :
      (before records window : List (BoardIndexDailyBarRecord D)) (r : BoardIndexDailyBarRecord D)
      → last_of 5 (before ++ r ∷ []) ≡ window
      → scored_samples before (r ∷ records) ≡ (
          if ltb (length records) 30
          then add_sample r.trade_date
              (score ops r window).bias
              (scored_samples (before ++ r ∷ []) records)
          else scored_samples (before ++ r ∷ []) records)
  unfolding score_from
  scored_samples_step before records window r e =
      let tail = scored_samples (before ++ r ∷ []) records in
      sample_step (score ops r (last_of 5 (before ++ r ∷ [])))
        (score_from ops (before ++ r ∷ []) records)
      ∙ ap
          (λ n.
            if ltb n 30
            then add_sample (score ops r (last_of 5 (before ++ r ∷ []))).bar.trade_date
                (score ops r (last_of 5 (before ++ r ∷ []))).bias tail
            else tail)
          (length-score_from (before ++ r ∷ []) records)
      ∙ ap
          (λ w.
            if ltb (length records) 30
            then add_sample (score ops r w).bar.trade_date (score ops r w).bias tail
            else tail)
          e
      ∙ ap
          (λ day.
            if ltb (length records) 30 then add_sample day (score ops r window).bias tail else tail)
          (bar_score r window)

  five_score :
      (a b c d e : BoardIndexDailyBarRecord D)
      → (score ops e (a ∷ b ∷ c ∷ d ∷ e ∷ [])).bias
        ≡ five_bias a.close b.close c.close d.close e.close
  five_score a b c d e = ground arith

  samples_after_four :
      (before : List (BoardIndexDailyBarRecord D)) (a b c d : BoardIndexDailyBarRecord D)
      (records : List (BoardIndexDailyBarRecord D))
      → scored_samples (before ++ a ∷ b ∷ c ∷ d ∷ []) records
        ≡ samples_among (a ∷ b ∷ c ∷ d ∷ records)
  unfolding score_from samples_among
  samples_after_four before a b c d [] = refl
  samples_after_four before a b c d (e ∷ records) =
      let four = a ∷ b ∷ c ∷ d ∷ [] in
      let five = append_assoc before four (e ∷ []) in
      let shifted = five ∙ sym (append_assoc before (a ∷ []) (b ∷ c ∷ d ∷ e ∷ [])) in
      let rest =
        ap (λ l. scored_samples l records) shifted
        ∙ samples_after_four (before ++ a ∷ []) b c d e records in
      scored_samples_step (before ++ four) records (a ∷ b ∷ c ∷ d ∷ e ∷ []) e
        (ap (λ l. last_of 5 l) five ∙ last_of-append 5 before (a ∷ b ∷ c ∷ d ∷ e ∷ []) refl)
      ∙ ap
          (λ bias.
            if ltb (length records) 30
            then add_sample e.trade_date bias (scored_samples ((before ++ four) ++ e ∷ []) records)
            else scored_samples ((before ++ four) ++ e ∷ []) records)
          (five_score a b c d e)
      ∙ ap
          (λ l.
            if ltb (length records) 30
            then add_sample e.trade_date (five_bias a.close b.close c.close d.close e.close) l
            else l)
          rest

  if-same : (b : Bool) (l : List (Sample D)) → (if b then l else l) ≡ l
  if-same true l = refl
  if-same false l = refl

  -- A record with fewer than four before it has no sample.
  no_sample :
      (before records window : List (BoardIndexDailyBarRecord D)) (r : BoardIndexDailyBarRecord D)
      → last_of 5 (before ++ r ∷ []) ≡ window
      → (score ops r window).bias ≡ none
      → scored_samples before (r ∷ records) ≡ scored_samples (before ++ r ∷ []) records
  no_sample before records window r e h =
      let tail = scored_samples (before ++ r ∷ []) records in
      scored_samples_step before records window r e
      ∙ ap (λ bias. if ltb (length records) 30 then add_sample r.trade_date bias tail else tail) h
      ∙ if-same (ltb (length records) 30) tail

  -- The loop and the slices give the samples of the records.
  pub score_from-samples_among :
      (records : List (BoardIndexDailyBarRecord D))
      → valid_samples (last_of 30 (score_from ops [] records)) ≡ samples_among records
  unfolding score_from samples_among
  score_from-samples_among [] = refl
  score_from-samples_among (a ∷ []) = refl
  score_from-samples_among (a ∷ b ∷ []) = refl
  score_from-samples_among (a ∷ b ∷ c ∷ []) = refl
  score_from-samples_among (a ∷ b ∷ c ∷ d ∷ records) =
      no_sample [] (b ∷ c ∷ d ∷ records) (a ∷ []) a refl refl
      ∙ no_sample (a ∷ []) (c ∷ d ∷ records) (a ∷ b ∷ []) b refl refl
      ∙ no_sample (a ∷ b ∷ []) (d ∷ records) (a ∷ b ∷ c ∷ []) c refl refl
      ∙ no_sample (a ∷ b ∷ c ∷ []) records (a ∷ b ∷ c ∷ d ∷ []) d refl refl
      ∙ samples_after_four [] a b c d records
