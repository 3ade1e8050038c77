-- ===== src/Writer/Captured.antt =====
-- What a captured round promises once its constructor has accepted it.
use Prim.Native.String.{String}
use data_center.Prelude.{
  ℕ, ◌≡◌, subst, true, false, none, List, [], ◌∷◌, length, has_duplicates, All, arith, ◌==◌,
}
use data_center.Prelude.Int.{pos, eq_ℤ, eq_ℤ-eq}
use data_center.Domain.Series
use data_center.Domain.Series.{MarketSeriesRound}
use data_center.Writer.{
  CapturedAttempt, CapturedRound, ok, check_attempt, check_captured, check_attempts, same_identity,
  ingestion_ids, is_attempted, requests_round, has_facts_of, is_supported,
}

-- The attempts all asked for the round and hold facts of it alone, under different ids, and the
-- ingestion that was selected is one of them.
abbrev pub IsConsistent : (ℕ → String) → CapturedRound → Type 0
IsConsistent uuid_text c =
    (same_identity c.running_round c.completed_round ≡ true)
    × (Series.is_running c.running_round.status ≡ true)
    × (Series.is_running c.completed_round.status ≡ false)
    × (c.completed_round.attempt_count ≡ length c.attempts)
    × (has_duplicates ◌==◌ (ingestion_ids c.attempts) ≡ false)
    × (is_attempted c.completed_round.selected_ingestion_id (ingestion_ids c.attempts) ≡ true)
    × All
        (λ a.
          (requests_round uuid_text c.running_round a ≡ true)
          × (has_facts_of uuid_text c.running_round a ≡ true))
        c.attempts

check_attempts-none :
    (uuid_text : ℕ → String) (r : MarketSeriesRound) (attempts : List CapturedAttempt)
    → check_attempts uuid_text r attempts ≡ none
    → All
        (λ a. (requests_round uuid_text r a ≡ true) × (has_facts_of uuid_text r a ≡ true))
        attempts
unfolding check_attempts
check_attempts-none uuid_text r [] h = tt
check_attempts-none uuid_text r (a ∷ attempts) h = (
  (ground (arith, h), ground (arith, h)),
  check_attempts-none uuid_text r attempts (ground (arith, h)),
)

check_captured-ok :
    (uuid_text : ℕ → String) (c round : CapturedRound)
    → check_captured uuid_text c ≡ ok round
    → (same_identity c.running_round c.completed_round ≡ true)
      × (Series.is_running c.running_round.status ≡ true)
      × (Series.is_running c.completed_round.status ≡ false)
      × (c.completed_round.attempt_count ≡ length c.attempts)
      × (has_duplicates ◌==◌ (ingestion_ids c.attempts) ≡ false)
      × (is_attempted c.completed_round.selected_ingestion_id (ingestion_ids c.attempts) ≡ true)
      × (check_attempts uuid_text c.running_round c.attempts ≡ none)
      × (c ≡ round)
unfolding check_captured
check_captured-ok uuid_text c round h = ground (arith, h)

-- A captured round that passes its guards is one round that ran and has ended, with as many attempts
-- as it counts, which all asked for it and hold facts of it alone, under different ids; the ingestion
-- that it selected is one of them.
pub check_captured-IsConsistent :
    (uuid_text : ℕ → String) (c round : CapturedRound)
    → check_captured uuid_text c ≡ ok round
    → IsConsistent uuid_text round
check_captured-IsConsistent uuid_text c round h =
    let (identity, ran, ended, attempts, unique, selected, matches, eq) =
      check_captured-ok uuid_text c round h in
    subst (IsConsistent uuid_text) eq (
      identity,
      ran,
      ended,
      attempts,
      unique,
      selected,
      check_attempts-none uuid_text c.running_round c.attempts matches,
    )

check_attempt-ok :
    (a attempt : CapturedAttempt)
    → check_attempt a ≡ ok attempt
    → (is_supported a.run.status ≡ true)
      × (a.manifest.ingestion_id ≡ a.run.ingestion_id)
      × (eq_ℤ a.manifest.row_count a.run.fetched_rows ≡ true)
      × (eq_ℤ (pos (length a.records)) a.run.accepted_rows ≡ true)
      × (a ≡ attempt)
unfolding check_attempt
check_attempt-ok a attempt h = ground (arith, h)

-- An attempt that passes its guards has ended with a supported status, its manifest counts the rows
-- that were fetched, and it has as many facts as rows were accepted.
pub check_attempt-counts :
    (a attempt : CapturedAttempt)
    → check_attempt a ≡ ok attempt
    → (is_supported attempt.run.status ≡ true)
      × (attempt.manifest.ingestion_id ≡ attempt.run.ingestion_id)
      × (attempt.manifest.row_count ≡ attempt.run.fetched_rows)
      × (pos (length attempt.records) ≡ attempt.run.accepted_rows)
check_attempt-counts a attempt h =
    let (supported, manifest, fetched, facts, eq) = check_attempt-ok a attempt h in
    subst
      (λ (x : CapturedAttempt).
        (is_supported x.run.status ≡ true)
        × (x.manifest.ingestion_id ≡ x.run.ingestion_id)
        × (x.manifest.row_count ≡ x.run.fetched_rows)
        × (pos (length x.records) ≡ x.run.accepted_rows))
      eq (supported, manifest, eq_ℤ-eq _ _ fetched, eq_ℤ-eq _ _ facts)
