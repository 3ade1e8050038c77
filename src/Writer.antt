-- ===== src/Writer.antt =====
-- The writer of captured rounds (src/market_data_center/call_auction_market_series_writer.py): what a
-- round must satisfy to be captured, and the queue between the thread that samples and the one that
-- writes. Of a snapshot record the two fields that the guards read are kept. The text of a UUID and the database
-- are parameters.
pub mod Captured
pub mod Ledger
pub mod Queue
mod Tests
use Prim.Native.String.{String}
use data_center.Prelude.{
  ℕ, Bool, true, false, not, ◌&&◌, ◌||◌, Option, none, some, List, [], ◌∷◌, ◌++◌, map, length, any,
  has_duplicates, is_some, ltb, ◌==◌, if◌then◌else◌,
}
use data_center.Prelude.Text.{text_eq, lookup}
use data_center.Prelude.Int.{ℤ, pos, ltb_ℤ, eq_ℤ}
use data_center.Domain.Ingestion
use data_center.Domain.Ingestion.{IngestionRun, IngestionStatus, RawManifest, QualityResult, Param}
use data_center.Domain.Series
use data_center.Domain.Series.{MarketSeriesRound, Moment, series_round_count}

pub record SnapshotRecord : Type 0 where
  pub session_id : ℕ
  pub sample_seq : ℕ

pub record CapturedAttempt : Type 0 where
  pub run : IngestionRun
  pub records : List SnapshotRecord
  pub manifest : RawManifest
  pub quality_results : List QualityResult
  pub elapsed : ℤ
  pub has_succeeded : Bool

pub data CaptureError : Type 0 where
  unsupported_status manifest_mismatch raw_count_mismatch facts_mismatch : CaptureError
  quality_mismatch negative_elapsed flag_mismatch : CaptureError
  identity_changed not_running not_terminal attempt_count_mismatch : CaptureError
  ids_not_unique selected_not_attempted request_mismatch facts_of_other_round : CaptureError

pub data Checked (A : Type 0) : Type 0 where
  ok : A → Checked A
  err : CaptureError → Checked A

abbrev pub is_supported : IngestionStatus → Bool
is_supported Ingestion.succeeded = true
is_supported Ingestion.partial = true
is_supported Ingestion.pending = false
is_supported Ingestion.running = false
is_supported Ingestion.failed = false

abbrev pub is_succeeded : IngestionStatus → Bool
is_succeeded Ingestion.succeeded = true
is_succeeded Ingestion.partial = false
is_succeeded Ingestion.pending = false
is_succeeded Ingestion.running = false
is_succeeded Ingestion.failed = false

abbrev eq_Bool : Bool → Bool → Bool
eq_Bool true b = b
eq_Bool false b = not b

-- `CapturedAttempt.__post_init__`
pub check_attempt : CapturedAttempt → Checked CapturedAttempt
check_attempt a =
    if not (is_supported a.run.status)
    then err unsupported_status
    else if not (a.manifest.ingestion_id == a.run.ingestion_id)
    then err manifest_mismatch
    else if not (eq_ℤ a.manifest.row_count a.run.fetched_rows)
    then err raw_count_mismatch
    else if not (eq_ℤ (pos (length a.records)) a.run.accepted_rows)
    then err facts_mismatch
    else if any (λ q. not (q.ingestion_id == a.run.ingestion_id)) a.quality_results
    then err quality_mismatch
    else if ltb_ℤ a.elapsed (pos 0)
    then err negative_elapsed
    else if not (eq_Bool a.has_succeeded (is_succeeded a.run.status))
    then err flag_mismatch
    else ok a

pub record CapturedRound : Type 0 where
  pub running_round : MarketSeriesRound
  pub completed_round : MarketSeriesRound
  pub attempts : List CapturedAttempt

abbrev pub same_identity : MarketSeriesRound → MarketSeriesRound → Bool
same_identity r s =
    r.session_id == s.session_id
    && r.sample_seq == s.sample_seq
    && r.scheduled_at.instant == s.scheduled_at.instant
    && r.expected_quotes == s.expected_quotes

abbrev pub ingestion_ids : List CapturedAttempt → List ℕ
ingestion_ids attempts = map (λ a. a.run.ingestion_id) attempts

abbrev pub is_attempted : Option ℕ → List ℕ → Bool
is_attempted none ids = true
is_attempted (some selected) ids = any (λ i. selected == i) ids

-- `request.get(key) == text` and `request.get(key) == number`, on what `get` gives.
abbrev is_text : Option Param → String → Bool
is_text (some (Ingestion.text s)) t = text_eq s t
is_text (some (Ingestion.number n)) t = false
is_text (some Ingestion.other) t = false
is_text none t = false

abbrev is_number : Option Param → ℕ → Bool
is_number (some (Ingestion.number n)) m = n == m
is_number (some (Ingestion.text s)) m = false
is_number (some Ingestion.other) m = false
is_number none m = false

module _ (uuid_text : ℕ → String) where
  pub requests_round : MarketSeriesRound → CapturedAttempt → Bool
  requests_round r a =
      is_text (lookup "session_id" a.run.request_params) (uuid_text r.session_id)
      && is_number (lookup "sample_seq" a.run.request_params) r.sample_seq

  pub has_facts_of : MarketSeriesRound → CapturedAttempt → Bool
  has_facts_of r a = not (
      any (λ f. not (f.session_id == r.session_id) || not (f.sample_seq == r.sample_seq)) a.records)

  -- The last loop, which ends at the first attempt that does not match.
  check_attempts : MarketSeriesRound → List CapturedAttempt → Option CaptureError
  check_attempts r [] = none
  check_attempts r (a ∷ attempts) =
      let rest = check_attempts r attempts in
      if not (requests_round r a)
      then some request_mismatch
      else if not (has_facts_of r a)
      then some facts_of_other_round
      else rest

  -- `CapturedRound.__post_init__`
  pub check_captured : CapturedRound → Checked CapturedRound
  check_captured c =
      if not (same_identity c.running_round c.completed_round)
      then err identity_changed
      else if not (Series.is_running c.running_round.status)
      then err not_running
      else if Series.is_running c.completed_round.status
      then err not_terminal
      else if not (c.completed_round.attempt_count == length c.attempts)
      then err attempt_count_mismatch
      else if has_duplicates ◌==◌ (ingestion_ids c.attempts)
      then err ids_not_unique
      else if not (is_attempted c.completed_round.selected_ingestion_id (ingestion_ids c.attempts))
      then err selected_not_attempted
      else elim (check_attempts c.running_round c.attempts) [ some error ↦ err error | none ↦ ok c ]

pub data Item : Type 0 where
  captured : CapturedRound → Item
  stop : Item

-- The writer's queue, what it has written, and whether its thread has returned.
pub record WriterState : Type 0 where
  pub queue : List Item
  pub persisted_sequences : List ℕ
  pub failed_sequences : List ℕ
  pub first_error_type : Option String
  pub is_closed : Bool
  pub has_returned : Bool

pub initial : WriterState
initial = record {
  queue = [];
  persisted_sequences = [];
  failed_sequences = [];
  first_error_type = none;
  is_closed = false;
  has_returned = false;
}

pub data Submitted : Type 0 where
  accepted : WriterState → Submitted
  waits : Submitted
  closed_error : Submitted

-- `submit`, and `close_and_wait` up to the wait for the thread; `put` waits while the queue is full,
-- and the thread that waits in it does nothing else until it goes on.
abbrev enqueue : Item → WriterState → Submitted
enqueue item w =
    if ltb (length w.queue) series_round_count
    then accepted (record w { queue = w.queue ++ item ∷ [] })
    else waits

pub submit : CapturedRound → WriterState → Submitted
submit c w = if w.is_closed then closed_error else enqueue (captured c) w

pub close : WriterState → Submitted
close w = if w.is_closed then closed_error else enqueue stop (record w { is_closed = true })

abbrev pub sequence_of : CapturedRound → ℕ
sequence_of c = c.completed_round.sample_seq

abbrev first_of : Option String → String → Option String
first_of none error_type = some error_type
first_of (some earlier) error_type = some earlier

-- What one turn of `_run` does with an item: `persist` answers with the type of an exception.
pub record_round : Option String → ℕ → WriterState → WriterState
record_round none sample_seq w = record w {
  persisted_sequences = w.persisted_sequences ++ sample_seq ∷ [];
}
record_round (some error_type) sample_seq w = record w {
  failed_sequences = w.failed_sequences ++ sample_seq ∷ [];
  first_error_type = first_of w.first_error_type error_type;
}

module _ {E : Type 0} (persist : CapturedRound → E → Option String × E) where
  -- One turn of `_run`: the oldest item of the queue. Without one the thread waits.
  work_on : List Item → WriterState → E → WriterState × E
  work_on [] w e = (w, e)
  work_on (stop ∷ items) w e = (record w { queue = items; has_returned = true }, e)
  work_on (captured c ∷ items) w e =
      let (answer, e1) = persist c e in
      (record_round answer (sequence_of c) (record w { queue = items }), e1)

  pub work : WriterState → E → WriterState × E
  work w e = if w.has_returned then (w, e) else work_on w.queue w e
