-- ===== src/Writer/Tests.antt =====
-- A captured round, and a run of the writer over two rounds of which the second fails.
use Prim.Native.String.{String}
use data_center.Prelude.{
  ℕ, ◌≡◌, refl, true, false, Option, none, some, List, [], ◌∷◌, ◌+◌, ◌==◌, if◌then◌else◌,
}
use data_center.Prelude.Text.{lookup}
use data_center.Prelude.Int.{pos}
use data_center.Prelude.Codes.{codes}
use data_center.Domain.Ingestion
use data_center.Domain.Ingestion.{IngestionRun, RawManifest}
use data_center.Domain.Series
use data_center.Domain.Series.{MarketSeriesRound}
use data_center.Writer.{
  CapturedAttempt, CapturedRound, check_attempt, check_captured, check_attempts, requests_round,
  has_facts_of, ok, WriterState, initial, submit, close, work, work_on, record_round, captured,
  stop,
}
use data_center.Writer.Ledger.{Written, rounds, persisted_of, failed_of, first_error_of, Calls}
use data_center.Writer.Queue.{
  Reach, begins, submits, closes, works, IsOrderly, Reach-IsOrderly, returned-Accounts,
}

abbrev run : IngestionRun
run = record {
  ingestion_id = 5;
  provider_code = Ingestion.pytdx_hq;
  dataset_code = Ingestion.call_auction_market_series;
  status = Ingestion.partial;
  requested_at = 10;
  started_at = some 11;
  finished_at = some 12;
  request_params = ("session_id", Ingestion.text "s") ∷ ("sample_seq", Ingestion.number 3) ∷ [];
  fetched_rows = pos 2;
  accepted_rows = pos 1;
  rejected_rows = pos 1;
  error_summary = none;
  replayed_from_raw_id = none;
}

abbrev manifest : RawManifest
manifest = record {
  raw_id = 6;
  ingestion_id = 5;
  object_path = codes "a";
  file_format = Ingestion.jsonl;
  content_sha256 = [];
  byte_size = pos 1;
  row_count = pos 2;
  schema_version = codes "v1";
  storage_backend = codes "local";
}

abbrev attempt : CapturedAttempt
attempt = record {
  run = run;
  records = record { session_id = 4; sample_seq = 3 } ∷ [];
  manifest = manifest;
  quality_results = [];
  elapsed = pos 7;
  has_succeeded = false;
}

abbrev round_of : ℕ → MarketSeriesRound
round_of seq = record {
  session_id = 4;
  sample_seq = seq;
  scheduled_at = record { is_utc = true; instant = 100 };
  collected_at = none;
  status = Series.running;
  attempt_count = 0;
  expected_quotes = 2;
  successful_quotes = 0;
  failed_quotes = 0;
  selected_ingestion_id = none;
  error_summary = none;
}

abbrev captured_of : ℕ → CapturedRound
captured_of seq = record {
  running_round = round_of seq;
  completed_round = record (round_of seq) {
    collected_at = some (record { is_utc = true; instant = 105 });
    status = Series.partial;
    attempt_count = 1;
    successful_quotes = 1;
    failed_quotes = 1;
    selected_ingestion_id = some 5;
  };
  attempts = attempt ∷ [];
}

abbrev uuid_text : ℕ → String
uuid_text id = "s"

-- The database refuses every sample but the third.
abbrev persist : CapturedRound → ℕ → Option String × ℕ
persist c calls = (if (c.completed_round.sample_seq) == 3 then none else some "OSError", calls + 1)

program : Unit {0}
unfolding check_attempt check_captured check_attempts requests_round has_facts_of lookup initial
    submit close work work_on record_round
program = tt

check_attempt-accepted : check_attempt attempt ≡ ok attempt
unfolding program
check_attempt-accepted = refl

check_captured-accepted : check_captured uuid_text (captured_of 3) ≡ ok (captured_of 3)
unfolding program
check_captured-accepted = refl

abbrev last : WriterState
last = record {
  queue = [];
  persisted_sequences = 3 ∷ [];
  failed_sequences = 4 ∷ [];
  first_error_type = some "OSError";
  is_closed = true;
  has_returned = true;
}

abbrev two_queued : WriterState
two_queued = record initial { queue = captured (captured_of 3) ∷ captured (captured_of 4) ∷ [] }

abbrev one_written : WriterState
one_written = record initial { queue = captured (captured_of 4) ∷ []; persisted_sequences = 3 ∷ [] }

-- Nobody else changes the number of calls, which is the world here.
abbrev Changes : ℕ → ℕ → Type 0
Changes before after = ⊥

abbrev submitted : List CapturedRound
submitted = captured_of 3 ∷ captured_of 4 ∷ []

-- Two rounds are submitted, the first is written, the queue is closed, the rest is written.
Reach-last : Reach Changes persist 0 last 2 submitted
unfolding program
Reach-last =
    works
      {w = record one_written {
        queue = stop ∷ [];
        failed_sequences = 4 ∷ [];
        first_error_type = some "OSError";
        is_closed = true;
      }}
      {e = 2}
      (works
        {w = record one_written { queue = captured (captured_of 4) ∷ stop ∷ []; is_closed = true }}
        {e = 1}
        (closes {w = one_written} refl (
          works {w = two_queued} {e = 0} (
            submits {w = record initial { queue = captured (captured_of 3) ∷ [] }} (captured_of 4)
              refl (submits {w = initial} (captured_of 3) refl begins)))))

Reach-IsOrderly_example : IsOrderly Changes persist 0 last 2 submitted
Reach-IsOrderly_example = Reach-IsOrderly Reach-last

returned-Accounts_example :
    (written : List Written) × Calls Changes persist 0 written 2
    × (rounds written ≡ submitted)
    × (3 ∷ [] ≡ persisted_of written)
    × (4 ∷ [] ≡ failed_of written)
    × (some "OSError" ≡ first_error_of written)
returned-Accounts_example = returned-Accounts last 2 submitted Reach-last refl
