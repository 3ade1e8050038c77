-- ===== src/Domain/Series/Tests.antt =====
-- The day 2026-09-07, whose sample 30 is taken before the close: a round and a session of it.
use data_center.Prelude.{ℕ, ◌+◌, ◌≤◌, ◌<◌, ◌≡◌, refl, true, none, some, List, [], ◌∷◌, arith}
use data_center.Prelude.Codes.{codes, codes_eq, codes_lt}
use data_center.Prelude.Int.{pos, negsuc}
use data_center.Domain.Series.{
  MarketSeriesRound, MarketSeriesRoundArguments, natural_round, negative_counts, succeeded, partial,
  ok, err, wrong_schedule, check_round, status_error, series_slot, series_slots, slots_from,
  series_round_deadline,
}
use data_center.Domain.Series.Slots.{series_round_deadline-between}
use data_center.Domain.Series.Guards.{IsRound, check_round-HasResults}
use data_center.Domain.Series.Session.{
  MarketSeriesSession, MarketSeriesSessionArguments, natural_session, HasCounts, IsSound,
  check_session, check_session-IsSound,
}

abbrev today : ℕ
today = 739866

program : Unit {0}
unfolding series_slot series_slots slots_from series_round_deadline check_round status_error
    check_session codes_eq codes_lt
program = tt

-- Sample 30 of that day is at 09:24:53, seven seconds before its slot on the days before.
series_slot-moved : series_slot today 30 + 7000000 ≡ series_slot 739865 30 + 86400000000
unfolding program
series_slot-moved = refl

series_round_deadline-between_example :
    (deadline : ℕ) × (series_round_deadline today 29 ≡ some deadline)
    × (series_slot today 29 < deadline)
    × (deadline ≤ series_slot today 30)
series_round_deadline-between_example = series_round_deadline-between today 29 (omega arith)

abbrev arguments : MarketSeriesRoundArguments
arguments = record {
  session_id = 4;
  sample_seq = pos 30;
  scheduled_at = record { is_utc = true; instant = 63924427493000000 };
  collected_at = some (record { is_utc = true; instant = 63924427494000000 });
  status = partial;
  attempt_count = pos 2;
  expected_quotes = pos 9;
  successful_quotes = pos 7;
  failed_quotes = pos 2;
  selected_ingestion_id = some 5;
  error_summary = none;
}

abbrev round : MarketSeriesRound
round = natural_round arguments

check_round-accepted : check_round arguments ≡ ok round
unfolding program
check_round-accepted = refl

check_round-early : check_round (record arguments { sample_seq = pos 29 }) ≡ err wrong_schedule
unfolding program
check_round-early = refl

check_round-negative :
    check_round (record arguments { failed_quotes = negsuc 0 }) ≡ err negative_counts
unfolding program
check_round-negative = refl

check_round-HasResults_example : IsRound arguments round
check_round-HasResults_example = check_round-HasResults arguments round check_round-accepted

abbrev digest : List (List ℕ) → List ℕ
digest symbols = codes "digest"

abbrev session_arguments : MarketSeriesSessionArguments
session_arguments = record {
  session_id = 4;
  workflow_run_id = 7;
  trade_date = today;
  window_start = 63924426900000000;
  window_end = 63924427540000000;
  cadence_seconds = 20;
  expected_rounds = 32;
  universe_symbols = codes "SSE:600000" ∷ codes "SZSE:000001" ∷ [];
  universe_count = 2;
  universe_hash_text = codes "digest";
  status = succeeded;
  started_at = record { is_utc = true; instant = 63924426800000000 };
  finished_at = some (record { is_utc = true; instant = 63924427550000000 });
  successful_rounds = pos 32;
  partial_rounds = pos 0;
  failed_rounds = pos 0;
  successful_quotes = pos 64;
  failed_quotes = pos 0;
  error_summary = none;
}

abbrev session : MarketSeriesSession
session = natural_session session_arguments

check_session-accepted : check_session digest session_arguments ≡ ok session
unfolding program
check_session-accepted = refl

check_session-IsSound_example : HasCounts session_arguments session × IsSound session
check_session-IsSound_example =
    check_session-IsSound digest session_arguments session check_session-accepted
