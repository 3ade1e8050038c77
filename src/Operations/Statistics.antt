-- ===== src/Operations/Statistics.antt =====
-- The row counts and the status of a job, from the result of its operation
-- (src/market_data_center/operations_service.py, `_result_statistics`). A result is one of the
-- summaries that the function tells apart, each with the fields that it reads; a count that a
-- service makes by counting is natural. A status that a summary keeps as text is text here too.
use Prim.Native.String.{String}
use data_center.Prelude.{
  ℕ, ◌+◌, Bool, ◌&&◌, Option, none, some, List, [], ◌∷◌, ltb, ◌==◌, if◌then◌else◌,
}
use data_center.Prelude.Text.{lookup}
use data_center.Prelude.Int.{ℤ, pos, sub_ℕ}
use data_center.Domain.Operations.{Rows, ExecutionStatus, succeeded, failed, partial}
use data_center.Domain.Ingestion.{IngestionStatus}
use data_center.Domain.Ingestion

-- `scanned`, `completed`, `failed` and whether there are errors.
pub record CleanupResult : Type 0 where
  pub scanned : ℕ
  pub completed : ℕ
  pub failed : ℕ
  pub has_errors : Bool

pub record DataCleanupSummary : Type 0 where
  pub verified_rows : ℕ
  pub deleted_rows : ℕ
  pub history_deleted_rows : ℕ
  pub quality_result_deleted_rows : ℕ

pub record AuctionSeriesArchiveSummary : Type 0 where
  pub scanned_rows : ℕ
  pub inserted_rows : ℕ
  pub existing_rows : ℕ

pub data RegulationRunStatus : Type 0 where
  run_running run_succeeded run_partial run_failed : RegulationRunStatus

pub record RegulationCoverage : Type 0 where
  pub expected_count : ℕ
  pub complete_count : ℕ
  pub incomplete_count : ℕ
  pub not_applicable_count : ℕ

-- `fetched_rows`, `accepted_rows`, `rejected_rows` of `ShareholderCountSyncSummary`.
pub record Counts : Type 0 where
  pub fetched_rows : ℕ
  pub accepted_rows : ℕ
  pub rejected_rows : ℕ

pub record DragonTigerCollectionSummary : Type 0 where
  pub fetched_rows : ℕ
  pub accepted_events : ℕ
  pub accepted_seat_trades : ℕ
  pub filtered_rows : ℕ

pub record DailyBarBulkSummary : Type 0 where
  pub expected_symbols : ℕ
  pub accepted_symbols : ℕ
  pub failed_symbols : ℕ
  pub unavailable_symbols : ℕ

pub data StepResult : Type 0 where
  raw_retention : (scanned completed : ℕ) (has_errors : Bool) → StepResult
  history_cleanup : (deleted_rows : ℕ) (has_errors : Bool) → StepResult
  quality_or_raw_cleanup : CleanupResult → StepResult
  data_cleanup : DataCleanupSummary → StepResult
  auction_series_archive : AuctionSeriesArchiveSummary → StepResult
  regulation_benchmark : (expected_count accepted_count : ℕ) → StepResult
  regulation_calculation : RegulationRunStatus → RegulationCoverage → StepResult
  shareholder_count_sync : Counts → StepResult
  dragon_tiger_collection : DragonTigerCollectionSummary → StepResult
  dragon_tiger_backfill :
      (completed_dates failed_dates : ℕ) (results : List DragonTigerCollectionSummary) → StepResult
  daily_bar_bulk : DailyBarBulkSummary → StepResult
  call_auction_market_collection : (status : String) → Counts → StepResult
  call_auction_market_series : (status : String) → Counts → StepResult
  auction_collection : (status : String) → Counts → StepResult
  stock_pool_build : (candidate_count member_count rejected_count : ℕ) → StepResult
  today_limit_up_fill : (status : String) → Counts → StepResult
  today_limit_down_fill : (status : String) → Counts → StepResult
  close_price_new_high_build : (candidate_count member_count omitted_count : ℕ) → StepResult
  pytdx_pool_refresh :
      (candidate_count usable_node_count rejected_node_count : ℕ) (used_last_good : Bool)
      → StepResult
  row_count : ℤ → StepResult
  other_object : StepResult
  ingestion_run : IngestionStatus → Counts → StepResult

pub record StepStatistics : Type 0 where
  pub fetched : ℤ
  pub accepted : ℤ
  pub rejected : ℤ
  pub status : ExecutionStatus

-- The counts, as `JobExecution.finish` takes them.
abbrev pub rows_of : StepStatistics → Rows
rows_of s = record { fetched = s.fetched; accepted = s.accepted; rejected = s.rejected }

abbrev counted : ℕ → ℕ → ℕ → ExecutionStatus → StepStatistics
counted fetched accepted rejected status = record {
  fetched = pos fetched;
  accepted = pos accepted;
  rejected = pos rejected;
  status = status;
}

abbrev partial_if : Bool → ExecutionStatus
partial_if b = if b then partial else succeeded

abbrev regulation_status : RegulationRunStatus → ExecutionStatus
regulation_status run_succeeded = succeeded
regulation_status run_partial = partial
regulation_status run_failed = failed
regulation_status run_running = failed

abbrev pub ingestion_status : IngestionStatus → ExecutionStatus
ingestion_status Ingestion.succeeded = succeeded
ingestion_status Ingestion.partial = partial
ingestion_status Ingestion.failed = failed
ingestion_status Ingestion.pending = failed
ingestion_status Ingestion.running = failed

-- The properties `rejected_symbols` and `status` of `DailyBarBulkSummary`, the second through the
-- dictionary of its three values.
abbrev rejected_symbols : DailyBarBulkSummary → ℕ
rejected_symbols s = s.failed_symbols + s.unavailable_symbols

abbrev bulk_status : DailyBarBulkSummary → ExecutionStatus
bulk_status s =
    if ltb 0 s.expected_symbols && s.accepted_symbols == 0 && ltb 0 s.failed_symbols
    then failed
    else if ltb 0 (rejected_symbols s)
    then partial
    else succeeded

shareholder_status : Counts → ExecutionStatus
shareholder_status s =
    if ltb 0 s.rejected_rows && s.accepted_rows == 0
    then failed
    else partial_if (ltb 0 s.rejected_rows)

backfill_status : ℕ → ℕ → ExecutionStatus
backfill_status completed_dates failed_dates =
    if ltb 0 failed_dates && ltb 0 completed_dates
    then partial
    else if ltb 0 failed_dates
    then failed
    else succeeded

abbrev accepted_facts : DragonTigerCollectionSummary → ℕ
accepted_facts s = s.accepted_events + s.accepted_seat_trades

total : (DragonTigerCollectionSummary → ℕ) → List DragonTigerCollectionSummary → ℕ
total field [] = 0
total field (s ∷ results) = field s + total field results

-- The dictionaries that map the text of a status; a text that is no key is a `KeyError`.
abbrev collection_statuses : List (String × ExecutionStatus)
collection_statuses = ("succeeded", succeeded) ∷ ("partial", partial) ∷ []

abbrev series_statuses : List (String × ExecutionStatus)
series_statuses = ("succeeded", succeeded) ∷ ("partial", partial) ∷ ("failed", failed) ∷ []

abbrev auction_statuses : List (String × ExecutionStatus)
auction_statuses =
    ("succeeded", succeeded)
    ∷ ("partial", partial)
    ∷ ("failed", failed)
    ∷ ("skipped", succeeded)
    ∷ []

abbrev fill_statuses : List (String × ExecutionStatus)
fill_statuses =
    ("ready", succeeded) ∷ ("partial", partial) ∷ ("deferred", partial) ∷ ("failed", failed) ∷ []

mapped : List (String × ExecutionStatus) → String → Counts → Option StepStatistics
mapped statuses status s = elim (lookup status statuses) [
  | none ↦ none
  | some status ↦ some (counted s.fetched_rows s.accepted_rows s.rejected_rows status)
]

-- `_result_statistics`; `none` is the `KeyError` of an unknown status.
unfoldable pub result_statistics : StepResult → Option StepStatistics
unfolding mapped total backfill_status shareholder_status lookup
result_statistics (raw_retention scanned completed has_errors) = some (record {
  fetched = pos scanned;
  accepted = pos completed;
  rejected = sub_ℕ scanned completed;
  status = partial_if has_errors;
})
result_statistics (history_cleanup deleted has_errors) =
    some (counted deleted deleted 0 (partial_if has_errors))
result_statistics (quality_or_raw_cleanup r) =
    some (counted r.scanned r.completed r.failed (partial_if r.has_errors))
result_statistics (data_cleanup s) = some (
    counted (s.verified_rows + s.history_deleted_rows + s.quality_result_deleted_rows)
      (s.deleted_rows + s.history_deleted_rows + s.quality_result_deleted_rows) 0 succeeded)
result_statistics (auction_series_archive s) =
    some (counted s.scanned_rows s.inserted_rows 0 succeeded)
result_statistics (regulation_benchmark expected accepted) = some (record {
  fetched = pos expected;
  accepted = pos accepted;
  rejected = sub_ℕ expected accepted;
  status = partial_if (ltb accepted expected);
})
result_statistics (regulation_calculation status c) = some (
    counted c.expected_count (c.complete_count + c.not_applicable_count) c.incomplete_count
      (regulation_status status))
result_statistics (shareholder_count_sync s) =
    some (counted s.fetched_rows s.accepted_rows s.rejected_rows (shareholder_status s))
result_statistics (dragon_tiger_collection s) =
    some (counted s.fetched_rows (accepted_facts s) s.filtered_rows succeeded)
result_statistics (dragon_tiger_backfill completed failures results) = some (
    counted (total (λ s. s.fetched_rows) results) (total accepted_facts results)
      (total (λ s. s.filtered_rows) results) (backfill_status completed failures))
result_statistics (daily_bar_bulk s) =
    some (counted s.expected_symbols s.accepted_symbols (rejected_symbols s) (bulk_status s))
result_statistics (call_auction_market_collection status s) = mapped collection_statuses status s
result_statistics (call_auction_market_series status s) = mapped series_statuses status s
result_statistics (auction_collection status s) = mapped auction_statuses status s
result_statistics (stock_pool_build candidates members rejected) =
    some (counted candidates members rejected (partial_if (ltb 0 rejected)))
result_statistics (today_limit_up_fill status s) = mapped fill_statuses status s
result_statistics (today_limit_down_fill status s) = mapped fill_statuses status s
result_statistics (close_price_new_high_build candidates members omitted) =
    some (counted candidates members omitted (partial_if (ltb 0 omitted)))
result_statistics (pytdx_pool_refresh candidates usable rejected used_last_good) =
    some (counted candidates usable rejected (partial_if used_last_good))
result_statistics (row_count n) =
    some (record { fetched = n; accepted = n; rejected = pos 0; status = succeeded })
result_statistics other_object = some (counted 0 0 0 succeeded)
result_statistics (ingestion_run status s) =
    some (counted s.fetched_rows s.accepted_rows s.rejected_rows (ingestion_status status))
