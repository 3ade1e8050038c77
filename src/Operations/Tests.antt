-- ===== src/Operations/Tests.antt =====
-- A workflow of two steps over a small database: the jobs that were finished, and the clock.
use Prim.Native.String.{String}
use data_center.Prelude.{ℕ, suc, ◌≡◌, refl, true, false, none, some, List, [], ◌∷◌, inl}
use data_center.Prelude.Int.{pos, ◌+ℤ◌}
use data_center.Domain.Operations
use data_center.Domain.Operations.{
  partial, succeeded, running, WorkflowRun, JobExecution, Result, finish_run, finish_execution,
  exceeds_fetched, any_negative,
}
use data_center.Domain.Operations.Settled.{closed_job}
use data_center.Operations.Statistics
use data_center.Operations.Statistics.{
  rows_of, StepResult, StepStatistics, Counts, CleanupResult, result_statistics,
}
use data_center.Operations.{
  exception, cleanup_failure, Outcome, done, raised, World, WorkflowExecution, step, succeed, fail,
  start, count_step, close_job, fail_job, complete_job, run_step, settle_step, close_run,
  is_failed_status,
}
use data_center.Operations.Steps.{Steps, stop, next, IsClosed, step-Recorded}
use data_center.Operations.Totals.{succeed-Totals, ended_once}

-- The finished jobs, the latest first, and the time.
abbrev Database : Type 0
Database = List JobExecution × ℕ

abbrev running_job : ℕ → String → ℕ → ℕ → JobExecution
running_job workflow code number time = record {
  job_execution_id = number;
  workflow_run_id = workflow;
  job_code = code;
  sequence_no = number;
  attempt = 1;
  status = running;
  started_at = time;
  finished_at = none;
  fetched_rows = pos 0;
  accepted_rows = pos 0;
  rejected_rows = pos 0;
  error_summary = none;
}

abbrev running_run : ℕ → WorkflowRun
running_run time = record {
  workflow_run_id = 7;
  workflow_code = Operations.daily_market;
  scheduled_for = 3;
  trigger_source = Operations.scheduled;
  attempt = 1;
  status = running;
  started_at = time;
  finished_at = none;
  accepted_rows = pos 0;
  rejected_rows = pos 0;
  error_summary = none;
}

abbrev database : World Database
database = record {
  start_workflow = λ code time trigger e. (done (running_run e.1), e);
  start_job = λ workflow code number e. (done (running_job workflow code number e.1), e);
  finish_job = λ job e. (done tt, (job ∷ e.0, e.1));
  finish_workflow = λ run e. (done tt, e);
  now = λ e. (suc e.1, (e.0, suc e.1));
}

abbrev operation : StepResult → Database → Outcome StepResult × Database
operation result e = (done result, e)

abbrev first_result : StepResult
first_result =
    Statistics.shareholder_count_sync
      (record { fetched_rows = 9; accepted_rows = 6; rejected_rows = 2 })

abbrev second_result : StepResult
second_result = Statistics.row_count (pos 4)

abbrev first_statistics : StepStatistics
first_statistics = record { fetched = pos 9; accepted = pos 6; rejected = pos 2; status = partial }

abbrev second_statistics : StepStatistics
second_statistics = record {
  fetched = pos 4;
  accepted = pos 4;
  rejected = pos 0;
  status = succeeded;
}

abbrev begun : WorkflowExecution
begun = record {
  run = running_run 5;
  accepted_rows = pos 0;
  rejected_rows = pos 0;
  is_partial = false;
}

program : Unit {0}
unfolding step run_step settle_step complete_job close_job fail_job close_run succeed fail start
    finish_execution finish_run result_statistics ◌+ℤ◌
program = tt

abbrev after_first : WorkflowExecution
after_first = record {
  run = running_run 5;
  accepted_rows = pos 6;
  rejected_rows = pos 2;
  is_partial = true;
}

abbrev after_second : WorkflowExecution
after_second = record {
  run = running_run 5;
  accepted_rows = pos 10;
  rejected_rows = pos 2;
  is_partial = true;
}

abbrev first_database : Database
first_database =
    (closed_job (running_job 7 "sync" 1 5) partial 6 (rows_of first_statistics) none ∷ [], 6)

abbrev second_database : Database
second_database = (
  closed_job (running_job 7 "count" 2 6) succeeded 7 (rows_of second_statistics) none
      ∷ first_database.0,
  7,
)

step-first :
    step database "sync" 1 (operation first_result) begun ([], 5)
    ≡ (done first_result, after_first, first_database)
unfolding program
step-first = refl

step-second :
    step database "count" 2 (operation second_result) after_first first_database
    ≡ (done second_result, after_second, second_database)
unfolding program
step-second = refl

statistics-first : result_statistics first_result ≡ some first_statistics
unfolding program
statistics-first = refl

statistics-second : result_statistics second_result ≡ some second_statistics
unfolding program
statistics-second = refl

-- A failed cleanup is recorded as failed, and its rows are counted.
step-failed :
    (step database "clean" 1
      (λ e. (
        raised (
            cleanup_failure "RawCleanupFailure" (
              Statistics.quality_or_raw_cleanup
                (record { scanned = 3; completed = 1; failed = 1; has_errors = true }))),
        e,
      ))
      begun
      ([], 5)).1
    ≡ record begun { accepted_rows = pos 1; rejected_rows = pos 1 }
unfolding program
step-failed = refl

step-Recorded_example :
    (s : StepStatistics) × (result_statistics first_result ≡ some s)
    × (after_first ≡ count_step s begun)
    × (is_failed_status s.status ≡ false)
    × ((job : JobExecution) × (e2 : Database) × (database.start_job 7 "sync" 1 ([], 5)
          ≡ (done job, e2))
        × IsClosed database job s first_database)
step-Recorded_example =
    step-Recorded database "sync" 1 (operation first_result) begun after_first ([], 5)
      first_database first_result step-first

twice :
    Steps database begun
      ([], 5)
      (first_statistics ∷ second_statistics ∷ [])
      after_second
      second_database
twice =
    next "sync" 1 (operation first_result) first_result first_statistics step-first statistics-first
      (next "count" 2 (operation second_result) second_result second_statistics step-second
        statistics-second stop)

abbrev ended_run : WorkflowRun
ended_run = record (running_run 5) {
  status = partial;
  finished_at = some 8;
  accepted_rows = pos 10;
  rejected_rows = pos 2;
}

abbrev ended : WorkflowExecution
ended = record after_second { run = ended_run }

succeed-second :
    succeed database after_second second_database ≡ (done tt, ended, (second_database.0, 8))
unfolding program
succeed-second = refl

start-begun :
    start database Operations.daily_market 3 Operations.scheduled ([], 5) ≡ (done begun, ([], 5))
unfolding program
start-begun = refl

succeed-Totals_example :
    (ended.run.accepted_rows ≡ pos 10)
    × (ended.run.rejected_rows ≡ pos 2)
    × (ended.run.status ≡ partial)
unfolding program
succeed-Totals_example =
    succeed-Totals database Operations.daily_market 3 Operations.scheduled
      (first_statistics ∷ second_statistics ∷ []) begun after_second ended ([], 5) ([], 5) ([], 5)
      second_database second_database (second_database.0, 8) start-begun twice succeed-second

ended_once_example :
    (succeed database ended ([], 9) ≡ (raised (exception "ValueError"), ended, ([], 10)))
    × (fail database (exception "OSError") ended ([], 9)
        ≡ (raised (exception "ValueError"), ended, ([], 10)))
ended_once_example =
    ended_once database after_second ended (exception "OSError") (exception "OSError")
      second_database (second_database.0, 8) ([], 9) (inl succeed-second)
