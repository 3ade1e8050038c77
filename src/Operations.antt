-- ===== src/Operations.antt =====
-- Durable workflow and step records (src/market_data_center/operations_service.py). The database and
-- the clock are a world `E`; its operations are parameters that may answer or raise.
pub mod Statistics
pub mod Steps
pub mod Totals
mod Tests
use Prim.Native.String.{String}
use data_center.Prelude.{ℕ, Bool, true, false, ◌||◌, Option, none, some, if◌then◌else◌}
use data_center.Prelude.Int.{ℤ, pos, ◌+ℤ◌}
use data_center.Domain.Operations
use data_center.Domain.Operations.{
  ExecutionStatus, failed, succeeded, partial, WorkflowCode, TriggerSource, WorkflowRun,
  JobExecution, Rows, finish_run, finish_execution,
}
use Statistics.{rows_of, StepResult, StepStatistics, result_statistics}

-- An exception by the name of its type; the three failures of a cleanup carry their result.
pub data Error : Type 0 where
  cleanup_failure : String → StepResult → Error
  exception : String → Error

pub data Outcome (A : Type 0) : Type 0 where
  done : A → Outcome A
  raised : Error → Outcome A

-- `type(error).__name__`, which is shorter than the 200 characters that are kept.
abbrev safe_error_summary : Error → String
safe_error_summary (cleanup_failure name result) = name
safe_error_summary (exception name) = name

pub record World (E : Type 0) : Type 0 where
  pub start_workflow : WorkflowCode → ℕ → TriggerSource → E → Outcome WorkflowRun × E
  pub start_job : ℕ → String → ℕ → E → Outcome JobExecution × E
  pub finish_job : JobExecution → E → Outcome (Unit {0}) × E
  pub finish_workflow : WorkflowRun → E → Outcome (Unit {0}) × E
  pub now : E → ℕ × E

pub record WorkflowExecution : Type 0 where
  pub run : WorkflowRun
  pub accepted_rows : ℤ
  pub rejected_rows : ℤ
  pub is_partial : Bool

abbrev pub is_partial_status : ExecutionStatus → Bool
is_partial_status partial = true
is_partial_status Operations.running = false
is_partial_status succeeded = false
is_partial_status failed = false

abbrev is_failed_status : ExecutionStatus → Bool
is_failed_status failed = true
is_failed_status partial = false
is_failed_status Operations.running = false
is_failed_status succeeded = false

abbrev pub add_rows : StepStatistics → WorkflowExecution → WorkflowExecution
add_rows s ex = record ex {
  accepted_rows = ex.accepted_rows +ℤ s.accepted;
  rejected_rows = ex.rejected_rows +ℤ s.rejected;
}

abbrev pub count_step : StepStatistics → WorkflowExecution → WorkflowExecution
count_step s ex = record ex {
  accepted_rows = ex.accepted_rows +ℤ s.accepted;
  rejected_rows = ex.rejected_rows +ℤ s.rejected;
  is_partial = ex.is_partial || is_partial_status s.status;
}

abbrev no_rows : Rows
no_rows = record { fetched = pos 0; accepted = pos 0; rejected = pos 0 }

module _ {E : Type 0} (world : World E) where
  -- `finish_job(job.finish(status, now, ...))`
  close_job : JobExecution → ExecutionStatus → Rows → Option String → E → Outcome (Unit {0}) × E
  close_job job status rows summary e =
      let (time, e1) = world.now e in
      elim (finish_execution job status time rows summary) [
        | Operations.err _ ↦ (raised (exception "ValueError"), e1)
        | Operations.ok finished ↦ world.finish_job finished e1
      ]

  -- The job is closed as failed, and the error goes on, unless the closing raises one itself.
  abbrev reraise : Error → Outcome (Unit {0}) × E → Outcome StepResult × E
  reraise error (done _, e) = (raised error, e)
  reraise error (raised later, e) = (raised later, e)

  fail_job :
      JobExecution → Error → WorkflowExecution → E → Outcome StepResult × WorkflowExecution × E
  fail_job job (exception name) ex e =
      let (result, e1) = reraise (exception name) (close_job job failed no_rows (some name) e) in
      (result, ex, e1)
  fail_job job (cleanup_failure name result) ex e = elim (result_statistics result) [
    | none ↦ (raised (exception "KeyError"), ex, e)
    | some s ↦
        let (outcome, e1) =
          reraise (cleanup_failure name result) (close_job job failed (rows_of s) (some name) e) in
        (outcome, add_rows s ex, e1)
  ]

  -- The end of a step whose job is closed.
  abbrev deliver : StepResult → ExecutionStatus → Outcome (Unit {0}) × E → Outcome StepResult × E
  deliver result status (raised error, e) = (raised error, e)
  deliver result status (done _, e) =
      (if is_failed_status status then raised (exception "RecordedStepFailed") else done result, e)

  complete_job :
      JobExecution → StepResult → WorkflowExecution → E → Outcome StepResult × WorkflowExecution × E
  complete_job job result ex e = elim (result_statistics result) [
    | none ↦ (raised (exception "KeyError"), ex, e)
    | some s ↦
        let (outcome, e1) = deliver result s.status (close_job job s.status (rows_of s) none e) in
        (outcome, count_step s ex, e1)
  ]

  -- The step behind the `try`, whose operation has answered.
  settle_step :
      JobExecution
      → WorkflowExecution
      → Outcome StepResult × E
      → Outcome StepResult × WorkflowExecution × E
  settle_step job ex (done result, e) = complete_job job result ex e
  settle_step job ex (raised error, e) = fail_job job error ex e

  run_step :
      (E → Outcome StepResult × E)
      → WorkflowExecution
      → Outcome JobExecution × E
      → Outcome StepResult × WorkflowExecution × E
  run_step operation ex (raised error, e) = (raised error, ex, e)
  run_step operation ex (done job, e) = settle_step job ex (operation e)

  pub step :
      String
      → ℕ
      → (E → Outcome StepResult × E)
      → WorkflowExecution
      → E
      → Outcome StepResult × WorkflowExecution × E
  step job_code sequence_no operation ex e =
      run_step operation ex (world.start_job ex.run.workflow_run_id job_code sequence_no e)

  -- `self.run = self.run.finish(...)`, then `finish_workflow(self.run)`.
  close_run :
      ExecutionStatus
      → Option String
      → WorkflowExecution
      → E
      → Outcome (Unit {0}) × WorkflowExecution × E
  close_run status summary ex e =
      let (time, e1) = world.now e in
      elim (finish_run ex.run status time ex.accepted_rows ex.rejected_rows summary) [
        | Operations.err _ ↦ (raised (exception "ValueError"), ex, e1)
        | Operations.ok run ↦
            let (outcome, e2) = world.finish_workflow run e1 in
            (outcome, record ex { run = run }, e2)
      ]

  pub succeed : WorkflowExecution → E → Outcome (Unit {0}) × WorkflowExecution × E
  succeed ex e = close_run (if ex.is_partial then partial else succeeded) none ex e

  pub fail : Error → WorkflowExecution → E → Outcome (Unit {0}) × WorkflowExecution × E
  fail error ex e = close_run failed (some (safe_error_summary error)) ex e

  -- `WorkflowExecutionService.start`
  pub start : WorkflowCode → ℕ → TriggerSource → E → Outcome WorkflowExecution × E
  start code scheduled_for trigger e =
      let (started, e1) = world.start_workflow code scheduled_for trigger e in
      elim started [
        | raised error ↦ (raised error, e1)
        | done run ↦ (
          done (record {
            run = run;
            accepted_rows = pos 0;
            rejected_rows = pos 0;
            is_partial = false;
          }),
          e1,
        )
      ]
