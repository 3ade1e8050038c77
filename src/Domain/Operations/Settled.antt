-- ===== src/Domain/Operations/Settled.antt =====
-- What the two methods `finish` give, and that they give it once.
use Prim.Native.String.{String}
use data_center.Prelude.{ℕ, ◌≤◌, ◌≡◌, true, false, Option, some, arith, ltb}
use data_center.Prelude.Int.{ℤ}
use data_center.Domain.Operations.{
  ExecutionStatus, WorkflowRun, JobExecution, not_running, ok, err, is_running, Rows, any_negative,
  exceeds_fetched, finish_run, finish_execution,
}

-- A job that has ended: its status is terminal, its rows add up, its end is not before its start.
abbrev pub IsSettled : JobExecution → Type 0
IsSettled job =
    (is_running job.status ≡ false)
    × (any_negative (record {
      fetched = job.fetched_rows;
      accepted = job.accepted_rows;
      rejected = job.rejected_rows;
    })
        ≡ false)
    × (exceeds_fetched (record {
      fetched = job.fetched_rows;
      accepted = job.accepted_rows;
      rejected = job.rejected_rows;
    })
        ≡ false)
    × ((t : ℕ) × (job.finished_at ≡ some t) × (job.started_at ≤ t))

abbrev pub closed_job : JobExecution → ExecutionStatus → ℕ → Rows → Option String → JobExecution
closed_job job status now rows summary = record job {
  status = status;
  finished_at = some now;
  fetched_rows = rows.fetched;
  accepted_rows = rows.accepted;
  rejected_rows = rows.rejected;
  error_summary = summary;
}

pub finish_execution-ok :
    (job : JobExecution) (status : ExecutionStatus) (now : ℕ) (rows : Rows)
    (summary : Option String) (finished : JobExecution)
    → finish_execution job status now rows summary ≡ ok finished
    → (is_running status ≡ false)
      × (any_negative rows ≡ false)
      × (exceeds_fetched rows ≡ false)
      × (job.started_at ≤ now)
      × (closed_job job status now rows summary ≡ finished)
unfolding finish_execution
finish_execution-ok job status now rows summary finished h = ground (arith, h)

-- Every guard passed, `finish` gives the finished job.
pub finish_execution-accepts :
    (job : JobExecution) (status : ExecutionStatus) (now : ℕ) (rows : Rows)
    (summary : Option String)
    → is_running job.status ≡ true
    → is_running status ≡ false
    → any_negative rows ≡ false
    → exceeds_fetched rows ≡ false
    → job.started_at ≤ now
    → finish_execution job status now rows summary ≡ ok (closed_job job status now rows summary)
unfolding finish_execution
finish_execution-accepts job status now rows summary fresh terminal positive balanced later =
    ground (arith, fresh, terminal, positive, balanced, later)

pub finish_run-ok :
    (run : WorkflowRun) (status : ExecutionStatus) (now : ℕ) (accepted rejected : ℤ)
    (summary : Option String) (finished : WorkflowRun)
    → finish_run run status now accepted rejected summary ≡ ok finished
    → (is_running status ≡ false)
      × (ltb now run.started_at ≡ false)
      × (record run {
        status = status;
        finished_at = some now;
        accepted_rows = accepted;
        rejected_rows = rejected;
        error_summary = summary;
      }
          ≡ finished)
unfolding finish_run
finish_run-ok run status now accepted rejected summary finished h = ground (arith, h)

pub finish_run-settled :
    (run : WorkflowRun)
    → is_running run.status ≡ false
    → (status : ExecutionStatus) (now : ℕ) (accepted rejected : ℤ) (summary : Option String)
    → finish_run run status now accepted rejected summary ≡ err not_running
unfolding finish_run
finish_run-settled run h status now accepted rejected summary = rw h
