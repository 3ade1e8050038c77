-- ===== src/Domain/Operations.antt =====
-- Workflow runs and job executions (src/market_data_center/domain/operations.py). An instant and a
-- UUID are numbers, a row count is an integer.
pub mod Settled
use Prim.Native.String.{String}
use data_center.Prelude.{ℕ, Bool, true, false, not, ◌||◌, Option, none, some, ltb, if◌then◌else◌}
use data_center.Prelude.Int.{ℤ, pos, ltb_ℤ, ◌+ℤ◌}

pub data ExecutionStatus : Type 0 where
  running succeeded failed partial : ExecutionStatus

pub data TriggerSource : Type 0 where
  scheduled manual recovery : TriggerSource

pub data WorkflowCode : Type 0 where
  daily_market stock_daily_indicator stock_technical_factor stale_run_recovery : WorkflowCode
  deducted_profit stock_pool auction_collection eod_quote_snapshot : WorkflowCode
  call_auction_market_snapshot call_auction_market_series : WorkflowCode
  call_auction_market_series_archive call_auction_snapshot pytdx_pool_refresh : WorkflowCode
  today_limit_up_snapshot today_limit_down_snapshot close_price_new_highs_120d : WorkflowCode
  board_index_daily_bar shareholder_count_daily shareholder_count_backfill : WorkflowCode
  top10_float_holders_weekly board_moneyflow_daily security_bse_daily : WorkflowCode
  dragon_tiger_daily dragon_tiger_seat_profile regulation_daily_calculation : WorkflowCode
  data_cleanup : WorkflowCode

pub record WorkflowRun : Type 0 where
  pub workflow_run_id : ℕ
  pub workflow_code : WorkflowCode
  pub scheduled_for : ℕ
  pub trigger_source : TriggerSource
  pub attempt : ℕ
  pub status : ExecutionStatus
  pub started_at : ℕ
  pub finished_at : Option ℕ
  pub accepted_rows : ℤ
  pub rejected_rows : ℤ
  pub error_summary : Option String

pub record JobExecution : Type 0 where
  pub job_execution_id : ℕ
  pub workflow_run_id : ℕ
  pub job_code : String
  pub sequence_no : ℕ
  pub attempt : ℕ
  pub status : ExecutionStatus
  pub started_at : ℕ
  pub finished_at : Option ℕ
  pub fetched_rows : ℤ
  pub accepted_rows : ℤ
  pub rejected_rows : ℤ
  pub error_summary : Option String

-- The `ValueError`s of the two methods `finish`.
pub data FinishError : Type 0 where
  not_running not_terminal negative_rows too_many_rows finish_precedes_start : FinishError

pub data Result (A : Type 0) : Type 0 where
  ok : A → Result A
  err : FinishError → Result A

abbrev pub is_running : ExecutionStatus → Bool
is_running running = true
is_running succeeded = false
is_running failed = false
is_running partial = false

-- The keyword arguments of `JobExecution.finish`.
pub record Rows : Type 0 where
  pub fetched : ℤ
  pub accepted : ℤ
  pub rejected : ℤ

-- `min(fetched_rows, accepted_rows, rejected_rows) < 0`
abbrev pub any_negative : Rows → Bool
any_negative rows =
    ltb_ℤ rows.fetched (pos 0) || ltb_ℤ rows.accepted (pos 0) || ltb_ℤ rows.rejected (pos 0)

-- `accepted_rows + rejected_rows > fetched_rows`
abbrev pub exceeds_fetched : Rows → Bool
exceeds_fetched rows = ltb_ℤ rows.fetched (rows.accepted +ℤ rows.rejected)

-- `WorkflowRun.finish`
unfoldable pub finish_run :
    WorkflowRun → ExecutionStatus → ℕ → ℤ → ℤ → Option String → Result WorkflowRun
finish_run run status finished_at accepted rejected summary =
    if not (is_running run.status)
    then err not_running
    else if is_running status
    then err not_terminal
    else if ltb finished_at run.started_at
    then err finish_precedes_start
    else ok (record run {
      status = status;
      finished_at = some finished_at;
      accepted_rows = accepted;
      rejected_rows = rejected;
      error_summary = summary;
    })

-- `JobExecution.finish`
unfoldable pub finish_execution :
    JobExecution → ExecutionStatus → ℕ → Rows → Option String → Result JobExecution
finish_execution job status finished_at rows summary =
    if not (is_running job.status)
    then err not_running
    else if is_running status
    then err not_terminal
    else if any_negative rows
    then err negative_rows
    else if exceeds_fetched rows
    then err too_many_rows
    else if ltb finished_at job.started_at
    then err finish_precedes_start
    else ok (record job {
      status = status;
      finished_at = some finished_at;
      fetched_rows = rows.fetched;
      accepted_rows = rows.accepted;
      rejected_rows = rows.rejected;
      error_summary = summary;
    })
