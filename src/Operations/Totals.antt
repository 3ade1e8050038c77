-- ===== src/Operations/Totals.antt =====
-- The end of a workflow: its totals, its status, and that it ends once.
use Prim.Native.String.{String}
use data_center.Prelude.{
  ℕ, ◌≡◌, refl, sym, ap, ◌∙◌, false, Option, none, List, any, map, inl, inr, ◌⊎◌, if◌then◌else◌,
}
use data_center.Prelude.Int.{ℤ, pos, ◌+ℤ◌, +ℤ_zero, +ℤ_comm}
use data_center.Domain.Operations
use data_center.Domain.Operations.{
  ExecutionStatus, partial, succeeded, failed, WorkflowRun, finish_run, is_running,
}
use data_center.Domain.Operations.Settled.{finish_run-ok, finish_run-settled}
use data_center.Operations.Statistics.{StepStatistics}
use data_center.Operations.{
  Error, exception, Outcome, done, raised, World, WorkflowExecution, is_partial_status, close_run,
  succeed, fail, start,
}
use data_center.Operations.Steps.{
  Steps, Steps-counted, sum_ℤ, raised_not_done, raised_not_done3, Answers-cases,
}

abbrev Ends : Operations.Result WorkflowRun → Type 0
Ends r =
    ((run : WorkflowRun) × (r ≡ Operations.ok run))
    ⊎ ((x : Operations.FinishError) × (r ≡ Operations.err x))

Ends-cases : (r : Operations.Result WorkflowRun) → Ends r
Ends-cases (Operations.ok run) = inl (run, refl)
Ends-cases (Operations.err x) = inr (x, refl)

done_injective2 :
    {A C : Type 0} (a b : A) (c d : C) → ◌≡◌ {A = Outcome A × C} (done a, c) (done b, d) → a ≡ b
done_injective2 a b c d h = cc

zero_+ℤ : (a : ℤ) → pos 0 +ℤ a ≡ a
zero_+ℤ a = +ℤ_comm (pos 0) a ∙ +ℤ_zero a

module _ {E : Type 0} (world : World E) where
  close_run-done :
      (status : ExecutionStatus) (summary : Option String) (ex ex1 : WorkflowExecution) (e e1 : E)
      → close_run world status summary ex e ≡ (done tt, ex1, e1)
      → (ex1.run.accepted_rows ≡ ex.accepted_rows)
        × (ex1.run.rejected_rows ≡ ex.rejected_rows)
        × (ex1.run.status ≡ status)
        × (is_running status ≡ false)
  unfolding close_run
  close_run-done status summary ex ex1 e e1 h =
      elim (Ends-cases
        (finish_run ex.run status (world.now e).0 ex.accepted_rows ex.rejected_rows summary)) [
          | inr (x, q) ↦ raised_not_done3 _ _ _ _ _ _ (rw (q, close_run) at h)
          | inl (run, q) ↦
              let (terminal, after, eq) = finish_run-ok ex.run status _ _ _ summary run q in
              let state : record ex { run = run } ≡ ex1 = ap (λ p. p.1) (rw (q, close_run) at h) in
              rw (sym state, sym eq) (refl, refl, refl, terminal)
        ]

  start-done :
      (code : Operations.WorkflowCode) (scheduled_for : ℕ) (trigger : Operations.TriggerSource)
      (ex : WorkflowExecution) (e e1 : E)
      → start world code scheduled_for trigger e ≡ (done ex, e1)
      → (ex.accepted_rows ≡ pos 0) × (ex.rejected_rows ≡ pos 0) × (ex.is_partial ≡ false)
  unfolding start
  start-done code scheduled_for trigger ex e e1 h =
      elim (Answers-cases (world.start_workflow code scheduled_for trigger e)) [
        | inr (x, e2, q) ↦ raised_not_done _ _ _ _ (rw (q, start) at h)
        | inl (run, e2, q) ↦
            let begun = done_injective2 _ _ _ _ (rw (q, start) at h) in
            rw (sym begun) (refl, refl, refl)
      ]

  -- A workflow that starts, takes any number of steps that return, and then succeeds, is finished
  -- with the sums of the rows that the steps accepted and rejected, and as partial exactly if a step
  -- was partial.
  pub succeed-Totals :
      (code : Operations.WorkflowCode) (scheduled_for : ℕ) (trigger : Operations.TriggerSource)
      (all : List StepStatistics) (ex ex1 ex2 : WorkflowExecution) (e e1 e2 e3 e4 e5 : E)
      → start world code scheduled_for trigger e ≡ (done ex, e1)
      → Steps world ex e2 all ex1 e3
      → succeed world ex1 e4 ≡ (done tt, ex2, e5)
      → (ex2.run.accepted_rows ≡ sum_ℤ (map (λ s. s.accepted) all))
        × (ex2.run.rejected_rows ≡ sum_ℤ (map (λ s. s.rejected) all))
        × (ex2.run.status
            ≡ (if any (λ s. is_partial_status s.status) all then partial else succeeded))
  unfolding succeed
  succeed-Totals code scheduled_for trigger all ex ex1 ex2 e e1 e2 e3 e4 e5 begun steps ended =
      let (accepted, rejected, complete) = start-done code scheduled_for trigger ex e e1 begun in
      let counted = Steps-counted world steps in
      let (a, r, status, terminal) = close_run-done _ none ex1 ex2 e4 e5 ended in
      (
        a ∙ ap (λ x. x.accepted_rows) counted ∙ rw accepted (zero_+ℤ _),
        r ∙ ap (λ x. x.rejected_rows) counted ∙ rw rejected (zero_+ℤ _),
        status ∙ ap (λ x. if x.is_partial then partial else succeeded) counted ∙ rw complete refl,
      )

  close_run-settled :
      (status : ExecutionStatus) (summary : Option String) (ex : WorkflowExecution) (e : E)
      → is_running ex.run.status ≡ false
      → close_run world status summary ex e ≡ (raised (exception "ValueError"), ex, (world.now e).1)
  unfolding close_run
  close_run-settled status summary ex e h = rw (finish_run-settled ex.run h, close_run) refl

  -- A workflow that has ended, by `succeed` or by `fail`, does not end again: either raises a
  -- `ValueError`, and only the clock has been read.
  pub ended_once :
      (ex ex1 : WorkflowExecution) (error later : Error) (e e1 e2 : E)
      → (succeed world ex e ≡ (done tt, ex1, e1)) ⊎ (fail world error ex e ≡ (done tt, ex1, e1))
      → (succeed world ex1 e2 ≡ (raised (exception "ValueError"), ex1, (world.now e2).1))
        × (fail world later ex1 e2 ≡ (raised (exception "ValueError"), ex1, (world.now e2).1))
  unfolding succeed fail
  ended_once ex ex1 error later e e1 e2 ended =
      let settled : is_running ex1.run.status ≡ false = elim ended [
        | inl h ↦
            let (a, r, status, terminal) = close_run-done _ _ ex ex1 e e1 h in
            ap is_running status ∙ terminal
        | inr h ↦
            let (a, r, status, terminal) = close_run-done _ _ ex ex1 e e1 h in
            ap is_running status ∙ terminal
      ] in
      (close_run-settled _ _ ex1 e2 settled, close_run-settled _ _ ex1 e2 settled)
