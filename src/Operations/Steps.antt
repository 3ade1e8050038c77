-- ===== src/Operations/Steps.antt =====
-- What a step records, and what a workflow's totals are after its steps.
use Prim.Native.String.{String}
use mathlib.Core.Option.{some-injective}
use data_center.Prelude.{
  ℕ, ◌≡◌, refl, sym, ap, ◌∙◌, Bool, true, false, ◌||◌, none, some, List, [], ◌∷◌, any, map,
  Option-cases, Bool-cases, inl, inr, ◌⊎◌,
}
use data_center.Prelude.Int.{ℤ, pos, ◌+ℤ◌, +ℤ_assoc, +ℤ_zero}
use data_center.Domain.Operations
use data_center.Domain.Operations.{
  ExecutionStatus, partial, succeeded, failed, WorkflowRun, JobExecution, finish_execution,
  finish_run, is_running,
}
use data_center.Operations.Statistics.{rows_of, StepResult, StepStatistics, result_statistics}
use data_center.Operations.{
  Error, exception, cleanup_failure, no_rows, Outcome, done, raised, World, WorkflowExecution,
  is_partial_status, is_failed_status, count_step, close_job, complete_job, fail_job, step,
  run_step, settle_step,
}

abbrev pub Answers : {A E : Type 0} → Outcome A × E → Type 0
Answers {A} {E} p =
    ((a : A) × (e : E) × (p ≡ (done a, e))) ⊎ ((x : Error) × (e : E) × (p ≡ (raised x, e)))

pub Answers-cases : {A E : Type 0} (p : Outcome A × E) → Answers p
Answers-cases (done a, e) = inl (a, e, refl)
Answers-cases (raised x, e) = inr (x, e, refl)

pub raised_not_done :
    {A C P : Type 0} (x : Error) (a : A) (c d : C)
    → ◌≡◌ {A = Outcome A × C} (raised x, c) (done a, d)
    → P
raised_not_done x a c d h = cc

pub raised_not_done3 :
    {A C E P : Type 0} (x : Error) (a : A) (c d : C) (e f : E)
    → ◌≡◌ {A = Outcome A × C × E} (raised x, c, e) (done a, d, f)
    → P
raised_not_done3 x a c d e f h = cc

done_injective :
    {A C E : Type 0} (a b : A) (c d : C) (e f : E)
    → ◌≡◌ {A = Outcome A × C × E} (done a, c, e) (done b, d, f)
    → (a ≡ b) × (c ≡ d) × (e ≡ f)
done_injective a b c d e f h = (cc, cc, cc)

abbrev Finishes : Operations.Result JobExecution → Type 0
Finishes r =
    ((job : JobExecution) × (r ≡ Operations.ok job))
    ⊎ ((x : Operations.FinishError) × (r ≡ Operations.err x))

Finishes-cases : (r : Operations.Result JobExecution) → Finishes r
Finishes-cases (Operations.ok job) = inl (job, refl)
Finishes-cases (Operations.err x) = inr (x, refl)

module _ {E : Type 0} (world : World E) where
  -- The job was closed with these statistics: `finish` accepted them, and then the database did.
  abbrev pub IsClosed : JobExecution → StepStatistics → E → Type 0
  IsClosed job s e1 =
      (finished : JobExecution) × (time : ℕ) × (e : E) × (finish_execution job s.status time
          (rows_of s) none
        ≡ Operations.ok finished)
      × (world.finish_job finished e ≡ (done tt, e1))

  close_job-done :
      (job : JobExecution) (s : StepStatistics) (e e1 : E)
      → close_job world job s.status (rows_of s) none e ≡ (done tt, e1)
      → IsClosed job s e1
  unfolding close_job
  close_job-done job s e e1 h =
      elim (Finishes-cases (finish_execution job s.status (world.now e).0 (rows_of s) none)) [
        | inl (finished, q) ↦
            (finished, (world.now e).0, (world.now e).1, q, sym (rw (q, close_job) refl) ∙ h)
        | inr (x, q) ↦ raised_not_done _ _ _ _ (rw (q, close_job) at h)
      ]

  complete_job-done :
      (job : JobExecution) (result r : StepResult) (ex ex1 : WorkflowExecution) (e e1 : E)
      → complete_job world job r ex e ≡ (done result, ex1, e1)
      → (s : StepStatistics) × (result_statistics result ≡ some s)
        × (ex1 ≡ count_step s ex)
        × (is_failed_status s.status ≡ false)
        × IsClosed job s e1
  unfolding complete_job
  complete_job-done job result r ex ex1 e e1 h = elim (Option-cases (result_statistics r)) [
    | inl q ↦ raised_not_done3 _ _ _ _ _ _ (rw (q, complete_job) at h)
    | inr (s, q) ↦ elim (Answers-cases (close_job world job s.status (rows_of s) none e)) [
      | inr (x, e2, closing) ↦ raised_not_done3 _ _ _ _ _ _ (rw (q, closing, complete_job) at h)
      | inl (u, e2, closing) ↦ elim (Bool-cases (is_failed_status s.status)) [
        | inl bad ↦ raised_not_done3 _ _ _ _ _ _ (rw (q, closing, bad, complete_job) at h)
        | inr good ↦
            let (same, state, after) =
              done_injective _ _ _ _ _ _ (rw (q, closing, good, complete_job) at h) in
            rw (sym same) (s, q, sym state, good, close_job-done job s e e1 (rw after at closing))
      ]
    ]
  ]

  fail_job-raises :
      (job : JobExecution) (error : Error) (result : StepResult) (ex ex1 : WorkflowExecution)
      (e e1 : E) {P : Type 0}
      → fail_job world job error ex e ≡ (done result, ex1, e1)
      → P
  unfolding fail_job
  fail_job-raises job (exception name) result ex ex1 e e1 h =
      elim (Answers-cases (close_job world job failed no_rows (some name) e)) [
        | inl (u, e2, q) ↦ raised_not_done3 _ _ _ _ _ _ (rw (q, fail_job) at h)
        | inr (x, e2, q) ↦ raised_not_done3 _ _ _ _ _ _ (rw (q, fail_job) at h)
      ]
  fail_job-raises job (cleanup_failure name r) result ex ex1 e e1 h =
      elim (Option-cases (result_statistics r)) [
        | inl q ↦ raised_not_done3 _ _ _ _ _ _ (rw (q, fail_job) at h)
        | inr (s, q) ↦ elim (Answers-cases (close_job world job failed (rows_of s) (some name) e)) [
          | inl (u, e2, c) ↦ raised_not_done3 _ _ _ _ _ _ (rw (q, c, fail_job) at h)
          | inr (x, e2, c) ↦ raised_not_done3 _ _ _ _ _ _ (rw (q, c, fail_job) at h)
        ]
      ]

  -- A step that returns a result has recorded it: the job that it started is finished with the
  -- statistics of the result, which are not those of a failure, in the entity and in the database,
  -- and the workflow has counted them.
  pub step-Recorded :
      (code : String) (number : ℕ) (operation : E → Outcome StepResult × E)
      (ex ex1 : WorkflowExecution) (e e1 : E) (result : StepResult)
      → step world code number operation ex e ≡ (done result, ex1, e1)
      → (s : StepStatistics) × (result_statistics result ≡ some s)
        × (ex1 ≡ count_step s ex)
        × (is_failed_status s.status ≡ false)
        × ((job : JobExecution) × (e2 : E) × (world.start_job ex.run.workflow_run_id code number e
              ≡ (done job, e2))
            × IsClosed job s e1)
  unfolding step run_step settle_step
  step-Recorded code number operation ex ex1 e e1 result h =
      elim (Answers-cases (world.start_job ex.run.workflow_run_id code number e)) [
        | inr (x, e2, q) ↦ raised_not_done3 _ _ _ _ _ _ (rw (q, run_step) at h)
        | inl (job, e2, q) ↦ elim (Answers-cases (operation e2)) [
          | inr (x, e3, o) ↦
              fail_job-raises job x result ex ex1 e3 e1 (rw (q, run_step, o, settle_step) at h)
          | inl (r, e3, o) ↦
              let (s, known, state, good, closed) =
                complete_job-done job result r ex ex1 e3 e1
                  (rw (q, run_step, o, settle_step) at h) in
              (s, known, state, good, (job, e2, q, closed))
        ]
      ]

  -- Steps of a workflow, one after the other, that all returned, with their statistics. Between two
  -- of them the world may change.
  pub data Steps
      : WorkflowExecution → E → List StepStatistics → WorkflowExecution → E → Type 0 where
    stop : {ex : WorkflowExecution} {e : E} → Steps ex e [] ex e
    next :
        {ex ex1 ex2 : WorkflowExecution} {e e1 e2 e3 : E} {all : List StepStatistics}
        (code : String) (number : ℕ) (operation : E → Outcome StepResult × E) (result : StepResult)
        (s : StepStatistics)
        → step world code number operation ex e ≡ (done result, ex1, e1)
        → result_statistics result ≡ some s
        → Steps ex1 e2 all ex2 e3
        → Steps ex e (s ∷ all) ex2 e3

abbrev pub sum_ℤ : List ℤ → ℤ
sum_ℤ [] = pos 0
sum_ℤ (n ∷ ns) = n +ℤ sum_ℤ ns

-- What the workflow has counted after steps with these statistics.
abbrev pub counted_all : List StepStatistics → WorkflowExecution → WorkflowExecution
counted_all all ex = record {
  run = ex.run;
  accepted_rows = ex.accepted_rows +ℤ sum_ℤ (map (λ s. s.accepted) all);
  rejected_rows = ex.rejected_rows +ℤ sum_ℤ (map (λ s. s.rejected) all);
  is_partial = ex.is_partial || any (λ s. is_partial_status s.status) all;
}

or_assoc : (a b c : Bool) → (a || b || c) ≡ (a || (b || c))
or_assoc true b c = refl
or_assoc false b c = refl

or_false : (a : Bool) → (a || false) ≡ a
or_false true = refl
or_false false = refl

counted_all-cons :
    (s : StepStatistics) (all : List StepStatistics) (ex : WorkflowExecution)
    → counted_all all (count_step s ex) ≡ counted_all (s ∷ all) ex
counted_all-cons s all ex = cc (
  +ℤ_assoc ex.accepted_rows s.accepted (sum_ℤ (map (λ s. s.accepted) all)),
  +ℤ_assoc ex.rejected_rows s.rejected (sum_ℤ (map (λ s. s.rejected) all)),
  or_assoc ex.is_partial (is_partial_status s.status) (any (λ s. is_partial_status s.status) all),
)

module _ {E : Type 0} (world : World E) where
  pub Steps-counted :
      {ex ex1 : WorkflowExecution} {e e1 : E} {all : List StepStatistics}
      → Steps world ex e all ex1 e1
      → ex1 ≡ counted_all all ex
  Steps-counted (stop {ex}) =
      sym (cc (+ℤ_zero ex.accepted_rows, +ℤ_zero ex.rejected_rows, or_false ex.is_partial))
  Steps-counted (next {ex} {ex1} {all = all} code number operation result s returned known steps) =
      let (s1, known1, state, good, closed) =
        step-Recorded world code number operation ex ex1 _ _ result returned in
      let same = some-injective s s1 (sym known ∙ known1) in
      Steps-counted steps
      ∙ ap (counted_all all) (state ∙ ap (λ t. count_step t ex) (sym same))
      ∙ counted_all-cons s all ex
