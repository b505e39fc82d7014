-- ===== src/Repository/Runs/Refused.antt =====
-- A conditional write of a run that DynamoDB does not take.
use dahlia.Common.{ℕ, none, some, ◌∷◌, ◌≡◌, ◌||◌, arith, [], Bool-cases, inl, inr}
use dahlia.Errors.{
  Error, wrap, optimistic_lock_failed, is_optimistic_lock_error, as_conditional_check_failed,
}
use dahlia.Domain.{WorkflowRun}
use dahlia.Runtime.{workflow_runs, of_run, unchanged_since, put, Env, World, errored, ◌>>=◌}
use dahlia.Repository.Runs.{update}

-- If the run can be marshalled and DynamoDB answers its conditional write with an error, the update
-- fails after that one write; its error counts as an optimistic lock failure exactly if the answer
-- is a failed check of the condition, or wraps such a failure itself.
pub update-refused :
    {S : Type 0} (run : WorkflowRun) (expected : ℕ) (env : Env) (w : World S) (e : Error)
    → env.marshal (of_run run) ≡ none
    → env.put_item w.trace workflow_runs (of_run run) (unchanged_since expected) ≡ some e
    → let (r, w') = update run expected env w in
      (e' : Error) × (r ≡ errored e')
      × (is_optimistic_lock_error e'
          ≡ (as_conditional_check_failed e || is_optimistic_lock_error e))
      × (w'.trace ≡ put workflow_runs (of_run run) (unchanged_since expected) (some e) ∷ w.trace)
unfolding update is_optimistic_lock_error ◌>>=◌
update-refused run expected env w e marshals refuses =
    elim (Bool-cases (as_conditional_check_failed e)) [
      | inl failed ↦ (
        wrap "%w: run_id=%s" (run.run_id ∷ []) optimistic_lock_failed,
        ground arith,
        ground arith,
        ground arith,
      )
      | inr other ↦ (wrap "failed to update run" [] e, ground arith, ground arith, ground arith)
    ]
