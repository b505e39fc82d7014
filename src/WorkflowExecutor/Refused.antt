-- ===== src/WorkflowExecutor/Refused.antt =====
-- An action of a run that another process has written in the meantime.
use dahlia.Common.{ℕ, suc, pos, none, some, [], ◌∷◌, ◌≡◌, refl, ap, ◌∙◌, List, true, false}
use dahlia.Errors.{
  Error, wrap, optimistic_lock_failed, conditional_check_failed, is_optimistic_lock_error,
}
use dahlia.Decimal.{format_int}
use dahlia.Domain.{Signal, Fields, Action, WorkflowRun, failed}
use dahlia.Runtime.{
  workflow_runs, Item, of_run, unchanged_since, put, read_clock, Trace, Env, World, errored,
  returned, Go, get, ignore, catch, wrapping, raise, pure, ◌>>=◌,
}
use dahlia.Runtime.Steps.{
  bind-returned, bind-errored, wrapping-errored, catch-errored, ignore-errored,
}
use dahlia.Clock.{now}
use dahlia.Run
use dahlia.Repository.Runs
use dahlia.WorkflowExecutor.{
  save_after, prepare_action, execute_by_type, execute_single_action, handle_action_failure,
  execute_actions,
}
use dahlia.WorkflowExecutor.Messages.{at_index}

-- DynamoDB refuses the conditional writes of runs: the stored run has another updated_at.
pub record RefusesRuns (env : Env) : Type 0 where
  pub marshals : (item : Item) → env.marshal item ≡ none
  pub refuses :
      (t : Trace) (item : Item) (since : ℕ)
      → env.put_item t workflow_runs item (unchanged_since since) ≡ some conditional_check_failed

abbrev lost : WorkflowRun → Error
lost run = wrap "%w: run_id=%s" (run.run_id ∷ []) optimistic_lock_failed

-- the world after a refused write of the run that it holds
abbrev refused_write : ℕ → World WorkflowRun → World WorkflowRun
refused_write since w = record w {
  trace =
      put workflow_runs (of_run w.local) (unchanged_since since) (some conditional_check_failed)
      ∷ w.trace;
}

module _ (env : Env) (lost_race : RefusesRuns env) where
  update_refused :
      (since : ℕ) (w : World WorkflowRun)
      → Runs.update w.local since env w ≡ (errored (lost w.local), refused_write since w)
  unfolding Runs.update ◌>>=◌
  update_refused since w =
      rw (lost_race.marshals (of_run w.local), lost_race.refuses w.trace (of_run w.local) since)

  save_after-refused :
      (change : Go WorkflowRun (Unit {0})) (w w' : World WorkflowRun)
      → change env w ≡ (returned tt, w')
      → save_after change env w ≡ (errored (lost w'.local), refused_write w.local.updated_at w')
  unfolding save_after ◌>>=◌
  save_after-refused change w w' h =
      bind-returned change (λ _. get >>= λ run. Runs.update run w.local.updated_at) env w w' tt h
      ∙ update_refused w.local.updated_at w'

  prepare_action-refused :
      (action : Action) (i : ℕ) (w : World WorkflowRun)
      → let w' = (Run.set_action_started_status (pos i) env w).1 in
        prepare_action action i env w ≡ (
          errored (wrap "failed to update run status" [] (lost w'.local)),
          refused_write w.local.updated_at w',
        )
  unfolding prepare_action Run.set_action_started_status now ◌>>=◌
  prepare_action-refused action i w =
      bind-errored
        (wrapping "failed to update run status"
          (save_after (Run.set_action_started_status (pos i))))
        _ env w _ _
        (wrapping-errored (save_after (Run.set_action_started_status (pos i))) env w _
          "failed to update run status" _
          (save_after-refused (Run.set_action_started_status (pos i)) w _ refl))

  single-refused :
      (action : Action) (signal : Signal) (run_context : Fields) (i : ℕ) (w : World WorkflowRun)
      → let w' = (Run.set_action_started_status (pos i) env w).1 in
        execute_single_action action signal run_context i env w ≡ (
          errored (wrap "failed to update run status" [] (lost w'.local)),
          refused_write w.local.updated_at w',
        )
  unfolding execute_single_action ◌>>=◌
  single-refused action signal run_context i w =
      bind-errored (prepare_action action i)
        (execute_by_type action.type action signal run_context i) env w _ _
        (prepare_action-refused action i w)

  handle-refused :
      (i : ℕ) (e : Error) (w : World WorkflowRun)
      → let w' = (Run.mark_failed env w).1 in
        handle_action_failure i e env w ≡ (
          errored (wrap "action %d failed" (format_int (pos i) ∷ []) e),
          refused_write w.local.updated_at w',
        )
  unfolding handle_action_failure Run.mark_failed now ◌>>=◌
  handle-refused i e w =
      bind-returned (ignore (save_after Run.mark_failed))
        (λ _. raise (wrap "action %d failed" (format_int (pos i) ∷ []) e)) env w _ tt
        (ignore-errored (save_after Run.mark_failed) env w _ _
          (save_after-refused Run.mark_failed w _ refl))

-- If DynamoDB refuses the conditional writes of runs, the loop over a row of actions ends at its first
-- action with an error that counts as an optimistic lock failure. Its calls are the refused write of the
-- started run and a refused write of the failed run, each after a clock reading, and nothing else: no
-- message, no log, no job. The second write expects the time that the first one was to store, which
-- is not the one in the table.
pub execute_actions-refused :
    (action : Action) (actions : List Action) (signal : Signal) (run_context : Fields) (i : ℕ)
    (env : Env) (w : World WorkflowRun)
    → RefusesRuns env
    → let (r, w') = execute_actions signal run_context i (action ∷ actions) env w in
      (e : Error) × (started : WorkflowRun) × (failed_run : WorkflowRun) × (r ≡ errored e)
      × (is_optimistic_lock_error e ≡ true)
      × (started.updated_at ≡ env.now w.trace)
      × (failed_run.status ≡ failed)
      × (w'.trace
          ≡ put workflow_runs
              (of_run failed_run)
              (unchanged_since started.updated_at)
              (some conditional_check_failed)
            ∷ read_clock failed_run.updated_at
            ∷ put workflow_runs
                (of_run started)
                (unchanged_since w.local.updated_at)
                (some conditional_check_failed)
            ∷ read_clock started.updated_at
            ∷ w.trace)
unfolding execute_actions Run.set_action_started_status Run.mark_failed now is_optimistic_lock_error
    ◌>>=◌
execute_actions-refused action actions signal run_context i env w lost_race =
    let context = at_index i run_context in
    let w₁ : World WorkflowRun = (Run.set_action_started_status (pos i) env w).1 in
    let w₂ : World WorkflowRun = refused_write w.local.updated_at w₁ in
    let w₃ : World WorkflowRun = (Run.mark_failed env w₂).1 in
    let e = wrap "failed to update run status" [] (lost w₁.local) in
    let done =
      bind-errored (catch (handle_action_failure i) (execute_single_action action signal context i))
        (elim [ true ↦ pure tt | false ↦ execute_actions signal context (suc i) actions ]) env w
        (refused_write w₂.local.updated_at w₃) (wrap "action %d failed" (format_int (pos i) ∷ []) e)
        (catch-errored (execute_single_action action signal context i) env w w₂
            (handle_action_failure i) e (single-refused env lost_race action signal context i w)
          ∙ handle-refused env lost_race i e w₂) in
    (
      wrap "action %d failed" (format_int (pos i) ∷ []) e,
      w₁.local,
      w₃.local,
      ap (λ p. p.0) done,
      refl,
      refl,
      refl,
      ap (λ p. p.1.trace) done,
    )
