-- ===== src/WorkflowExecutor/Completed.antt =====
-- A run whose calls all succeed.
use dahlia.Common.{
  ℕ, suc, ◌≡◌, sym, ap, ◌++◌, append-nil, ◌∙◌, List, [], ◌∷◌, inl, inr, All, true, false, arith,
}
use dahlia.Domain.{Signal, Fields, Action, WorkflowRun, completed}
use dahlia.Runtime.{
  workflow_runs, of_run, unchanged_since, Env, World, Exit, returned, read_clock, pure, catch,
  errored, panicked, ◌>>=◌,
}
use dahlia.Clock.{now}
use dahlia.Run
use dahlia.Repository.Runs
use dahlia.ActionExecutor.Instant.{IsInstant}
use dahlia.Runtime.Steps.{bind-returned, catch-returned}
use mathlib.Core.Path.{subst}
use dahlia.ActionExecutor.Messages.{sent}
use dahlia.WorkflowExecutor.Messages.{
  at_index, messages_of_all, EndsInDelay, Covers, execute_actions-sent,
}
use dahlia.WorkflowExecutor.{
  save_after, execute_single_action, complete_workflow, execute_actions, handle_action_failure,
}
use dahlia.WorkflowExecutor.Accepted.{AcceptsAll, single-false}

abbrev IsCompleted : Exit (Unit {0}) × World WorkflowRun → Type 0
IsCompleted (r, w') = (r ≡ returned tt) × (w'.local.status ≡ completed)

module _ {env : Env} (accepts : AcceptsAll env) where
  complete-IsCompleted : (w : World WorkflowRun) → IsCompleted (complete_workflow env w)
  unfolding complete_workflow save_after Run.mark_completed now Runs.update ◌>>=◌
  complete-IsCompleted w =
      let run : WorkflowRun = (Run.mark_completed env w).1.local in
      let t = read_clock (env.now w.trace) ∷ w.trace in
      let marshalled = accepts.marshals (of_run run) in
      let stored =
        accepts.stores t workflow_runs (of_run run) (unchanged_since w.local.updated_at) in
      (rw (marshalled, stored), rw (marshalled, stored))

  loop-IsCompleted :
      (actions : List Action) (signal : Signal) (run_context : Fields) (i : ℕ)
      (w : World WorkflowRun)
      → All (λ action. IsInstant action.type) actions
      → IsCompleted (execute_actions signal run_context i actions env w)
  unfolding execute_actions
  loop-IsCompleted [] signal run_context i w all = complete-IsCompleted w
  loop-IsCompleted (action ∷ actions) signal run_context i w (instant, all) =
      let context = at_index i run_context in
      let single = execute_single_action action signal context i in
      let w' = (single env w).1 in
      subst (λ p. IsCompleted p)
        (sym (
          bind-returned (catch (handle_action_failure i) single)
            (elim [ true ↦ pure tt | false ↦ execute_actions signal context (suc i) actions ]) env w
            w' false
            (catch-returned single env w w' (handle_action_failure i) false
              (ap (λ e. (e, w')) (single-false accepts action signal context i w instant)))))
        (loop-IsCompleted actions signal context (suc i) w' all)

-- a row of instant actions has no delay at the end of its first part
not_delayed :
    (done rest : List Action)
    → All (λ action. IsInstant action.type) (done ++ rest)
    → EndsInDelay done
    → ⊥
not_delayed [] rest all ends = ends
not_delayed (action ∷ []) rest (inl h, all) ends = ground arith
not_delayed (action ∷ []) rest (inr h, all) ends = ground arith
not_delayed (action ∷ next ∷ done) rest (_, all) ends = not_delayed (next ∷ done) rest all ends

rest_empty :
    (r : Exit (Unit {0})) (done rest : List Action)
    → r ≡ returned tt
    → Covers r done rest
    → All (λ action. IsInstant action.type) (done ++ rest)
    → rest ≡ []
rest_empty (returned tt) done rest h (inl all_of_them) instant = all_of_them
rest_empty (returned tt) done rest h (inr ends) instant =
    absurd (not_delayed done rest instant ends)
rest_empty (errored e) done rest h covers instant = absurd (ground arith)
rest_empty panicked done rest h covers instant = absurd (ground arith)

-- If DynamoDB takes every write and Slack every message, the loop over a row of actions that are Slack
-- messages and webhooks returns with the run marked as completed, and has asked Slack for the messages
-- of all of them, in their order, once each, and for nothing else.
pub execute_actions-completed :
    (actions : List Action) (signal : Signal) (run_context : Fields) (i : ℕ) (env : Env)
    (w : World WorkflowRun)
    → AcceptsAll env
    → All (λ action. IsInstant action.type) actions
    → let (r, w') = execute_actions signal run_context i actions env w in
      (r ≡ returned tt)
      × (w'.local.status ≡ completed)
      × (sent w'.trace ≡ sent w.trace ++ messages_of_all env signal run_context i actions)
execute_actions-completed actions signal run_context i env w accepts all =
    let (exit, status) = loop-IsCompleted accepts actions signal run_context i w all in
    let (done, rest, splits, sends, covers) =
      execute_actions-sent actions signal run_context i env w in
    let nothing_left =
      rest_empty _ done rest exit covers
        (subst (All (λ action. IsInstant action.type)) splits all) in
    let whole = splits ∙ ap (λ row. done ++ row) nothing_left ∙ append-nil done in
    (
      exit,
      status,
      sends ∙ ap (λ row. sent w.trace ++ messages_of_all env signal run_context i row) (sym whole),
    )
