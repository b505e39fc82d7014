-- ===== src/WorkflowExecutor/Frames.antt =====
-- What the bookkeeping of a run leaves alone: all but the clock, identifiers, reads of the database,
-- and the tables of runs and action logs.
use dahlia.Common.{ℕ, suc, pos, true, false, List, [], ◌∷◌}
use dahlia.Errors.{Error, ok, err}
use dahlia.Domain.{Signal, Action, Condition}
use dahlia.Domain.{WorkflowRun}
use dahlia.Runtime.{Trace, Go}
use dahlia.Runtime.Keeps.{
  Keeps, Keeps-bind, Keeps-ignore, Keeps-attempt, Keeps-wrapping, Ignores, keeps_rules,
}
use dahlia.Repository.Frames
use dahlia.ConditionEvaluator.Frames.{evaluate-Keeps}
use dahlia.WorkflowExecutor.{
  save_after, prepare_action, handle_action_failure, complete_workflow, stop_conditions,
  evaluate_conditions,
}

module _ {P : Trace → Type 0} (ign : Ignores P) where
  pub save_after-Keeps :
      (change : Go WorkflowRun (Unit {0})) → Keeps P change → Keeps P (save_after change)
  unfolding save_after
  save_after-Keeps change k = search (keeps_rules, Frames.update_run-Keeps ign) depth 20

  pub prepare_action-Keeps :
      (action : Action) (action_index : ℕ) → Keeps P (prepare_action action action_index)
  unfolding prepare_action
  prepare_action-Keeps action action_index =
      search
        (
          keeps_rules,
          save_after-Keeps,
          Frames.set_action_started_status-Keeps ign,
          Frames.new_action_log-Keeps ign,
          Frames.mark_running-Keeps ign,
          Frames.create_log-Keeps ign,
        )
        depth 20

  pub handle_action_failure-Keeps :
      (action_index : ℕ) (e : Error) → Keeps P (handle_action_failure action_index e)
  unfolding handle_action_failure
  handle_action_failure-Keeps action_index e =
      Keeps-bind _ _ (Keeps-ignore _ (save_after-Keeps _ (Frames.mark_failed-Keeps ign)))
        (λ _. search keeps_rules)

  pub complete_workflow-Keeps : Keeps P complete_workflow
  unfolding complete_workflow
  complete_workflow-Keeps =
      Keeps-wrapping _ _ (save_after-Keeps _ (Frames.mark_completed-Keeps ign))

  stop_conditions-Keeps :
      (mark : Go WorkflowRun (Unit {0})) → Keeps P mark → Keeps P (stop_conditions mark)
  unfolding stop_conditions
  stop_conditions-Keeps mark k = search (keeps_rules, save_after-Keeps) depth 20

  pub evaluate_conditions-Keeps :
      (signal : Signal) (i : ℕ) (conditions : List Condition)
      → Keeps P (evaluate_conditions signal i conditions)
  unfolding evaluate_conditions
  evaluate_conditions-Keeps signal i [] = search keeps_rules
  evaluate_conditions-Keeps signal i (condition ∷ conditions) =
      Keeps-bind _ _
        (Keeps-ignore _ (save_after-Keeps _ (Frames.set_condition_status-Keeps ign (pos i))))
        λ _. Keeps-bind _ _ (Keeps-attempt _ (evaluate-Keeps ign condition signal)) (elim [
          | ok true ↦ evaluate_conditions-Keeps signal (suc i) conditions
          | ok false ↦ stop_conditions-Keeps _ (Frames.mark_completed-Keeps ign)
          | err e ↦ stop_conditions-Keeps _ (Frames.mark_failed-Keeps ign)
        ])
