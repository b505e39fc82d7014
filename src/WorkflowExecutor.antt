-- ===== src/WorkflowExecutor.antt =====
-- internal/service/workflow_executor.go. The run is the object that the methods hold a pointer to:
-- what a failed method wrote to it stays written. Durations are differences of clock readings.
pub mod Frames
pub mod ActionMessages
pub mod Messages
pub mod Refused
pub mod Paused
pub mod Accepted
pub mod Completed
pub mod Resume
pub mod Judged
use dahlia.Common.{
  if◌then◌else◌, ◌==◌, zero, ℕ, suc, ◌-◌, ℤ, pos, negsuc, Bool, true, false, Option, none, some,
  List, [], ◌∷◌, Text, codes, insert, drop, is_empty,
}
use dahlia.Errors.{Error, errorf, wrap, Result, ok, err}
use dahlia.Decimal.{format_int, scan_action}
use dahlia.Domain.{
  string, int, Fields, Signal, Condition, Action, ActionType, delay, Workflow, WorkflowRun,
  ActionLog,
}
use dahlia.Runtime.{
  Go, pure, raise, panic, get, modify, catch, wrapping, attempt, ignore, on_object, ◌>>=◌, ◌>>◌,
}
use dahlia.Clock.{now}
use dahlia.Run.{
  new_workflow_run, set_condition_status, set_action_started_status, set_action_completed_status,
  set_action_scheduled_status, mark_completed, mark_failed,
}
use dahlia.ActionLogs
use dahlia.Repository.Runs
use dahlia.Repository.ActionLogs as LogRepo
use dahlia.Repository.Signals
use dahlia.ActionExecutor
use dahlia.ConditionEvaluator
use dahlia.WorkflowManager

unfoldable pub build_run_context : WorkflowRun → Signal → Workflow → Fields
build_run_context run signal workflow =
    (codes "run_id", string run.run_id)
    ∷ (codes "workflow_id", string workflow.workflow_id)
    ∷ (codes "workflow_version", int workflow.version)
    ∷ (codes "signal_id", string signal.signal_id)
    ∷ (codes "signal_type", string signal.signal_type)
    ∷ (codes "org_id", string signal.org_id)
    ∷ []

-- `oldUpdatedAt := run.UpdatedAt; change; e.runRepo.Update(ctx, run, oldUpdatedAt)`
pub save_after : Go WorkflowRun (Unit {0}) → Go WorkflowRun (Unit {0})
save_after change = do before ← get; change; run ← get; Runs.update run before.updated_at

pub prepare_action : Action → ℕ → Go WorkflowRun ActionLog
prepare_action action action_index = do
  wrapping "failed to update run status" (save_after (set_action_started_status (pos action_index)))
  run ← get
  created ← ActionLogs.new_action_log run.run_id (pos action_index) action.type
  action_log ← ActionLogs.mark_running created
  wrapping "failed to create action log" (LogRepo.create action_log)
  pure action_log

-- true: the workflow pauses here
pub execute_delay_action : Action → Signal → Fields → ℕ → ActionLog → Go WorkflowRun Bool
execute_delay_action action signal run_context action_index action_log = do
  ActionExecutor.execute action signal run_context
  wrapping "failed to update run status"
      (save_after (set_action_scheduled_status (pos action_index)))
  scheduled_time ← now
  scheduled_log ← ActionLogs.mark_scheduled scheduled_time action_log
  wrapping "failed to update action log" (LogRepo.update scheduled_log)
  pure true

finish_regular_action : Result (Unit {0}) → ℕ → ActionLog → ℕ → Go WorkflowRun (Unit {0})
finish_regular_action (err e) action_index action_log duration_ms = do
  failed_log ← ActionLogs.mark_failed e duration_ms action_log
  ignore (LogRepo.update failed_log)
  raise e
finish_regular_action (ok _) action_index action_log duration_ms = do
  ignore (save_after (set_action_completed_status (pos action_index)))
  completed_log ← ActionLogs.mark_completed [] duration_ms action_log
  ignore (LogRepo.update completed_log)

pub execute_regular_action : Action → Signal → Fields → ℕ → ActionLog → Go WorkflowRun (Unit {0})
execute_regular_action action signal run_context action_index action_log = do
  start_time ← now
  outcome ← attempt (ActionExecutor.execute action signal run_context)
  end_time ← now
  finish_regular_action outcome action_index action_log (end_time - start_time)

execute_by_type : ActionType → Action → Signal → Fields → ℕ → ActionLog → Go WorkflowRun Bool
execute_by_type delay action signal run_context action_index action_log =
    execute_delay_action action signal run_context action_index action_log
execute_by_type _ action signal run_context action_index action_log = do
  execute_regular_action action signal run_context action_index action_log
  pure false

pub execute_single_action : Action → Signal → Fields → ℕ → Go WorkflowRun Bool
execute_single_action action signal run_context action_index = do
  action_log ← prepare_action action action_index
  execute_by_type action.type action signal run_context action_index action_log

pub handle_action_failure : ℕ → Error → Go WorkflowRun Bool
handle_action_failure action_index e = do
  ignore (save_after mark_failed)
  raise (wrap "action %d failed" (format_int (pos action_index) ∷ []) e)

pub complete_workflow : Go WorkflowRun (Unit {0})
complete_workflow = wrapping "failed to mark run as completed" (save_after mark_completed)

-- The loop over workflow.Actions from an index on; the map of the run context is written to.
pub execute_actions : Signal → Fields → ℕ → List Action → Go WorkflowRun (Unit {0})
execute_actions signal run_context i [] = complete_workflow
execute_actions signal run_context i (action ∷ actions) = do
  let context = insert (codes "current_action_index") (int (pos i)) run_context
  should_pause ← catch (handle_action_failure i) (execute_single_action action signal context i)
  elim should_pause [ true ↦ pure tt | false ↦ execute_actions signal context (suc i) actions ]

-- workflow.Actions[i] panics at a negative index
pub start_actions : Signal → Fields → ℤ → List Action → Go WorkflowRun (Unit {0})
start_actions signal run_context (pos i) actions =
    execute_actions signal run_context i (drop i actions)
start_actions signal run_context (negsuc i) actions = panic

stop_conditions : Go WorkflowRun (Unit {0}) → Go WorkflowRun Bool
stop_conditions mark = do ignore (save_after mark); pure false

-- The loop over workflow.Conditions; false ends the run without its actions.
pub evaluate_conditions : Signal → ℕ → List Condition → Go WorkflowRun Bool
evaluate_conditions signal i [] = pure true
evaluate_conditions signal i (condition ∷ conditions) = do
  ignore (save_after (set_condition_status (pos i)))
  passed ← attempt (ConditionEvaluator.evaluate condition signal)
  elim passed [
    | err e ↦ stop_conditions mark_failed
    | ok false ↦ stop_conditions mark_completed
    | ok true ↦ evaluate_conditions signal (suc i) conditions
  ]

pub run_workflow : Signal → Workflow → Fields → Go WorkflowRun (Unit {0})
run_workflow signal workflow run_context = do
  passed ← evaluate_conditions signal 0 workflow.conditions
  elim passed [ true ↦ start_actions signal run_context (pos 0) workflow.actions | false ↦ pure tt ]

-- delayActionIndex + 1 on a machine integer of 64 bits: the greatest one wraps around
unfoldable pub next_index : ℤ → ℤ
next_index (pos n) = if n == 9223372036854775807 then negsuc 9223372036854775807 else pos (suc n)
next_index (negsuc zero) = pos 0
next_index (negsuc (suc n)) = negsuc n

pub resume_run : Signal → Workflow → ℤ → Go WorkflowRun (Unit {0})
resume_run signal workflow delay_action_index = do
  wrapping "failed to update run status"
      (save_after (set_action_completed_status delay_action_index))
  modify (λ run. record run { current_action_index = delay_action_index })
  run ← get
  start_actions signal (build_run_context run signal workflow) (next_index delay_action_index)
      workflow.actions

module _ {S : Type 0} where
  pub execute_new_workflow : Signal → Workflow → Go S (Unit {0})
  execute_new_workflow signal workflow = do
    let initial_context =
        (codes "signal_type", string signal.signal_type)
        ∷ (codes "org_id", string signal.org_id)
        ∷ []
    run ← new_workflow_run workflow.workflow_id workflow.version signal.signal_id initial_context
    wrapping "failed to create run" (Runs.create run)
    on_object run (run_workflow signal workflow (build_run_context run signal workflow))

  resume_at : Option ℤ → Signal → Workflow → Text → Text → Go S (Unit {0})
  resume_at none signal workflow resume_from run_id =
      raise (errorf "invalid resume_from format: %s" (resume_from ∷ []))
  resume_at (some delay_action_index) signal workflow resume_from run_id = do
    run ← wrapping "failed to get workflow run" (Runs.get_by_id run_id)
    on_object run (resume_run signal workflow delay_action_index)

  pub resume_workflow : Signal → Workflow → Text → Text → Go S (Unit {0})
  resume_workflow signal workflow resume_from run_id =
      resume_at (scan_action resume_from) signal workflow resume_from run_id

  pub execute : Text → Text → ℤ → Text → Text → Go S (Unit {0})
  execute signal_id workflow_id workflow_version run_id resume_from = do
    signal ← wrapping "failed to get signal" (Signals.get_by_id signal_id)
    workflow ←
        wrapping "failed to get workflow"
          (WorkflowManager.get_workflow workflow_id workflow_version)
    elim (is_empty resume_from) [
      | true ↦ execute_new_workflow signal workflow
      | false ↦ resume_workflow signal workflow resume_from run_id
    ]
