-- ===== src/ActionExecutor.antt =====
-- internal/service/action_executor.go: what one action does outside.
pub mod Messages
pub mod Delays
pub mod Instant
use dahlia.Common.{
  ◌++◌, ℤ, pos, String, Option, some, [], ◌∷◌, Text, codes, lookup, ltb_ℤ, if◌then◌else◌,
}
use dahlia.Errors.{errorf, Result, ok, err}
use dahlia.Domain.{Value, string, int, Fields, Signal, Action, ActionType, slack, webhook, delay}
use dahlia.Decimal.{format_int}
use dahlia.Runtime.{
  slack_sent, webhook_called, slept, Go, pure, raise, lift, ask, call, of_option, wrapping, ◌>>=◌,
  ◌>>◌,
}
use dahlia.Clock.{now}
use dahlia.Template.{replace_template_variables}
use dahlia.Scheduler.{schedule_with_delay}

-- `x, ok := runContext[key].(string)` and `.(int)`, with the error of a failed assertion
as_string : String → Option Value → Result Text
as_string missing (some (string s)) = ok s
as_string missing _ = err (errorf missing [])

as_int : String → Option Value → Result ℤ
as_int missing (some (int n)) = ok n
as_int missing _ = err (errorf missing [])

module _ {S : Type 0} where
  pub execute_slack : Action → Signal → Fields → Go S (Unit {0})
  execute_slack action signal run_context = do
    start_time ← now
    message ← ask (λ env. pure (replace_template_variables env action.message signal run_context))
    outcome ←
        call (λ env t. env.slack_send t action.target message) (slack_sent action.target message)
    wrapping "slack action failed" (of_option outcome)
    end_time ← now
    pure tt

  pub execute_webhook : Action → Signal → Fields → Go S (Unit {0})
  execute_webhook action signal run_context = ask (λ env.
      call (λ _ _. tt)
        (λ _.
          webhook_called action.target
            (replace_template_variables env action.message signal run_context)))

  -- a short delay is slept through here, a long one becomes a job
  schedule_delay : ℤ → Text → Fields → Go S (Unit {0})
  schedule_delay delay_seconds run_id job_details =
      if ltb_ℤ delay_seconds (pos 60)
      then call (λ _ _. tt) (λ _. slept delay_seconds)
      else wrapping "failed to schedule delay" (do
        job ←
            schedule_with_delay (codes "workflow-resume-" ++ run_id) (codes "executor-queue")
              delay_seconds job_details
        pure tt)

  pub execute_delay : Action → Fields → Go S (Unit {0})
  execute_delay action run_context = do
    duration ←
        wrapping "invalid delay duration" (ask (λ env. lift (env.parse_duration action.duration)))
    delay_seconds ← ask (λ env. pure (env.whole_seconds duration))
    run_id ← lift (as_string "run_id not found in context" (lookup (codes "run_id") run_context))
    workflow_id ←
        lift
          (as_string "workflow_id not found in context" (lookup (codes "workflow_id") run_context))
    workflow_version ← lift (
        as_int "workflow_version not found in context"
          (lookup (codes "workflow_version") run_context))
    signal_id ←
        lift (as_string "signal_id not found in context" (lookup (codes "signal_id") run_context))
    current_action_index ← lift (
        as_int "current_action_index not found in context"
          (lookup (codes "current_action_index") run_context))
    schedule_delay delay_seconds run_id (
        (codes "signal_id", string signal_id)
        ∷ (codes "workflow_id", string workflow_id)
        ∷ (codes "workflow_version", int workflow_version)
        ∷ (codes "run_id", string run_id)
        ∷ (codes "resume_from", string (codes "ACTION_" ++ format_int current_action_index))
        ∷ [])

  execute_type : ActionType → Action → Signal → Fields → Go S (Unit {0})
  execute_type slack action signal run_context = execute_slack action signal run_context
  execute_type webhook action signal run_context = execute_webhook action signal run_context
  execute_type delay action signal run_context = execute_delay action run_context
  execute_type (ActionType.unknown name) action signal run_context =
      raise (errorf "unknown action type: %s" (name ∷ []))

  pub execute : Action → Signal → Fields → Go S (Unit {0})
  execute action signal run_context = execute_type action.type action signal run_context
