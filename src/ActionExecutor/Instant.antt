-- ===== src/ActionExecutor/Instant.antt =====
-- Actions that return at once: Slack messages that are delivered, and webhooks.
use dahlia.Common.{none, ◌≡◌, ◌⊎◌, inl, inr, ◌∷◌, Text, arith}
use dahlia.Domain.{Signal, Fields, Action, ActionType, slack, webhook, delay}
use dahlia.Runtime.{Trace, Env, read_clock, ◌>>=◌}
use dahlia.Runtime.Returns.{Returns, returns_rules}
use dahlia.Clock.{now}
use dahlia.Template.{replace_template_variables}
use dahlia.ActionExecutor.{execute_slack, execute_webhook, execute_type, execute}

-- an action that sends or calls, and returns
abbrev pub IsInstant : ActionType → Type 0
IsInstant type = (type ≡ slack) ⊎ (type ≡ webhook)

module _ {S : Type 0} {env : Env}
    (delivers : (t : Trace) (channel message : Text)
      → env.slack_send t channel message ≡ none) where
  execute_slack-Returns :
      (action : Action) (signal : Signal) (run_context : Fields)
      → Returns env (execute_slack {S = S} action signal run_context)
  unfolding execute_slack now ◌>>=◌
  execute_slack-Returns action signal run_context = record {
    at = λ w. (
      tt,
      rw (
          delivers (read_clock (env.now w.trace) ∷ w.trace) action.target
            (replace_template_variables env action.message signal run_context)),
    );
  }

  execute_webhook-Returns :
      (action : Action) (signal : Signal) (run_context : Fields)
      → Returns env (execute_webhook {S = S} action signal run_context)
  unfolding execute_webhook
  execute_webhook-Returns action signal run_context = search returns_rules

  execute_type-Returns :
      (type : ActionType) (action : Action) (signal : Signal) (run_context : Fields)
      → IsInstant type
      → Returns env (execute_type {S = S} type action signal run_context)
  unfolding execute_type
  execute_type-Returns slack action signal run_context h =
      execute_slack-Returns action signal run_context
  execute_type-Returns webhook action signal run_context h =
      execute_webhook-Returns action signal run_context
  execute_type-Returns delay action signal run_context (inl h) = absurd (ground arith)
  execute_type-Returns delay action signal run_context (inr h) = absurd (ground arith)
  execute_type-Returns (ActionType.unknown name) action signal run_context (inl h) =
      absurd (ground arith)
  execute_type-Returns (ActionType.unknown name) action signal run_context (inr h) =
      absurd (ground arith)

  pub execute-Returns :
      (action : Action) (signal : Signal) (run_context : Fields)
      → IsInstant action.type
      → Returns env (execute {S = S} action signal run_context)
  unfolding execute
  execute-Returns action signal run_context h =
      execute_type-Returns action.type action signal run_context h
