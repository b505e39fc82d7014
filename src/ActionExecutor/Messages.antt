-- ===== src/ActionExecutor/Messages.antt =====
-- The Slack messages that an action sends.
use dahlia.Common.{ℤ, List, [], ◌∷◌, ◌++◌, append-nil, Text, ◌≡◌, refl, sym, ◌∙◌, ltb_ℤ, pos}
use dahlia.Domain.{Fields, Signal, Action, ActionType, slack, webhook, delay}
use dahlia.Runtime.{slack_sent, Trace, Env, World, Go, slept, ◌>>=◌}
use native.Mathlib.Omega.{arith}
use dahlia.Runtime.Keeps.{Keeps, Keeps-call, Keeps-if, Ignores, keeps_rules}
use dahlia.Clock.{now}
use dahlia.Scheduler.Frames.{IgnoresJobs, schedule_with_delay-Keeps}
use dahlia.Template.{replace_template_variables}
use dahlia.ActionExecutor.{
  execute_slack, execute_webhook, schedule_delay, execute_delay, execute_type, execute,
}

-- The messages that Slack was asked to send, the oldest first: channel and text.
abbrev pub sent : Trace → List (Text × Text)
sent [] = []
sent (slack_sent channel message outcome ∷ t) = sent t ++ (channel, message) ∷ []
sent (_ ∷ t) = sent t

abbrev pub HasSent : List (Text × Text) → Trace → Type 0
HasSent messages t = sent t ≡ messages

abbrev pub IsQuiet : {S A : Type 0} → Go S A → Type 0
IsQuiet m = (messages : List (Text × Text)) → Keeps (HasSent messages) m

pub sent-Ignores : (messages : List (Text × Text)) → Ignores (HasSent messages)
sent-Ignores messages = record {
  clock = λ n t h. h;
  uuid = λ id t h. h;
  run_put = λ item guard outcome t h. h;
  log_put = λ item guard outcome t h. h;
  get = λ table key t h. h;
  query = λ table key limit start t h. h;
}

sent-IgnoresJobs : (messages : List (Text × Text)) → IgnoresJobs (HasSent messages)
sent-IgnoresJobs messages = record {
  job_put = λ item guard outcome t h. h;
  push = λ key value outcome t h. h;
}

-- What the action sends: one message if it is a Slack action, to its target, with the variables of
-- its template replaced.
abbrev pub messages_of_type : ActionType → Env → Signal → Fields → Action → List (Text × Text)
messages_of_type slack env signal run_context action =
    (action.target, replace_template_variables env action.message signal run_context) ∷ []
messages_of_type _ env signal run_context action = []

abbrev pub messages_of : Env → Signal → Fields → Action → List (Text × Text)
messages_of env signal run_context action =
    messages_of_type action.type env signal run_context action

schedule_delay-IsQuiet :
    {S : Type 0} (delay_seconds : ℤ) (run_id : Text) (job_details : Fields)
    → IsQuiet (schedule_delay {S = S} delay_seconds run_id job_details)
unfolding schedule_delay
schedule_delay-IsQuiet delay_seconds run_id job_details messages =
    Keeps-if (ltb_ℤ delay_seconds (pos 60)) _ _
      (Keeps-call _ (λ _. slept delay_seconds) (λ a t h. h))
      (search (
        keeps_rules,
        schedule_with_delay-Keeps (sent-Ignores messages) (sent-IgnoresJobs messages),
      ))

execute_delay-IsQuiet :
    {S : Type 0} (action : Action) (run_context : Fields)
    → IsQuiet (execute_delay {S = S} action run_context)
unfolding execute_delay
execute_delay-IsQuiet action run_context messages =
    search (keeps_rules, schedule_delay-IsQuiet) depth 40

execute_slack-sent :
    {S : Type 0} (action : Action) (signal : Signal) (run_context : Fields) (env : Env)
    (w : World S)
    → sent (execute_slack action signal run_context env w).1.trace
      ≡ sent w.trace ++ messages_of_type slack env signal run_context action
unfolding execute_slack now ◌>>=◌
execute_slack-sent action signal run_context env w = ground arith

-- An action sends its messages, one at most, however it ends.
execute_type-sent :
    {S : Type 0} (type : ActionType) (action : Action) (signal : Signal) (run_context : Fields)
    (env : Env) (w : World S)
    → sent (execute_type type action signal run_context env w).1.trace
      ≡ sent w.trace ++ messages_of_type type env signal run_context action
unfolding execute_type execute_webhook ◌>>=◌
execute_type-sent slack action signal run_context env w =
    execute_slack-sent action signal run_context env w
execute_type-sent webhook action signal run_context env w = sym (append-nil _)
execute_type-sent delay action signal run_context env w =
    (execute_delay-IsQuiet action run_context (sent w.trace)).at env w refl ∙ sym (append-nil _)
execute_type-sent (ActionType.unknown name) action signal run_context env w = sym (append-nil _)

-- However an action ends and whatever the outside answers, it asks Slack for one message if it is a
-- Slack action, with its target and its template with the variables replaced, and else for none.
pub execute-sent :
    {S : Type 0} (action : Action) (signal : Signal) (run_context : Fields) (env : Env)
    (w : World S)
    → sent (execute action signal run_context env w).1.trace
      ≡ sent w.trace ++ messages_of env signal run_context action
unfolding execute
execute-sent action signal run_context env w =
    execute_type-sent action.type action signal run_context env w
