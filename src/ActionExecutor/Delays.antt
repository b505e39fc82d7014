-- ===== src/ActionExecutor/Delays.antt =====
-- A delay of less than a minute.
use dahlia.Common.{arith, ℤ, pos, some, Text, codes, lookup, ltb_ℤ, ◌≡◌, true, ◌∷◌, [], ◌++◌, ◌∙◌}
use dahlia.Errors.{ok}
use dahlia.Domain.{string, int, Fields, Action, ActionType, slack, webhook, delay, Signal}
use dahlia.Decimal.{format_int}
use dahlia.Runtime.{slept, Env, World, returned, ◌>>=◌}
use dahlia.ActionExecutor.{schedule_delay, execute_type, execute, execute_delay, as_string, as_int}

-- A run context with the five entries that a delay reads.
pub record HasRunEntries (run_context : Fields) : Type 0 where
  pub run_id : Text
  pub workflow_id : Text
  pub workflow_version : ℤ
  pub signal_id : Text
  pub action_index : ℤ
  pub has_run_id : lookup (codes "run_id") run_context ≡ some (string run_id)
  pub has_workflow_id : lookup (codes "workflow_id") run_context ≡ some (string workflow_id)
  pub has_workflow_version :
      lookup (codes "workflow_version") run_context ≡ some (int workflow_version)
  pub has_signal_id : lookup (codes "signal_id") run_context ≡ some (string signal_id)
  pub has_action_index : lookup (codes "current_action_index") run_context ≡ some (int action_index)

-- What the queue of the executor is to be sent for the run to go on.
abbrev pub resume_details : {run_context : Fields} → HasRunEntries run_context → Fields
resume_details has =
    (codes "signal_id", string has.signal_id)
    ∷ (codes "workflow_id", string has.workflow_id)
    ∷ (codes "workflow_version", int has.workflow_version)
    ∷ (codes "run_id", string has.run_id)
    ∷ (codes "resume_from", string (codes "ACTION_" ++ format_int has.action_index))
    ∷ []

delay_of_parts :
    {S : Type 0} (action : Action) (run_context : Fields) (duration : ℤ) (env : Env) (w : World S)
    (has : HasRunEntries run_context)
    → env.parse_duration action.duration ≡ ok duration
    → execute_delay action run_context env w
      ≡ schedule_delay (env.whole_seconds duration) has.run_id (resume_details has) env w
unfolding execute_delay as_string as_int ◌>>=◌
delay_of_parts action run_context duration env w has parses = rw (
  parses, has.has_run_id, has.has_workflow_id, has.has_workflow_version, has.has_signal_id,
  has.has_action_index,
)

short_delay :
    {S : Type 0} (seconds : ℤ) (run_id : Text) (details : Fields) (env : Env) (w : World S)
    → ltb_ℤ seconds (pos 60) ≡ true
    → schedule_delay seconds run_id details env w
      ≡ (returned tt, record w { trace = slept seconds ∷ w.trace })
unfolding schedule_delay ◌>>=◌
short_delay seconds run_id details env w short = rw short

-- A delay whose duration is read as less than 60 seconds, with a complete run context, sleeps for
-- its seconds and returns: that is its only call, no job is scheduled.
pub execute_delay-short :
    {S : Type 0} (action : Action) (run_context : Fields) (duration : ℤ) (env : Env) (w : World S)
    → HasRunEntries run_context
    → env.parse_duration action.duration ≡ ok duration
    → ltb_ℤ (env.whole_seconds duration) (pos 60) ≡ true
    → execute_delay action run_context env w
      ≡ (returned tt, record w { trace = slept (env.whole_seconds duration) ∷ w.trace })
execute_delay-short action run_context duration env w has parses short =
    delay_of_parts action run_context duration env w has parses ∙ short_delay _ _ _ env w short

short_of_type :
    {S : Type 0} (type : ActionType) (action : Action) (signal : Signal) (run_context : Fields)
    (duration : ℤ) (env : Env) (w : World S)
    → type ≡ delay
    → HasRunEntries run_context
    → env.parse_duration action.duration ≡ ok duration
    → ltb_ℤ (env.whole_seconds duration) (pos 60) ≡ true
    → execute_type type action signal run_context env w
      ≡ (returned tt, record w { trace = slept (env.whole_seconds duration) ∷ w.trace })
unfolding execute_type
short_of_type delay action signal run_context duration env w is has parses short =
    execute_delay-short action run_context duration env w has parses short
short_of_type slack action signal run_context duration env w is has parses short =
    absurd (ground arith)
short_of_type webhook action signal run_context duration env w is has parses short =
    absurd (ground arith)
short_of_type (ActionType.unknown name) action signal run_context duration env w is has parses
      short =
    absurd (ground arith)

pub execute-short :
    {S : Type 0} (action : Action) (signal : Signal) (run_context : Fields) (duration : ℤ)
    (env : Env) (w : World S)
    → action.type ≡ delay
    → HasRunEntries run_context
    → env.parse_duration action.duration ≡ ok duration
    → ltb_ℤ (env.whole_seconds duration) (pos 60) ≡ true
    → execute action signal run_context env w
      ≡ (returned tt, record w { trace = slept (env.whole_seconds duration) ∷ w.trace })
unfolding execute
execute-short action signal run_context duration env w is has parses short =
    short_of_type action.type action signal run_context duration env w is has parses short
