-- ===== src/ActionLogs.antt =====
-- internal/domain/action.go: the log entry of one action.
use dahlia.Common.{ℕ, ℤ, pos, none, some, [], ◌∷◌, ◌++◌, Text, codes}
use dahlia.Errors.{Error}
use dahlia.Domain.{
  Fields, int, ActionType, ActionLog, pending, running, completed, failed, scheduled,
}
use dahlia.Decimal.{format_int}
use dahlia.Runtime.{Go, pure, ◌>>=◌}
use dahlia.Clock.{now, new_uuid}

module _ {S : Type 0} where
  unfoldable pub new_action_log : Text → ℤ → ActionType → Go S ActionLog
  unfolding now new_uuid
  new_action_log run_id action_index action_type = do
    now' ← now
    log_id ← new_uuid
    pure (record {
      run_id_action_index = run_id ++ codes "#" ++ format_int action_index;
      executed_at = now';
      log_id = log_id;
      run_id = run_id;
      action_index = action_index;
      action_type = action_type;
      status = pending;
      result = [];
      error_message = none;
      duration_ms = 0;
    })

  unfoldable pub mark_running : ActionLog → Go S ActionLog
  unfolding now
  mark_running a = do now' ← now; pure (record a { status = running; executed_at = now' })

  unfoldable pub mark_completed : Fields → ℕ → ActionLog → Go S ActionLog
  unfolding now
  mark_completed result duration_ms a = do
    now' ← now
    pure (record a {
      status = completed;
      result = result;
      duration_ms = duration_ms;
      executed_at = now';
    })

  unfoldable pub mark_failed : Error → ℕ → ActionLog → Go S ActionLog
  unfolding now
  mark_failed error_message duration_ms a = do
    now' ← now
    pure (record a {
      status = failed;
      error_message = some error_message;
      duration_ms = duration_ms;
      executed_at = now';
    })

  unfoldable pub mark_scheduled : ℕ → ActionLog → Go S ActionLog
  unfolding now
  mark_scheduled scheduled_time a = do
    now' ← now
    pure (record a {
      status = scheduled;
      result = (codes "scheduled_at", int (pos scheduled_time)) ∷ [];
      executed_at = now';
    })
