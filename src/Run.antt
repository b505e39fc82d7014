-- ===== src/Run.antt =====
-- internal/domain/workflow_run.go: a run and the methods that move it on.
use dahlia.Common.{ℕ, ℤ, pos, ◌++◌, Text, codes}
use dahlia.Domain.{Fields, RunStatus, triggered, completed, failed, WorkflowRun}
use dahlia.Decimal.{format_int}
use dahlia.Runtime.{Go, pure, modify, ◌>>=◌}
use dahlia.Clock.{now, new_uuid}

-- string(RunStatus…)
unfoldable pub status_text : RunStatus → Text
status_text triggered = codes "TRIGGERED"
status_text completed = codes "COMPLETED"
status_text failed = codes "FAILED"

-- A nil context is the empty map.
unfoldable pub new_workflow_run :
    {S : Type 0} (workflow_id : Text) (workflow_version : ℤ) (signal_id : Text) (context : Fields)
    → Go S WorkflowRun
unfolding now new_uuid
new_workflow_run workflow_id workflow_version signal_id context = do
  now' ← now
  run_id ← new_uuid
  pure (record {
    run_id = run_id;
    created_at = now';
    workflow_id = workflow_id;
    workflow_version = workflow_version;
    signal_id = signal_id;
    status = triggered;
    current_state = status_text triggered;
    current_eval_index = pos 0;
    current_action_index = pos 0;
    context = context;
    triggered_at = now';
    completed_at = 0;
    updated_at = now';
  })

unfoldable pub get_condition_status : ℤ → Text
get_condition_status index = codes "CONDITION_" ++ format_int index

unfoldable pub get_action_status : ℤ → Text
get_action_status index = codes "ACTION_" ++ format_int index

unfoldable pub get_action_started_status : ℤ → Text
get_action_started_status index = codes "ACTION_" ++ format_int index ++ codes "_STARTED"

unfoldable pub get_action_completed_status : ℤ → Text
get_action_completed_status index = codes "ACTION_" ++ format_int index ++ codes "_COMPLETED"

unfoldable pub get_action_scheduled_status : ℤ → Text
get_action_scheduled_status index = codes "ACTION_" ++ format_int index ++ codes "_SCHEDULED"

abbrev pub touch : (WorkflowRun → ℕ → WorkflowRun) → Go WorkflowRun (Unit {0})
touch change = do now' ← now; modify (λ r. record (change r now') { updated_at = now' })

unfoldable pub set_condition_status : ℤ → Go WorkflowRun (Unit {0})
unfolding now
set_condition_status index =
    touch λ r _. record r { current_state = get_condition_status index; current_eval_index = index }

unfoldable pub set_action_status : ℤ → Go WorkflowRun (Unit {0})
unfolding now
set_action_status index =
    touch λ r _. record r { current_state = get_action_status index; current_action_index = index }

unfoldable pub set_action_started_status : ℤ → Go WorkflowRun (Unit {0})
unfolding now
set_action_started_status index = touch λ r _. record r {
  current_state = get_action_started_status index;
  current_action_index = index;
}

unfoldable pub set_action_completed_status : ℤ → Go WorkflowRun (Unit {0})
unfolding now
set_action_completed_status index = touch λ r _. record r {
  current_state = get_action_completed_status index;
  current_action_index = index;
}

unfoldable pub set_action_scheduled_status : ℤ → Go WorkflowRun (Unit {0})
unfolding now
set_action_scheduled_status index = touch λ r _. record r {
  current_state = get_action_scheduled_status index;
  current_action_index = index;
}

unfoldable pub mark_completed : Go WorkflowRun (Unit {0})
unfolding now
mark_completed = touch λ r now'. record r {
  status = completed;
  current_state = status_text completed;
  completed_at = now';
}

unfoldable pub mark_failed : Go WorkflowRun (Unit {0})
unfolding now
mark_failed = touch λ r _. record r { status = failed; current_state = status_text failed }
