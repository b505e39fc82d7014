-- ===== src/Examples/Runs.antt =====
-- Runs of the executor.
use dahlia.Common.{
  ℕ, length, ◌⊎◌, insert, inl, pos, negsuc, List, [], ◌∷◌, ◌++◌, ◌≡◌, refl, true, some, codes,
  lookup, text_eq,
}
use dahlia.Errors.{
  wrap, Error, conditional_check_failed, is_optimistic_lock_error, as_conditional_check_failed,
}
use dahlia.Domain.{
  nil, numeric, ConditionType, Condition, Workflow, int, Fields, Action, slack, delay, WorkflowRun,
  failed, completed,
}
use dahlia.Runtime.{
  World, workflow_runs, of_run, unchanged_since, put, read_clock, errored, returned, panicked,
}
use dahlia.Repository.Runs
use dahlia.Repository.Runs.Refused.{update-refused}
use dahlia.ActionExecutor
use dahlia.ConditionEvaluator
use dahlia.ActionExecutor.Messages.{sent, messages_of, execute-sent}
use dahlia.ActionExecutor.Delays.{HasRunEntries}
use dahlia.Run
use dahlia.WorkflowExecutor.{
  save_after, build_run_context, execute_actions, resume_run, evaluate_conditions, run_workflow,
}
use dahlia.WorkflowExecutor.Messages.{at_index, messages_of_all, Covers, execute_actions-sent}
use dahlia.WorkflowExecutor.Accepted.{AcceptsAll}
use dahlia.WorkflowExecutor.Completed.{execute_actions-completed}
use dahlia.WorkflowExecutor.Paused.{wakes, execute_actions-paused}
use dahlia.WorkflowExecutor.Refused.{RefusesRuns, execute_actions-refused}
use dahlia.WorkflowExecutor.Resume.{resume_run-negative}
use dahlia.WorkflowExecutor.Judged.{turn, HoldInTurn, Breaks, run_workflow_lem}
use dahlia.Examples.Setting.{signal, workflow, run, accepting, refusing, start}

abbrev hello : Action
hello = record { type = slack; target = codes "#ops"; message = codes "hi"; duration = [] }

abbrev wait : Action
wait = record { type = delay; target = []; message = []; duration = codes "5s" }

abbrev row : List Action
row = hello ∷ wait ∷ hello ∷ []

abbrev context : Fields
context = build_run_context run signal (workflow (codes "w") (pos 1))

execute_actions-sent_example :
    let (r, w') = execute_actions signal context 0 row accepting (start run) in
    (done : List Action) × (rest : List Action) × (row ≡ done ++ rest)
    × (sent w'.trace ≡ sent [] ++ messages_of_all accepting signal context 0 done)
    × Covers r done rest
execute_actions-sent_example = execute_actions-sent row signal context 0 accepting (start run)

refusing-RefusesRuns : RefusesRuns refusing
refusing-RefusesRuns = record { marshals = λ item. refl; refuses = λ t item since. refl }

execute_actions-refused_example :
    let (r, w') = execute_actions signal context 0 row refusing (start run) in
    (e : Error) × (started : WorkflowRun) × (failed_run : WorkflowRun) × (r ≡ errored e)
    × (is_optimistic_lock_error e ≡ true)
    × (started.updated_at ≡ 60500)
    × (failed_run.status ≡ failed)
    × (w'.trace
        ≡ put workflow_runs
            (of_run failed_run)
            (unchanged_since started.updated_at)
            (some conditional_check_failed)
          ∷ read_clock failed_run.updated_at
          ∷ put workflow_runs (of_run started) (unchanged_since 0) (some conditional_check_failed)
          ∷ read_clock started.updated_at
          ∷ [])
execute_actions-refused_example =
    execute_actions-refused hello (wait ∷ hello ∷ []) signal context 0 refusing (start run)
      refusing-RefusesRuns

update-refused_example :
    let (r, w') = Runs.update run 7 refusing (start run) in
    (e' : Error) × (r ≡ errored e')
    × (is_optimistic_lock_error e' ≡ true)
    × (w'.trace
        ≡ put workflow_runs (of_run run) (unchanged_since 7) (some conditional_check_failed) ∷ [])
unfolding as_conditional_check_failed is_optimistic_lock_error
update-refused_example =
    update-refused run 7 refusing (start run) conditional_check_failed refl refl

execute-sent_example :
    sent (ActionExecutor.execute hello signal context accepting (start run)).1.trace
    ≡ [] ++ messages_of accepting signal context hello
execute-sent_example = execute-sent hello signal context accepting (start run)

abbrev delay_context : Fields
delay_context = (codes "current_action_index", int (pos 1)) ∷ context

delay_context-HasRunEntries : HasRunEntries delay_context
unfolding build_run_context lookup text_eq
delay_context-HasRunEntries = record {
  run_id = codes "r";
  workflow_id = codes "w";
  workflow_version = pos 1;
  signal_id = codes "order#acme#5";
  action_index = pos 1;
  has_run_id = refl;
  has_workflow_id = refl;
  has_workflow_version = refl;
  has_signal_id = refl;
  has_action_index = refl;
}

resume_run-negative_example :
    let (r, w₁) = save_after (Run.set_action_completed_status (negsuc 1)) accepting (start run) in
    let (r', w') =
      resume_run signal (workflow (codes "w") (pos 1)) (negsuc 1) accepting (start run) in
    ((r ≡ returned tt) × (r' ≡ panicked) × (w'.trace ≡ w₁.trace))
    ⊎ ((e : Error) × (r ≡ errored e)
        × (r' ≡ errored (wrap "failed to update run status" [] e))
        × (w' ≡ w₁))
    ⊎ ((r ≡ panicked) × (r' ≡ panicked) × (w' ≡ w₁))
resume_run-negative_example =
    resume_run-negative 0 signal (workflow (codes "w") (pos 1)) accepting (start run)

accepting-AcceptsAll : AcceptsAll accepting
accepting-AcceptsAll = record {
  marshals = λ item. refl;
  stores = λ t table item guard. refl;
  delivers = λ t channel message. refl;
}

abbrev two : List Action
two = hello ∷ hello ∷ []

execute_actions-completed_example :
    let (r, w') = execute_actions signal context 0 two accepting (start run) in
    (r ≡ returned tt)
    × (w'.local.status ≡ completed)
    × (sent w'.trace ≡ sent [] ++ messages_of_all accepting signal context 0 two)
execute_actions-completed_example =
    execute_actions-completed two signal context 0 accepting (start run) accepting-AcceptsAll
      (inl refl, (inl refl, tt))

wait_at_0-HasRunEntries : HasRunEntries (at_index 0 context)
unfolding build_run_context lookup insert text_eq
wait_at_0-HasRunEntries = record {
  run_id = codes "r";
  workflow_id = codes "w";
  workflow_version = pos 1;
  signal_id = codes "order#acme#5";
  action_index = pos 0;
  has_run_id = refl;
  has_workflow_id = refl;
  has_workflow_version = refl;
  has_signal_id = refl;
  has_action_index = refl;
}

execute_actions-paused_example :
    let (r, w') = execute_actions signal context 0 (wait ∷ hello ∷ []) accepting (start run) in
    (wakes w'.trace ≡ wakes []) × (sent w'.trace ≡ sent [])
execute_actions-paused_example =
    execute_actions-paused wait (hello ∷ []) signal context 0 (pos 5000000000) accepting (start run)
      refl wait_at_0-HasRunEntries refl refl

abbrev condition : ConditionType → Condition
condition type = record {
  type = type;
  field = codes "amount";
  operator = codes ">";
  value = nil;
  duration = [];
}

-- one condition that holds, and one of a type that is not known
abbrev judged : Workflow
judged = record (workflow (codes "w") (pos 1)) {
  conditions = condition numeric ∷ condition (ConditionType.unknown (codes "x")) ∷ [];
  actions = row;
}

run_workflow_lem_example :
    let w₁ = (evaluate_conditions signal 0 judged.conditions accepting (start run)).1 in
    let result = run_workflow signal judged context accepting (start run) in
    (sent w₁.trace ≡ [])
    × (((result ≡ execute_actions signal context 0 row accepting w₁)
          × HoldInTurn accepting signal 0 judged.conditions (start run) w₁)
        ⊎ ((result ≡ (returned tt, w₁))
            × (before : List Condition) × (c : Condition) × (after : List Condition) × (w₂ : World
                WorkflowRun)
            × (judged.conditions ≡ before ++ c ∷ after)
            × HoldInTurn accepting signal 0 before (start run) w₂
            × (n : ℕ) × (n ≡ length before)
            × Breaks accepting signal n c w₂ w₁)
        ⊎ ((result ≡ (panicked, w₁))
            × (before : List Condition) × (c : Condition) × (after : List Condition) × (w₂ : World
                WorkflowRun)
            × (judged.conditions ≡ before ++ c ∷ after)
            × HoldInTurn accepting signal 0 before (start run) w₂
            × (n : ℕ) × (n ≡ length before)
            × (ConditionEvaluator.evaluate c signal accepting (turn accepting signal n w₂)
                ≡ (panicked, w₁))))
run_workflow_lem_example = run_workflow_lem signal judged context accepting (start run)
