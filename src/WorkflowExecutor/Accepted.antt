-- ===== src/WorkflowExecutor/Accepted.antt =====
-- The calls of a run that all succeed.
use dahlia.Common.{ℕ, ◌-◌, none, ◌≡◌, refl, ap, ◌∙◌, inl, inr, Text, false, Bool, arith}
use dahlia.Errors.{Result, ok}
use dahlia.Domain.{
  Signal, Fields, Action, ActionType, slack, webhook, delay, WorkflowRun, ActionLog,
}
use dahlia.Runtime.{
  Table, Item, Guard, workflow_runs, action_logs, of_run, of_log, unchanged_since, always, Trace,
  Env, World, returned, Go, pure, attempt, ◌>>=◌,
}
use dahlia.Runtime.Returns.{Returns, Returns-bind, attempt-returned, Returns-now, returns_rules}
use dahlia.Clock.{now, new_uuid}
use dahlia.Run
use dahlia.ActionLogs
use dahlia.Repository.Runs
use dahlia.Repository.ActionLogs as LogRepo
use dahlia.ActionExecutor
use dahlia.ActionExecutor.Instant.{IsInstant, execute-Returns}
use dahlia.Runtime.Steps.{bind-returned}
use dahlia.WorkflowExecutor.{
  save_after, prepare_action, finish_regular_action, execute_regular_action, execute_by_type,
  execute_single_action,
}

-- DynamoDB takes every write, and Slack every message.
pub record AcceptsAll (env : Env) : Type 0 where
  pub marshals : (item : Item) → env.marshal item ≡ none
  pub stores :
      (t : Trace) (table : Table) (item : Item) (guard : Guard)
      → env.put_item t table item guard ≡ none
  pub delivers : (t : Trace) (channel message : Text) → env.slack_send t channel message ≡ none

module _ {env : Env} (accepts : AcceptsAll env) where
  update-Returns :
      {S : Type 0} (run : WorkflowRun) (since : ℕ) → Returns env (Runs.update {S = S} run since)
  unfolding Runs.update ◌>>=◌
  update-Returns run since = record {
    at = λ w. (
      tt,
      rw (
        accepts.marshals (of_run run),
        accepts.stores w.trace workflow_runs (of_run run) (unchanged_since since),
      ),
    );
  }

  create_log-Returns : {S : Type 0} (log : ActionLog) → Returns env (LogRepo.create {S = S} log)
  unfolding LogRepo.create ◌>>=◌
  create_log-Returns log = record {
    at = λ w. (
      tt,
      rw (accepts.marshals (of_log log), accepts.stores w.trace action_logs (of_log log) always),
    );
  }

  update_log-Returns : {S : Type 0} (log : ActionLog) → Returns env (LogRepo.update {S = S} log)
  unfolding LogRepo.update ◌>>=◌
  update_log-Returns log = record {
    at = λ w. (
      tt,
      rw (accepts.marshals (of_log log), accepts.stores w.trace action_logs (of_log log) always),
    );
  }

  save_after-Returns :
      (change : Go WorkflowRun (Unit {0})) → Returns env change → Returns env (save_after change)
  unfolding save_after
  save_after-Returns change r = search (returns_rules, update-Returns) depth 20

  prepare_action-Returns : (action : Action) (i : ℕ) → Returns env (prepare_action action i)
  unfolding prepare_action Run.set_action_started_status ActionLogs.new_action_log
      ActionLogs.mark_running now new_uuid
  prepare_action-Returns action i =
      search (returns_rules, save_after-Returns, create_log-Returns) depth 30

  finish-Returns :
      (i : ℕ) (log : ActionLog) (duration_ms : ℕ) (a : Unit {0})
      → Returns env (finish_regular_action (ok a) i log duration_ms)
  unfolding finish_regular_action Run.set_action_completed_status ActionLogs.mark_completed now
  finish-Returns i log duration_ms a =
      search (returns_rules, save_after-Returns, update_log-Returns) depth 30

  regular-Returns :
      (action : Action) (signal : Signal) (run_context : Fields) (i : ℕ) (log : ActionLog)
      → IsInstant action.type
      → Returns env (execute_regular_action action signal run_context i log)
  unfolding execute_regular_action
  regular-Returns action signal run_context i log instant =
      Returns-bind now _ (Returns-now) λ start. record {
        at = λ w.
            let run_action = ActionExecutor.execute action signal run_context in
            let w' = (attempt run_action env w).1 in
            let (a, h) =
              attempt-returned run_action
                (execute-Returns accepts.delivers action signal run_context instant) w in
            let finish = (λ (outcome : Result (Unit {0})).
              now >>= λ end_time. finish_regular_action outcome i log (end_time - start)) in
            let (b, k) =
              (Returns-bind now _ Returns-now
                  λ end_time. finish-Returns i log (end_time - start) a).at
                w' in
            (
              b,
              ap (λ p. p.0)
                    (bind-returned (attempt run_action) finish env w w' (ok a)
                      (ap (λ e. (e, w')) h))
                  ∙ k,
            );
      }

  -- a function that returns, and `false` after it
  then_false :
      {A : Type 0} (m : Go WorkflowRun A) (f : A → Go WorkflowRun Bool) (w : World WorkflowRun)
      → Returns env m
      → ((a : A) (w' : World WorkflowRun) → (f a env w').0 ≡ returned false)
      → ((m >>= f) env w).0 ≡ returned false
  then_false m f w r h =
      let (a, k) = r.at w in
      ap (λ p. p.0) (bind-returned m f env w (m env w).1 a (ap (λ e. (e, (m env w).1)) k))
      ∙ h a (m env w).1

  by_type-false :
      (type : ActionType) (action : Action) (signal : Signal) (run_context : Fields) (i : ℕ)
      (log : ActionLog) (w : World WorkflowRun)
      → IsInstant type
      → IsInstant action.type
      → (execute_by_type type action signal run_context i log env w).0 ≡ returned false
  unfolding execute_by_type pure
  by_type-false slack action signal run_context i log w is instant =
      then_false (execute_regular_action action signal run_context i log) _ w
        (regular-Returns action signal run_context i log instant) (λ a w'. refl)
  by_type-false webhook action signal run_context i log w is instant =
      then_false (execute_regular_action action signal run_context i log) _ w
        (regular-Returns action signal run_context i log instant) (λ a w'. refl)
  by_type-false delay action signal run_context i log w (inl h) instant = absurd (ground arith)
  by_type-false delay action signal run_context i log w (inr h) instant = absurd (ground arith)
  by_type-false (ActionType.unknown name) action signal run_context i log w (inl h) instant =
      absurd (ground arith)
  by_type-false (ActionType.unknown name) action signal run_context i log w (inr h) instant =
      absurd (ground arith)

  pub single-false :
      (action : Action) (signal : Signal) (run_context : Fields) (i : ℕ) (w : World WorkflowRun)
      → IsInstant action.type
      → (execute_single_action action signal run_context i env w).0 ≡ returned false
  unfolding execute_single_action
  single-false action signal run_context i w instant =
      then_false (prepare_action action i) _ w (prepare_action-Returns action i)
        λ log w'. by_type-false action.type action signal run_context i log w' instant instant
