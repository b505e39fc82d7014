-- ===== src/Repository/Frames.antt =====
-- What the repositories and the methods of the domain leave alone.
use dahlia.Common.{ℕ, ℤ, String, Option, none, some, Text, ◌∷◌, List, []}
use dahlia.Errors.{Error}
use dahlia.Domain.{WorkflowRun, ActionLog, ActionType, Fields}
use dahlia.Runtime.{Time, Item, Trace, AttributeMap, Key, Table, Guard, workflow_runs, action_logs}
use dahlia.Runtime.Keeps.{Keeps, Keeps-call, Keeps-bind, Ignores, keeps_rules}
use dahlia.Clock.{now, new_uuid}
use dahlia.Run
use dahlia.ActionLogs
use dahlia.Repository.Calls.{marshal_map, put_item, get_item, query}
use dahlia.Repository.Runs
use dahlia.Repository.ActionLogs as LogRepo
use dahlia.Repository.Signals
use dahlia.Repository.Jobs
use dahlia.Repository.Workflows

module _ {P : Trace → Type 0} (ign : Ignores P) {S : Type 0} where
  pub now-Keeps : Keeps P (now {S = S})
  unfolding now
  now-Keeps = Keeps-call _ _ ign.clock

  pub new_uuid-Keeps : Keeps P (new_uuid {S = S})
  unfolding new_uuid
  new_uuid-Keeps = Keeps-call _ _ ign.uuid

  pub marshal_map-Keeps :
      (context : String) (item : Item) → Keeps P (marshal_map {S = S} context item)
  unfolding marshal_map
  marshal_map-Keeps context item = search keeps_rules

  put_run-Keeps :
      (item : Item) (guard : Guard) → Keeps P (put_item {S = S} workflow_runs item guard)
  unfolding put_item
  put_run-Keeps item guard =
      Keeps-bind _ _ (Keeps-call _ _ (ign.run_put item guard)) (λ a. search keeps_rules)

  put_log-Keeps : (item : Item) (guard : Guard) → Keeps P (put_item {S = S} action_logs item guard)
  unfolding put_item
  put_log-Keeps item guard =
      Keeps-bind _ _ (Keeps-call _ _ (ign.log_put item guard)) (λ a. search keeps_rules)

  get_item-Keeps : (table : Table) (key : Key) → Keeps P (get_item {S = S} table key)
  unfolding get_item
  get_item-Keeps table key =
      Keeps-bind _ _ (Keeps-call _ _ (λ a. ign.get table key)) (λ a. search keeps_rules)

  query-Keeps :
      (table : Table) (key : Key) (limit : Option ℤ) (start : Option AttributeMap)
      → Keeps P (query {S = S} table key limit start)
  unfolding query
  query-Keeps table key limit start =
      Keeps-bind _ _ (Keeps-call _ _ (λ a. ign.query table key limit start))
        (λ a. search keeps_rules)

  pub create_run-Keeps : (run : WorkflowRun) → Keeps P (Runs.create {S = S} run)
  unfolding Runs.create
  create_run-Keeps run = search (keeps_rules, marshal_map-Keeps, put_run-Keeps)

  update_failed-Keeps : (run : WorkflowRun) (e : Error) → Keeps P (Runs.update_failed {S = S} run e)
  unfolding Runs.update_failed
  update_failed-Keeps run e = search keeps_rules

  pub update_run-Keeps :
      (run : WorkflowRun) (expected : ℕ) → Keeps P (Runs.update {S = S} run expected)
  unfolding Runs.update
  update_run-Keeps run expected =
      search (keeps_rules, marshal_map-Keeps, put_run-Keeps, update_failed-Keeps)

  pub get_run-Keeps : (run_id : Text) → Keeps P (Runs.get_by_id {S = S} run_id)
  unfolding Runs.get_by_id
  get_run-Keeps run_id =
      Keeps-bind _ _ (search (keeps_rules, query-Keeps)) (λ page. first page.items)
    where
      first : (items : List Item) → Keeps P (Runs.first_run {S = S} run_id items)
      first [] = search keeps_rules
      first (item ∷ _) = search keeps_rules

  pub create_log-Keeps : (log : ActionLog) → Keeps P (LogRepo.create {S = S} log)
  unfolding LogRepo.create
  create_log-Keeps log = search (keeps_rules, marshal_map-Keeps, put_log-Keeps)

  pub update_log-Keeps : (log : ActionLog) → Keeps P (LogRepo.update {S = S} log)
  unfolding LogRepo.update
  update_log-Keeps log = search (keeps_rules, marshal_map-Keeps, put_log-Keeps)

  pub get_signal-Keeps : (signal_id : Text) → Keeps P (Signals.get_by_id {S = S} signal_id)
  unfolding Signals.get_by_id
  get_signal-Keeps signal_id =
      Keeps-bind _ _ (search (keeps_rules, get_item-Keeps))
        (elim [ none ↦ search keeps_rules | some item ↦ search keeps_rules ])

  pub get_job-Keeps : (job_id : Text) → Keeps P (Jobs.get_by_id {S = S} job_id)
  unfolding Jobs.get_by_id
  get_job-Keeps job_id =
      Keeps-bind _ _ (search (keeps_rules, get_item-Keeps))
        (elim [ none ↦ search keeps_rules | some item ↦ search keeps_rules ])

  pub get_signals_since-Keeps :
      (signal_type org_id : Text) (since until : Time)
      → Keeps P (Signals.get_signals_since {S = S} signal_type org_id since until)
  unfolding Signals.get_signals_since
  get_signals_since-Keeps signal_type org_id since until = search (keeps_rules, query-Keeps)

  pub get_workflow_by_id-Keeps :
      (workflow_id : Text) (version : ℤ) → Keeps P (Workflows.get_by_id {S = S} workflow_id version)
  unfolding Workflows.get_by_id
  get_workflow_by_id-Keeps workflow_id version =
      Keeps-bind _ _ (search (keeps_rules, get_item-Keeps))
        (elim [ none ↦ search keeps_rules | some item ↦ search keeps_rules ])

  pub new_action_log-Keeps :
      (run_id : Text) (index : ℤ) (type : ActionType)
      → Keeps P (ActionLogs.new_action_log {S = S} run_id index type)
  unfolding ActionLogs.new_action_log
  new_action_log-Keeps run_id index type = search (keeps_rules, now-Keeps, new_uuid-Keeps)

  pub mark_running-Keeps : (log : ActionLog) → Keeps P (ActionLogs.mark_running {S = S} log)
  unfolding ActionLogs.mark_running
  mark_running-Keeps log = search (keeps_rules, now-Keeps)

  pub mark_log_completed-Keeps :
      (result : Fields) (duration_ms : ℕ) (log : ActionLog)
      → Keeps P (ActionLogs.mark_completed {S = S} result duration_ms log)
  unfolding ActionLogs.mark_completed
  mark_log_completed-Keeps result duration_ms log = search (keeps_rules, now-Keeps)

  pub mark_log_failed-Keeps :
      (e : Error) (duration_ms : ℕ) (log : ActionLog)
      → Keeps P (ActionLogs.mark_failed {S = S} e duration_ms log)
  unfolding ActionLogs.mark_failed
  mark_log_failed-Keeps e duration_ms log = search (keeps_rules, now-Keeps)

  pub mark_scheduled-Keeps :
      (time : ℕ) (log : ActionLog) → Keeps P (ActionLogs.mark_scheduled {S = S} time log)
  unfolding ActionLogs.mark_scheduled
  mark_scheduled-Keeps time log = search (keeps_rules, now-Keeps)

  pub new_workflow_run-Keeps :
      (workflow_id : Text) (version : ℤ) (signal_id : Text) (context : Fields)
      → Keeps P (Run.new_workflow_run {S = S} workflow_id version signal_id context)
  unfolding Run.new_workflow_run
  new_workflow_run-Keeps workflow_id version signal_id context =
      search (keeps_rules, now-Keeps, new_uuid-Keeps)

module _ {P : Trace → Type 0} (ign : Ignores P) where
  pub set_condition_status-Keeps : (index : ℤ) → Keeps P (Run.set_condition_status index)
  unfolding Run.set_condition_status
  set_condition_status-Keeps index = search (keeps_rules, now-Keeps ign)

  pub set_action_started_status-Keeps : (index : ℤ) → Keeps P (Run.set_action_started_status index)
  unfolding Run.set_action_started_status
  set_action_started_status-Keeps index = search (keeps_rules, now-Keeps ign)

  pub set_action_completed_status-Keeps :
      (index : ℤ) → Keeps P (Run.set_action_completed_status index)
  unfolding Run.set_action_completed_status
  set_action_completed_status-Keeps index = search (keeps_rules, now-Keeps ign)

  pub set_action_scheduled_status-Keeps :
      (index : ℤ) → Keeps P (Run.set_action_scheduled_status index)
  unfolding Run.set_action_scheduled_status
  set_action_scheduled_status-Keeps index = search (keeps_rules, now-Keeps ign)

  pub mark_completed-Keeps : Keeps P Run.mark_completed
  unfolding Run.mark_completed
  mark_completed-Keeps = search (keeps_rules, now-Keeps ign)

  pub mark_failed-Keeps : Keeps P Run.mark_failed
  unfolding Run.mark_failed
  mark_failed-Keeps = search (keeps_rules, now-Keeps ign)
