-- ===== src/SignalHandler.antt =====
-- internal/handler/signal_handler.go, with the constructor of internal/domain/signal.go.
pub mod Latest
pub mod Keys
pub mod Queued
pub mod Saved
pub mod Created
use dahlia.Common.{
  ℕ, suc, ◌||◌, String, Option, none, some, List, [], ◌∷◌, ◌++◌, Text, codes, lookup, insert, ltb_ℤ,
  if◌then◌else◌, map,
}
use dahlia.Errors.{Error, Result, ok, err, is_duplicate_signal_error}
use dahlia.Decimal.{format_nat}
use dahlia.Domain.{Fields, Signal, Workflow}
use dahlia.ErrorCollection.{
  ErrorCollection, new_error_collection, add_error, code_internal_server_error,
}
use dahlia.Runtime.{Time, Go, pure, ask, attempt, World, Env, ◌>>=◌}
use dahlia.Clock.{now}
use dahlia.Repository.Signals
use dahlia.WorkflowManager.{get_workflows_by_signal_type}
use dahlia.Consumer.{ExecutorMessage, send_message}

-- dto.CreateSignalRequest and dto.CreateSignalResponse
pub record CreateSignalRequest : Type 0 where
  pub signal_type : Text
  pub org_id : Text
  pub value : Fields
  pub metadata : Fields
  pub timestamp : Time

pub record CreateSignalResponse : Type 0 where
  pub signal_id : Text
  pub workflows_queued : ℕ

unfoldable pub signal_key : Text → Text → ℕ → Text
signal_key signal_type org_id timestamp =
    signal_type ++ b'#' ∷ (org_id ++ b'#' ∷ format_nat timestamp)

-- The latest version of each workflow: latestVersionMap after the loop.
unfoldable pub keep_newer :
    Workflow → Option Workflow → List (Text × Workflow) → List (Text × Workflow)
keep_newer workflow none latest = insert workflow.workflow_id workflow latest
keep_newer workflow (some existing) latest =
    if ltb_ℤ existing.version workflow.version
    then insert workflow.workflow_id workflow latest
    else latest

unfoldable pub keep_latest : List Workflow → List (Text × Workflow) → List (Text × Workflow)
keep_latest [] latest = latest
keep_latest (workflow ∷ workflows) latest =
    keep_latest workflows (keep_newer workflow (lookup workflow.workflow_id latest) latest)

count_sent : Result (Unit {0}) → ℕ → ℕ
count_sent (ok _) queued_count = suc queued_count
count_sent (err e) queued_count = queued_count

abbrev pub Response : Type 0
Response = CreateSignalResponse × Option ErrorCollection

existing_id : Result Signal → Text → Text
existing_id (ok existing) computed = existing.signal_id
existing_id (err e) computed = computed

module _ {S : Type 0} where
  unfoldable pub new_signal : CreateSignalRequest → Go S Signal
  unfolding now
  new_signal req = do
    now' ← now
    ask (λ env. pure (record {
      signal_id = signal_key req.signal_type req.org_id req.timestamp.unix_milli;
      timestamp = env.format_rfc3339 req.timestamp;
      signal_type = req.signal_type;
      org_id = req.org_id;
      value = req.value;
      metadata = req.metadata;
      created_at = now';
      signal_type_org_id = req.signal_type ++ b'#' ∷ req.org_id;
    }))

  -- the values of the map, in the order of `range`
  pub filter_latest_versions : List Workflow → Go S (List Workflow)
  filter_latest_versions workflows env w =
      pure (env.range_workflows w.trace (map (λ entry. entry.1) (keep_latest workflows []))) env w

  pub queue_workflows : Text → List Workflow → ℕ → Go S ℕ
  queue_workflows signal_id [] queued_count = pure queued_count
  queue_workflows signal_id (workflow ∷ workflows) queued_count = do
    sent ← attempt (
        send_message (record {
          signal_id = signal_id;
          workflow_id = workflow.workflow_id;
          workflow_version = workflow.version;
          run_id = [];
          resume_from = [];
        }))
    queue_workflows signal_id workflows (count_sent sent queued_count)

  accepted : Text → ℕ → Go S Response
  accepted signal_id queued_count =
      pure (record { signal_id = signal_id; workflows_queued = queued_count }, none)

  refused : String → Error → Go S Response
  refused message e = pure (
    record { signal_id = []; workflows_queued = 0 },
    some (add_error code_internal_server_error message (some e) new_error_collection),
  )

  answer_duplicate : Signal → ℕ → Go S Response
  answer_duplicate signal queued_count = do
    existing ← attempt (Signals.get_by_id signal.signal_id)
    accepted (existing_id existing signal.signal_id) queued_count

  pub after_save : Result (Unit {0}) → Signal → ℕ → Go S Response
  after_save (ok _) signal queued_count = accepted signal.signal_id queued_count
  after_save (err e) signal queued_count =
      if is_duplicate_signal_error e
      then answer_duplicate signal queued_count
      else refused "failed to save signal" e

  with_workflows : Result (List Workflow) → Signal → Go S Response
  with_workflows (err e) signal = refused "failed to get workflows" e
  with_workflows (ok workflows) signal = do
    latest_workflows ← filter_latest_versions workflows
    queued_count ← queue_workflows signal.signal_id latest_workflows 0
    saved ← attempt (Signals.create signal)
    after_save saved signal queued_count

  pub create_signal_service : CreateSignalRequest → Go S Response
  create_signal_service req = do
    signal ← new_signal req
    workflows ← attempt (get_workflows_by_signal_type signal.signal_type)
    with_workflows workflows signal
