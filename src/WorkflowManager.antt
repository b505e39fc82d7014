-- ===== src/WorkflowManager.antt =====
-- internal/service/workflow_manager.go: the workflows of the process in memory, by id and version,
-- and the keys of each signal type. The second look under the write lock is not told apart from the
-- first: no other goroutine runs between the two.
pub mod Coherence
pub mod CacheKeys
pub mod Watched
pub mod Index
pub mod Shared
use dahlia.Common.{ℤ, Option, none, some, List, [], ◌∷◌, ◌++◌, Text, lookup, insert}
use dahlia.Decimal.{format_int}
use dahlia.Domain.{Workflow}
use dahlia.Runtime.{WorkflowCache, Go, pure, returned, wrapping, ◌>>=◌, ◌>>◌}
use dahlia.Repository.Workflows

unfoldable pub get_workflow_key : Text → ℤ → Text
get_workflow_key workflow_id version = workflow_id ++ b':' ∷ format_int version

-- The workflows of a list of keys, if all of them are there.
unfoldable pub cached_workflows : WorkflowCache → List Text → Option (List Workflow)
cached_workflows cache [] = some []
cached_workflows cache (key ∷ keys) = elim (lookup key cache.workflow_cache) [
  | none ↦ none
  | some workflow ↦ elim (cached_workflows cache keys) [
    | none ↦ none
    | some workflows ↦ some (workflow ∷ workflows)
  ]
]

indexed_workflows : WorkflowCache → Option (List Text) → Option (List Workflow)
unfolding cached_workflows
indexed_workflows cache none = none
indexed_workflows cache (some keys) = cached_workflows cache keys

unfoldable pub workflow_keys : List Workflow → List Text
unfolding get_workflow_key
workflow_keys [] = []
workflow_keys (workflow ∷ workflows) =
    get_workflow_key workflow.workflow_id workflow.version ∷ workflow_keys workflows

unfoldable pub add_workflows : List Workflow → List (Text × Workflow) → List (Text × Workflow)
unfolding get_workflow_key
add_workflows [] cache = cache
add_workflows (workflow ∷ workflows) cache =
    add_workflows workflows
      (insert (get_workflow_key workflow.workflow_id workflow.version) workflow cache)

keys_of : Option (List Text) → List Text
keys_of none = []
keys_of (some keys) = keys

-- signalTypeMap[workflow.SignalType] = append(signalTypeMap[workflow.SignalType], key)
unfoldable pub index_workflows : List Workflow → List (Text × List Text) → List (Text × List Text)
unfolding get_workflow_key keys_of
index_workflows [] index = index
index_workflows (workflow ∷ workflows) index = index_workflows workflows (
    insert workflow.signal_type
      (keys_of (lookup workflow.signal_type index)
        ++ get_workflow_key workflow.workflow_id workflow.version ∷ [])
      index)

module _ {S : Type 0} where
  abbrev get_cache : Go S WorkflowCache
  get_cache env w = (returned w.cache, w)

  abbrev set_cache : WorkflowCache → Go S (Unit {0})
  set_cache cache env w = (returned tt, record w { cache = cache })

  load_by_signal_type : Text → Option (List Workflow) → Go S (List Workflow)
  load_by_signal_type signal_type (some workflows) = pure workflows
  load_by_signal_type signal_type none = do
    workflows ← wrapping "failed to get workflows" (Workflows.get_by_signal_type signal_type)
    cache ← get_cache
    set_cache (record {
      workflow_cache = add_workflows workflows cache.workflow_cache;
      signal_type_index = insert signal_type (workflow_keys workflows) cache.signal_type_index;
    })
    pure workflows

  unfoldable pub get_workflows_by_signal_type : Text → Go S (List Workflow)
  unfolding load_by_signal_type indexed_workflows
  get_workflows_by_signal_type signal_type = do
    cache ← get_cache
    load_by_signal_type signal_type
        (indexed_workflows cache (lookup signal_type cache.signal_type_index))

  keep_workflow : Text → ℤ → Workflow → Go S Workflow
  keep_workflow workflow_id version workflow = do
    cache ← get_cache
    set_cache (record cache {
      workflow_cache = insert (get_workflow_key workflow_id version) workflow cache.workflow_cache;
    })
    pure workflow

  load_workflow : Text → ℤ → Option Workflow → Go S Workflow
  unfolding keep_workflow
  load_workflow workflow_id version (some workflow) = pure workflow
  load_workflow workflow_id version none = do
    workflow ← wrapping "failed to get workflow" (Workflows.get_by_id workflow_id version)
    keep_workflow workflow_id version workflow

  unfoldable pub get_workflow : Text → ℤ → Go S Workflow
  unfolding load_workflow
  get_workflow workflow_id version = do
    cache ← get_cache
    load_workflow workflow_id version
        (lookup (get_workflow_key workflow_id version) cache.workflow_cache)

  -- the first page of 50 workflows becomes the whole cache
  pub refresh_cache : Go S (Unit {0})
  refresh_cache = do
    result ← wrapping "failed to list workflows" (Workflows.list 50 [])
    set_cache (record {
      workflow_cache = add_workflows result.rows [];
      signal_type_index = index_workflows result.rows [];
    })
