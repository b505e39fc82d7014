-- ===== src/WorkflowManager/Shared.antt =====
-- The mutex of workflowManager, and the goroutines that meet there: lookups of handlers and workers,
-- and refreshes. What is done between RLock and RUnlock is one step, since no writer is inside; a
-- writer holds the mutex from its Lock, over its second look and its query, to its Unlock.
pub mod Sound
pub mod Typed
pub mod Right
pub mod Served
pub mod Exclusive
use dahlia.Common.{
  ℕ, ℤ, Bool, Option, none, some, List, [], ◌∷◌, Text, lookup, insert, All, ◌==◌, if◌then◌else◌,
  ◌≡◌,
}
use dahlia.Domain.{Workflow}
use dahlia.Runtime.{WorkflowCache}
use dahlia.WorkflowManager.{
  get_workflow_key, workflow_keys, add_workflows, index_workflows, indexed_workflows,
}

-- GetWorkflow, GetWorkflowsBySignalType and RefreshCache
pub data Request : Type 0 where
  one : Text → ℤ → Request
  of_type : Text → Request
  refresh : Request

pub data Reply : Type 0 where
  found : Workflow → Reply
  listed : List Workflow → Reply
  refreshed failed : Reply

found_reply : Option Workflow → Option Reply
found_reply none = none
found_reply (some workflow) = some (found workflow)

listed_reply : Option (List Workflow) → Option Reply
listed_reply none = none
listed_reply (some workflows) = some (listed workflows)

-- the reply that is in memory
unfoldable pub cached : Request → WorkflowCache → Option Reply
unfolding found_reply listed_reply indexed_workflows
cached (one workflow_id version) c =
    found_reply (lookup (get_workflow_key workflow_id version) c.workflow_cache)
cached (of_type signal_type) c =
    listed_reply (indexed_workflows c (lookup signal_type c.signal_type_index))
cached refresh c = none

-- what a query leaves in memory
abbrev pub keep_one : Text → ℤ → Workflow → WorkflowCache → WorkflowCache
keep_one workflow_id version workflow c = record c {
  workflow_cache = insert (get_workflow_key workflow_id version) workflow c.workflow_cache;
}

abbrev pub keep_type : Text → List Workflow → WorkflowCache → WorkflowCache
keep_type signal_type workflows c = record {
  workflow_cache = add_workflows workflows c.workflow_cache;
  signal_type_index = insert signal_type (workflow_keys workflows) c.signal_type_index;
}

abbrev pub keep_page : List Workflow → WorkflowCache
keep_page workflows = record {
  workflow_cache = add_workflows workflows [];
  signal_type_index = index_workflows workflows [];
}

pub record Shared : Type 0 where
  pub owner : Option ℕ
  pub cache : WorkflowCache

-- Where a goroutine stands: before its RLock, before its Lock, before its second look, in its query,
-- and with its reply.
pub data Pc : Type 0 where
  idle : Pc
  reading waiting checking loading : Request → Pc
  served : Request → Reply → Pc

-- One step of goroutine `i`. A query answers with workflows that are stored.
pub data Move (Stored : Workflow → Type 0) (i : ℕ) (m : Shared) : Pc → Shared → Pc → Type 0 where
  look : {r : Request} → Move Stored i m idle m (reading r)
  begin_refresh : Move Stored i m idle m (waiting refresh)
  hit :
      {r : Request} {reply : Reply}
      → m.owner ≡ none
      → cached r m.cache ≡ some reply
      → Move Stored i m (reading r) m (served r reply)
  miss :
      {r : Request}
      → m.owner ≡ none
      → cached r m.cache ≡ none
      → Move Stored i m (reading r) m (waiting r)
  lock :
      {r : Request}
      → m.owner ≡ none
      → Move Stored i m (waiting r) (record m { owner = some i }) (checking r)
  hit_again :
      {r : Request} {reply : Reply}
      → cached r m.cache ≡ some reply
      → Move Stored i m (checking r) (record m { owner = none }) (served r reply)
  miss_again : {r : Request} → cached r m.cache ≡ none → Move Stored i m (checking r) m (loading r)
  load_one :
      {workflow_id : Text} {version : ℤ} (workflow : Workflow)
      → Stored workflow
      → workflow.workflow_id ≡ workflow_id
      → workflow.version ≡ version
      → Move Stored i m
          (loading (one workflow_id version))
          (record { owner = none; cache = keep_one workflow_id version workflow m.cache })
          (served (one workflow_id version) (found workflow))
  load_type :
      {signal_type : Text} (workflows : List Workflow)
      → All (λ (w : Workflow). Stored w × (w.signal_type ≡ signal_type)) workflows
      → Move Stored i m
          (loading (of_type signal_type))
          (record { owner = none; cache = keep_type signal_type workflows m.cache })
          (served (of_type signal_type) (listed workflows))
  load_page :
      (workflows : List Workflow)
      → All Stored workflows
      → Move Stored i m
          (loading refresh)
          (record { owner = none; cache = keep_page workflows })
          (served refresh refreshed)
  fail : {r : Request} → Move Stored i m (loading r) (record m { owner = none }) (served r failed)
  leave : {r : Request} {reply : Reply} → Move Stored i m (served r reply) m idle

pub record System : Type 0 where
  pub mem : Shared
  pub pc : ℕ → Pc

unfoldable pub set_pc : (ℕ → Pc) → ℕ → Pc → ℕ → Pc
set_pc pc i p j = if j == i then p else pc j

pub data Step (Stored : Workflow → Type 0) (s : System) : System → Type 0 where
  pick :
      (i : ℕ) {m : Shared} {p : Pc}
      → Move Stored i s.mem (s.pc i) m p
      → Step Stored s (record { mem = m; pc = set_pc s.pc i p })

-- after NewWorkflowManager
abbrev pub init : System
init = record {
  mem = record { owner = none; cache = record { workflow_cache = []; signal_type_index = [] } };
  pc = λ _. idle;
}

pub data Reach (Stored : Workflow → Type 0) (s : System) : System → Type 0 where
  here : Reach Stored s s
  next : {t u : System} → Reach Stored s t → Step Stored t u → Reach Stored s u
