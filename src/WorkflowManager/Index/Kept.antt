-- ===== src/WorkflowManager/Index/Kept.antt =====
-- The operations of the manager keep the index coherent, and answer from it.
use dahlia.Common.{ℤ, Option, none, some, List, [], ◌∷◌, Text, lookup, insert, All, ◌≡◌, refl}
use dahlia.Errors.{Result, ok, err}
use dahlia.Domain.{Workflow}
use dahlia.Runtime.{
  WorkflowCache, Env, World, returned, Page, Item, by_version, by_signal_type, workflows, ◌>>=◌,
}
use dahlia.Repository.{int32}
use dahlia.Repository.Workflows
use dahlia.WorkflowManager.{
  get_workflow_key, workflow_keys, add_workflows, cached_workflows, indexed_workflows,
  refresh_cache, get_workflow, load_workflow, keep_workflow, get_workflows_by_signal_type,
  load_by_signal_type,
}
use dahlia.WorkflowManager.Index.{
  IsCachedKey, IsCoherent, All-map, All-insert, All-lookup, insert-IsCachedKey,
  add_workflows-IsCachedKey, workflow_keys-IsCachedKey, index_workflows-All,
}

module _ {S : Type 0} (env : Env) (w : World S) where
  refresh-IsCoherent :
      (o : Result Page)
      → env.scan w.trace workflows (int32 50) none ≡ o
      → IsCoherent w.cache
      → IsCoherent (refresh_cache env w).1.cache
  unfolding refresh_cache Workflows.list ◌>>=◌
  refresh-IsCoherent (err e) h c = rw h c
  refresh-IsCoherent (ok page) h c =
      rw h (index_workflows-All _ _ [] (workflow_keys-IsCachedKey _ []) tt)

  added-IsCoherent :
      (signal_type : Text) (found : List Workflow)
      → IsCoherent w.cache
      → IsCoherent (record {
        workflow_cache = add_workflows found w.cache.workflow_cache;
        signal_type_index = insert signal_type (workflow_keys found) w.cache.signal_type_index;
      })
  added-IsCoherent signal_type found c =
      All-insert _ signal_type _ _ (workflow_keys-IsCachedKey found _)
        (All-map _ _ _ (λ entry keys. All-map _ _ _ (add_workflows-IsCachedKey found _) keys) c)

  load_type-IsCoherent :
      (signal_type : Text) (cached : Option (List Workflow)) (o : Result Page)
      → env.query w.trace workflows (by_signal_type signal_type) none none ≡ o
      → IsCoherent w.cache
      → IsCoherent (load_by_signal_type signal_type cached env w).1.cache
  unfolding load_by_signal_type Workflows.get_by_signal_type ◌>>=◌
  load_type-IsCoherent signal_type (some found) o h c = c
  load_type-IsCoherent signal_type none (err e) h c = rw h c
  load_type-IsCoherent signal_type none (ok page) h c = rw h (added-IsCoherent signal_type _ c)

  kept-IsCoherent :
      (key : Text) (workflow : Workflow)
      → IsCoherent w.cache
      → IsCoherent (record w.cache { workflow_cache = insert key workflow w.cache.workflow_cache })
  kept-IsCoherent key workflow c =
      All-map _ _ _ (λ entry keys. All-map _ _ _ (insert-IsCachedKey key workflow _) keys) c

  found-IsCoherent :
      (workflow_id : Text) (version : ℤ) (item : Item) (r : Result Workflow)
      → env.get_item w.trace workflows (by_version workflow_id version) ≡ ok (some item)
      → env.unmarshal_workflow item ≡ r
      → IsCoherent w.cache
      → IsCoherent (load_workflow workflow_id version none env w).1.cache
  unfolding load_workflow keep_workflow Workflows.get_by_id ◌>>=◌
  found-IsCoherent workflow_id version item (err e) h k c = rw (h, k) c
  found-IsCoherent workflow_id version item (ok workflow) h k c =
      rw (h, k) (kept-IsCoherent (get_workflow_key workflow_id version) workflow c)

  load_workflow-IsCoherent :
      (workflow_id : Text) (version : ℤ) (cached : Option Workflow) (o : Result (Option Item))
      → env.get_item w.trace workflows (by_version workflow_id version) ≡ o
      → IsCoherent w.cache
      → IsCoherent (load_workflow workflow_id version cached env w).1.cache
  unfolding load_workflow keep_workflow Workflows.get_by_id ◌>>=◌
  load_workflow-IsCoherent workflow_id version (some found) o h c = c
  load_workflow-IsCoherent workflow_id version none (err e) h c = rw h c
  load_workflow-IsCoherent workflow_id version none (ok none) h c = rw h c
  load_workflow-IsCoherent workflow_id version none (ok (some item)) h c =
      found-IsCoherent workflow_id version item _ h refl c

-- If every key of the index has its workflow in the cache, this is so after a refresh, after a lookup
-- of a workflow, and after a lookup of the workflows of a signal type, however they end.
pub IsCoherent_lem :
    {S : Type 0} (signal_type workflow_id : Text) (version : ℤ) (env : Env) (w : World S)
    → IsCoherent w.cache
    → IsCoherent (refresh_cache env w).1.cache
      × IsCoherent (get_workflow workflow_id version env w).1.cache
      × IsCoherent (get_workflows_by_signal_type signal_type env w).1.cache
unfolding get_workflow get_workflows_by_signal_type ◌>>=◌
IsCoherent_lem signal_type workflow_id version env w c = (
  refresh-IsCoherent env w _ refl c,
  load_workflow-IsCoherent env w workflow_id version _ _ refl c,
  load_type-IsCoherent env w signal_type _ _ refl c,
)

cached-All :
    (c : WorkflowCache) (keys : List Text)
    → All (IsCachedKey c.workflow_cache) keys
    → (found : List Workflow) × (cached_workflows c keys ≡ some found)
unfolding cached_workflows
cached-All c [] h = ([], refl)
cached-All c (key ∷ keys) ((workflow, there), h) =
    let (found, cached) = cached-All c keys h in
    (workflow ∷ found, rw (cached_workflows, there, cached) refl)

-- If every key of the index has its workflow in the cache, a signal type that the index has is looked
-- up in memory: the lookup returns, with no outside call and no change, whatever has been stored
-- in the database since.
pub get_workflows_by_signal_type_lem :
    {S : Type 0} (signal_type : Text) (keys : List Text) (env : Env) (w : World S)
    → IsCoherent w.cache
    → lookup signal_type w.cache.signal_type_index ≡ some keys
    → (found : List Workflow) × (cached_workflows w.cache keys ≡ some found)
      × (get_workflows_by_signal_type signal_type env w ≡ (returned found, w))
unfolding get_workflows_by_signal_type indexed_workflows load_by_signal_type ◌>>=◌
get_workflows_by_signal_type_lem signal_type keys env w c h =
    let (found, cached) =
      cached-All w.cache keys (All-lookup _ signal_type keys w.cache.signal_type_index h c) in
    (found, cached, rw (h, cached) refl)
