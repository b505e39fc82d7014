-- ===== src/WorkflowManager/Coherence.antt =====
-- What the manager has returned once, it returns from memory.
use dahlia.Common.{
  ℤ, Text, lookup, ap, Option, none, some, ◌≡◌, refl, arith, lookup-insert, text_eq_refl,
}
use dahlia.Domain.{Workflow}
use dahlia.Runtime.{Env, World, Exit, returned, errored, panicked, continue, raise, ◌>>=◌}
use dahlia.WorkflowManager.{get_workflow_key, keep_workflow, load_workflow, get_workflow}

module _ {S : Type 0} (workflow_id : Text) (version : ℤ) where
  abbrev IsCached : Workflow → World S → Type 0
  IsCached workflow w =
      lookup (get_workflow_key workflow_id version) w.cache.workflow_cache ≡ some workflow

  keep-IsCached :
      (r : Exit Workflow) (env : Env) (w : World S) (workflow : Workflow)
      → (continue r (keep_workflow workflow_id version) raise env w).0 ≡ returned workflow
      → IsCached workflow (continue r (keep_workflow workflow_id version) raise env w).1
  unfolding keep_workflow ◌>>=◌
  keep-IsCached (returned found) env w workflow h = ground (
    arith,
    lookup-insert (get_workflow_key workflow_id version) (get_workflow_key workflow_id version)
        found w.cache.workflow_cache,
    text_eq_refl (get_workflow_key workflow_id version),
  )
  keep-IsCached (errored e) env w workflow h = ground arith
  keep-IsCached panicked env w workflow h = ground arith

  load-IsCached :
      (o : Option Workflow) (env : Env) (w : World S) (workflow : Workflow)
      → lookup (get_workflow_key workflow_id version) w.cache.workflow_cache ≡ o
      → (load_workflow workflow_id version o env w).0 ≡ returned workflow
      → IsCached workflow (load_workflow workflow_id version o env w).1
  unfolding load_workflow ◌>>=◌
  load-IsCached (some found) env w workflow there h = ground arith
  load-IsCached none env w workflow there h = keep-IsCached _ env _ workflow h

-- A workflow that GetWorkflow has returned, it returns again for the same id and version, whatever
-- the outside would answer now, with no outside call and no change of the cache.
pub get_workflow_again :
    {S : Type 0} (workflow_id : Text) (version : ℤ) (env later : Env) (w : World S)
    (workflow : Workflow)
    → (get_workflow workflow_id version env w).0 ≡ returned workflow
    → let w' = (get_workflow workflow_id version env w).1 in
      get_workflow workflow_id version later w' ≡ (returned workflow, w')
unfolding get_workflow load_workflow ◌>>=◌
get_workflow_again workflow_id version env later w workflow h =
    ap (λ o. load_workflow workflow_id version o later (get_workflow workflow_id version env w).1)
      (load-IsCached workflow_id version _ env w workflow refl h)
