-- ===== src/WorkflowManager/Shared/Right.antt =====
-- The replies from memory, and the memory after each query.
use mathlib.Core.Path.{subst}
use dahlia.Common.{ℤ, Option, none, some, List, [], Text, lookup, All, ◌≡◌, refl, sym, arith}
use dahlia.Domain.{Workflow}
use dahlia.Runtime.{WorkflowCache}
use dahlia.WorkflowManager.{get_workflow_key, add_workflows, indexed_workflows, cached_workflows}
use dahlia.WorkflowManager.CacheKeys.{get_workflow_key_injective}
use dahlia.WorkflowManager.Index.{All-map}
use dahlia.WorkflowManager.Shared.{
  Request, one, of_type, refresh, Reply, found, listed, refreshed, failed, cached, found_reply,
  listed_reply, keep_one, keep_type, keep_page,
}
use dahlia.WorkflowManager.Shared.Sound.{
  IsIndexOf, IsStored, HasOneType, insert-IsStored, add_workflows-IsStored, insert-HasType,
  add_workflows-HasType, added-HasType,
}
use dahlia.WorkflowManager.Shared.Typed.{
  keys-HasType, insert-IsIndexOf, index_workflows-IsIndexOf, cached-HasType,
}

-- A reply is right: a workflow that is stored with the id and version, or workflows that are stored
-- and have the signal type.
abbrev pub IsRight : (Workflow → Type 0) → Request → Reply → Type 0
IsRight Stored (one workflow_id version) (found w) =
    Stored w × (w.workflow_id ≡ workflow_id) × (w.version ≡ version)
IsRight Stored (of_type signal_type) (listed workflows) =
    All (λ (w : Workflow). Stored w × (w.signal_type ≡ signal_type)) workflows
IsRight Stored refresh refreshed = Unit
IsRight Stored r failed = Unit
IsRight Stored _ _ = ⊥

pub failed-IsRight : (Stored : Workflow → Type 0) (r : Request) → IsRight Stored r failed
failed-IsRight Stored (one workflow_id version) = tt
failed-IsRight Stored (of_type signal_type) = tt
failed-IsRight Stored refresh = tt

module _ (Stored : Workflow → Type 0) (typed_once : HasOneType Stored) where
  unfoldable pub IsSound : WorkflowCache → Type 0
  IsSound c = IsStored Stored c.workflow_cache × IsIndexOf c.workflow_cache c.signal_type_index

  found-IsRight :
      (workflow_id : Text) (version : ℤ) (m : List (Text × Workflow)) (o : Option Workflow)
      (reply : Reply)
      → IsStored Stored m
      → lookup (get_workflow_key workflow_id version) m ≡ o
      → found_reply o ≡ some reply
      → IsRight Stored (one workflow_id version) reply
  unfolding found_reply
  found-IsRight workflow_id version m none reply sound h e = ground arith
  found-IsRight workflow_id version m (some w) reply sound h e =
      let (stored, same) = sound _ w h in
      let (same_id, same_version) =
        get_workflow_key_injective workflow_id w.workflow_id version w.version same in
      let replied : found w ≡ reply = ground arith in
      subst (IsRight Stored (one workflow_id version)) replied
        (stored, sym same_id, sym same_version)

  listed-IsRight :
      (signal_type : Text) (c : WorkflowCache) (keys : Option (List Text)) (reply : Reply)
      → IsStored Stored c.workflow_cache
      → IsIndexOf c.workflow_cache c.signal_type_index
      → lookup signal_type c.signal_type_index ≡ keys
      → listed_reply (indexed_workflows c keys) ≡ some reply
      → IsRight Stored (of_type signal_type) reply
  unfolding listed_reply indexed_workflows
  listed-IsRight signal_type c none reply sound index h e = ground arith
  listed-IsRight signal_type c (some keys) reply sound index h e = go (cached_workflows c keys) refl
    where
      go :
          (o : Option (List Workflow))
          → cached_workflows c keys ≡ o
          → IsRight Stored (of_type signal_type) reply
      go none k = ground (arith, e, k)
      go (some workflows) k =
          let replied : listed workflows ≡ reply = ground (arith, e, k) in
          subst (IsRight Stored (of_type signal_type)) replied
            (cached-HasType Stored c signal_type keys workflows sound (index signal_type keys h) k)

  pub cached-IsRight :
      (r : Request) (c : WorkflowCache) (reply : Reply)
      → IsSound c
      → cached r c ≡ some reply
      → IsRight Stored r reply
  unfolding cached IsSound
  cached-IsRight (one workflow_id version) c reply (sound, index) e =
      found-IsRight workflow_id version c.workflow_cache _ reply sound refl e
  cached-IsRight (of_type signal_type) c reply (sound, index) e =
      listed-IsRight signal_type c _ reply sound index refl e
  cached-IsRight refresh c reply sound e = ground arith

  pub keep_one-IsSound :
      (w : Workflow) (c : WorkflowCache)
      → Stored w
      → IsSound c
      → IsSound (keep_one w.workflow_id w.version w c)
  unfolding IsSound
  keep_one-IsSound w c stored (sound, index) = (
    insert-IsStored Stored w c.workflow_cache stored sound,
    λ t keys e.
        All-map _ _ keys (λ key p. insert-HasType Stored typed_once w _ t key stored sound p)
          (index t keys e),
  )

  add_workflows-IsIndexOf :
      (workflows : List Workflow) (c : WorkflowCache)
      → All Stored workflows
      → IsSound c
      → IsIndexOf (add_workflows workflows c.workflow_cache) c.signal_type_index
  unfolding IsSound
  add_workflows-IsIndexOf workflows c stored (sound, index) t keys e =
      All-map _ _ keys
        (λ key p. add_workflows-HasType Stored typed_once workflows _ t key stored sound p)
        (index t keys e)

  pub keep_type-IsSound :
      (signal_type : Text) (workflows : List Workflow) (c : WorkflowCache)
      → All (λ (w : Workflow). Stored w × (w.signal_type ≡ signal_type)) workflows
      → IsSound c
      → IsSound (keep_type signal_type workflows c)
  unfolding IsSound
  keep_type-IsSound signal_type workflows c p (sound, index) =
      let stored : All Stored workflows = All-map _ _ workflows (λ w q. q.0) p in
      (
        add_workflows-IsStored Stored workflows c.workflow_cache stored sound,
        insert-IsIndexOf _ _ signal_type _
            (keys-HasType workflows _ signal_type (All-map _ _ workflows (λ w q. q.1) p)
              (added-HasType Stored typed_once workflows c.workflow_cache stored sound))
            (add_workflows-IsIndexOf workflows c stored (sound, index)),
      )

  pub nothing-IsStored : IsStored Stored []
  unfolding lookup
  nothing-IsStored key w h = ground arith

  pub nothing-IsIndexOf : (m : List (Text × Workflow)) → IsIndexOf m []
  unfolding lookup
  nothing-IsIndexOf m t keys h = ground arith

  pub keep_page-IsSound :
      (workflows : List Workflow) → All Stored workflows → IsSound (keep_page workflows)
  unfolding IsSound
  keep_page-IsSound workflows stored = (
    add_workflows-IsStored Stored workflows [] stored nothing-IsStored,
    index_workflows-IsIndexOf _ workflows []
        (added-HasType Stored typed_once workflows [] stored nothing-IsStored)
        (nothing-IsIndexOf _),
  )
