-- ===== src/WorkflowManager/Shared/Sound.antt =====
-- What the queries leave in memory is what is stored.
use mathlib.Core.Path.{subst}
use dahlia.Common.{
  Bool-cases, some, List, [], ◌∷◌, Text, lookup, insert, lookup-insert, text_eq, text_eq_refl,
  text_eq_iff, All, ◌≡◌, refl, sym, ap, ◌∙◌, inl, inr, arith,
}
use dahlia.Domain.{Workflow}
use dahlia.WorkflowManager.{get_workflow_key, add_workflows}
use dahlia.WorkflowManager.CacheKeys.{get_workflow_key_injective}

abbrev pub key_of : Workflow → Text
key_of workflow = get_workflow_key workflow.workflow_id workflow.version

-- the workflow of a key is there, and has the signal type
abbrev pub HasType : List (Text × Workflow) → Text → Text → Type 0
HasType m signal_type key =
    (workflow : Workflow) × (lookup key m ≡ some workflow) × (workflow.signal_type ≡ signal_type)

abbrev pub IsIndexOf : List (Text × Workflow) → List (Text × List Text) → Type 0
IsIndexOf m index =
    (signal_type : Text) (keys : List Text)
    → lookup signal_type index ≡ some keys
    → All (HasType m signal_type) keys

module _ (Stored : Workflow → Type 0) where
  abbrev pub IsStored : List (Text × Workflow) → Type 0
  IsStored m =
      (key : Text) (workflow : Workflow)
      → lookup key m ≡ some workflow
      → Stored workflow × (key ≡ key_of workflow)

  -- the signal type of an id and a version does not change
  abbrev pub HasOneType : Type 0
  HasOneType =
      (v w : Workflow)
      → Stored v
      → Stored w
      → v.workflow_id ≡ w.workflow_id
      → v.version ≡ w.version
      → v.signal_type ≡ w.signal_type

  pub insert-IsStored :
      (v : Workflow) (m : List (Text × Workflow))
      → Stored v
      → IsStored m
      → IsStored (insert (key_of v) v m)
  insert-IsStored v m stored sound key w h = elim (Bool-cases (text_eq (key_of v) key)) [
    | inl same ↦
        let e : v ≡ w = ground (arith, lookup-insert (key_of v) key v m) in
        (subst Stored e stored, sym ((text_eq_iff (key_of v) key).0 same) ∙ ap key_of e)
    | inr other ↦ sound key w (ground (arith, lookup-insert (key_of v) key v m))
  ]

  pub add_workflows-IsStored :
      (workflows : List Workflow) (m : List (Text × Workflow))
      → All Stored workflows
      → IsStored m
      → IsStored (add_workflows workflows m)
  unfolding add_workflows
  add_workflows-IsStored [] m stored sound = sound
  add_workflows-IsStored (v ∷ workflows) m (here, stored) sound =
      add_workflows-IsStored workflows _ stored (insert-IsStored v m here sound)

  module _ (typed_once : HasOneType) where
    pub insert-HasType :
        (v : Workflow) (m : List (Text × Workflow)) (signal_type key : Text)
        → Stored v
        → IsStored m
        → HasType m signal_type key
        → HasType (insert (key_of v) v m) signal_type key
    insert-HasType v m signal_type key stored sound (w, h, typed) =
        elim (Bool-cases (text_eq (key_of v) key)) [
          | inl same ↦
              let (stored_w, e) = sound key w h in
              let (same_id, same_version) =
                get_workflow_key_injective v.workflow_id w.workflow_id v.version w.version
                  ((text_eq_iff (key_of v) key).0 same ∙ e) in
              (
                v,
                rw (lookup-insert (key_of v) key v m, same) refl,
                typed_once v w stored stored_w same_id same_version ∙ typed,
              )
          | inr other ↦ (w, rw (lookup-insert (key_of v) key v m, other) h, typed)
        ]

    pub add_workflows-HasType :
        (workflows : List Workflow) (m : List (Text × Workflow)) (signal_type key : Text)
        → All Stored workflows
        → IsStored m
        → HasType m signal_type key
        → HasType (add_workflows workflows m) signal_type key
    unfolding add_workflows
    add_workflows-HasType [] m signal_type key stored sound h = h
    add_workflows-HasType (v ∷ workflows) m signal_type key (here, stored) sound h =
        add_workflows-HasType workflows _ signal_type key stored (insert-IsStored v m here sound)
          (insert-HasType v m signal_type key here sound h)

    -- each workflow that was added is there under its key, or another version of its record is
    pub added-HasType :
        (workflows : List Workflow) (m : List (Text × Workflow))
        → All Stored workflows
        → IsStored m
        → All
            (λ (v : Workflow). HasType (add_workflows workflows m) v.signal_type (key_of v))
            workflows
    unfolding add_workflows
    added-HasType [] m stored sound = tt
    added-HasType (v ∷ workflows) m (here, stored) sound = (
      add_workflows-HasType workflows _ v.signal_type (key_of v) stored
          (insert-IsStored v m here sound)
          (v, rw (lookup-insert (key_of v) (key_of v) v m, text_eq_refl (key_of v)) refl, refl),
      added-HasType workflows _ stored (insert-IsStored v m here sound),
    )
