-- ===== src/WorkflowManager/Shared/Typed.antt =====
-- The index has, for each signal type, keys of stored workflows of that type.
use mathlib.Core.Path.{subst}
use dahlia.Common.{
  Bool-cases, Option, none, some, List, [], ◌∷◌, Text, lookup, insert, lookup-insert, text_eq,
  text_eq_iff, All, ◌≡◌, refl, inl, inr, arith,
}
use dahlia.Domain.{Workflow}
use dahlia.Runtime.{WorkflowCache}
use dahlia.WorkflowManager.{workflow_keys, keys_of, index_workflows, cached_workflows}
use dahlia.WorkflowManager.Index.{All-append}
use dahlia.WorkflowManager.Shared.Sound.{key_of, HasType, IsIndexOf, IsStored}

pub keys-HasType :
    (workflows : List Workflow) (m : List (Text × Workflow)) (signal_type : Text)
    → All (λ (v : Workflow). v.signal_type ≡ signal_type) workflows
    → All (λ (v : Workflow). HasType m v.signal_type (key_of v)) workflows
    → All (HasType m signal_type) (workflow_keys workflows)
unfolding workflow_keys
keys-HasType [] m signal_type typed h = tt
keys-HasType (v ∷ workflows) m signal_type (e, typed) (p, h) =
    (subst (λ t. HasType m t (key_of v)) e p, keys-HasType workflows m signal_type typed h)

-- an entry of the index is replaced by keys of its type
pub insert-IsIndexOf :
    (m : List (Text × Workflow)) (index : List (Text × List Text)) (signal_type : Text)
    (keys : List Text)
    → All (HasType m signal_type) keys
    → IsIndexOf m index
    → IsIndexOf m (insert signal_type keys index)
insert-IsIndexOf m index signal_type keys p h t ks e = elim (Bool-cases (text_eq signal_type t)) [
  | inl same ↦
      let e' : signal_type ≡ t = (text_eq_iff signal_type t).0 same in
      let ks' : keys ≡ ks = ground (arith, lookup-insert signal_type t keys index) in
      subst (λ u. All (HasType m u) ks) e' (subst (All (HasType m signal_type)) ks' p)
  | inr other ↦ h t ks (ground (arith, lookup-insert signal_type t keys index))
]

pub index_workflows-IsIndexOf :
    (m : List (Text × Workflow)) (workflows : List Workflow) (index : List (Text × List Text))
    → All (λ (v : Workflow). HasType m v.signal_type (key_of v)) workflows
    → IsIndexOf m index
    → IsIndexOf m (index_workflows workflows index)
unfolding index_workflows
index_workflows-IsIndexOf m [] index p h = h
index_workflows-IsIndexOf m (v ∷ workflows) index (here, p) h =
    index_workflows-IsIndexOf m workflows _ p (
      insert-IsIndexOf m index v.signal_type _
        (All-append (HasType m v.signal_type) (HasType m v.signal_type) _ _
          (old (lookup v.signal_type index) refl) (here, tt))
        h)
  where
    old :
        (keys : Option (List Text))
        → lookup v.signal_type index ≡ keys
        → All (HasType m v.signal_type) (keys_of keys)
    old none e = tt
    old (some keys) e = h v.signal_type keys e

-- the workflows of keys of a type are stored and have it
pub cached-HasType :
    (Stored : Workflow → Type 0) (c : WorkflowCache) (signal_type : Text) (keys : List Text)
    (found : List Workflow)
    → IsStored Stored c.workflow_cache
    → All (HasType c.workflow_cache signal_type) keys
    → cached_workflows c keys ≡ some found
    → All (λ (v : Workflow). Stored v × (v.signal_type ≡ signal_type)) found
unfolding cached_workflows
cached-HasType Stored c signal_type [] found sound h e =
    let none_found : [] ≡ found = ground arith in
    subst (All (λ (v : Workflow). Stored v × (v.signal_type ≡ signal_type))) none_found tt
cached-HasType Stored c signal_type (key ∷ keys) found sound ((w, there, typed), h) e =
    go (λ rest k. cached-HasType Stored c signal_type keys rest sound h k) (cached_workflows c keys)
      refl
  where
    go :
        ((rest : List Workflow)
          → cached_workflows c keys ≡ some rest
          → All (λ (v : Workflow). Stored v × (v.signal_type ≡ signal_type)) rest)
        → (r : Option (List Workflow)) → cached_workflows c keys ≡ r
        → All (λ (v : Workflow). Stored v × (v.signal_type ≡ signal_type)) found
    go others none k = ground (arith, there, e)
    go others (some rest) k =
        let all_found : w ∷ rest ≡ found = ground (arith, there, e) in
        subst (All (λ (v : Workflow). Stored v × (v.signal_type ≡ signal_type))) all_found
          (((sound key w there).0, typed), others rest k)
