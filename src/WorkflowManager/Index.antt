-- ===== src/WorkflowManager/Index.antt =====
-- Every key of the index by signal type has its workflow in the cache.
pub mod Kept
use mathlib.Core.Path.{subst}
use dahlia.Common.{
  ℤ, Bool, true, false, Bool-cases, Option, none, some, List, [], ◌∷◌, ◌++◌, Text, lookup, insert,
  lookup-insert, text_eq, text_eq_refl, text_eq_iff, All, ◌≡◌, refl, sym, ap, ◌∙◌, inl, inr,
  if◌then◌else◌, arith,
}
use dahlia.Domain.{Workflow}
use dahlia.Runtime.{WorkflowCache}
use dahlia.WorkflowManager.{
  get_workflow_key, workflow_keys, add_workflows, keys_of, index_workflows, cached_workflows,
}

abbrev pub IsCachedKey : List (Text × Workflow) → Text → Type 0
IsCachedKey cache key = (workflow : Workflow) × (lookup key cache ≡ some workflow)

abbrev pub IsCoherent : WorkflowCache → Type 0
IsCoherent c =
    All (λ (entry : Text × List Text). All (IsCachedKey c.workflow_cache) entry.1)
      c.signal_type_index

module _ {A : Type 0} (P Q : A → Type 0) where
  pub All-map : (xs : List A) → ((x : A) → P x → Q x) → All P xs → All Q xs
  All-map [] f h = tt
  All-map (x ∷ xs) f (p, h) = (f x p, All-map xs f h)

  pub All-append : (xs ys : List A) → All P xs → All P ys → All P (xs ++ ys)
  All-append [] ys hx hy = hy
  All-append (x ∷ xs) ys (p, hx) hy = (p, All-append xs ys hx hy)

module _ {V : Type 0} (P : V → Type 0) where
  All-insert :
      (k : Text) (v : V) (m : List (Text × V))
      → P v
      → All (λ (entry : Text × V). P entry.1) m
      → All (λ (entry : Text × V). P entry.1) (insert k v m)
  unfolding insert
  All-insert k v [] p h = (p, tt)
  All-insert k v ((j, w) ∷ m) p (q, h) = elim (Bool-cases (text_eq j k)) [
    | inl same ↦ rw same (p, h)
    | inr other ↦ rw other (q, All-insert k v m p h)
  ]

  All-lookup :
      (k : Text) (v : V) (m : List (Text × V))
      → lookup k m ≡ some v
      → All (λ (entry : Text × V). P entry.1) m
      → P v
  unfolding lookup
  All-lookup k v [] e h = ground arith
  All-lookup k v ((j, w) ∷ m) e (q, h) = elim (Bool-cases (text_eq j k)) [
    | inl same ↦ subst P (ground arith) q
    | inr other ↦ All-lookup k v m (ground arith) h
  ]

pub insert-IsCachedKey :
    (k : Text) (v : Workflow) (m : List (Text × Workflow)) (key : Text)
    → IsCachedKey m key
    → IsCachedKey (insert k v m) key
insert-IsCachedKey k v m key (w, h) = elim (Bool-cases (text_eq k key)) [
  | inl same ↦ (v, rw (lookup-insert k key v m, same) refl)
  | inr other ↦ (w, rw (lookup-insert k key v m, other) h)
]

inserted-IsCachedKey :
    (k : Text) (v : Workflow) (m : List (Text × Workflow)) → IsCachedKey (insert k v m) k
inserted-IsCachedKey k v m = (v, rw (lookup-insert k k v m, text_eq_refl k) refl)

pub add_workflows-IsCachedKey :
    (workflows : List Workflow) (m : List (Text × Workflow)) (key : Text)
    → IsCachedKey m key
    → IsCachedKey (add_workflows workflows m) key
unfolding add_workflows
add_workflows-IsCachedKey [] m key h = h
add_workflows-IsCachedKey (workflow ∷ workflows) m key h =
    add_workflows-IsCachedKey workflows _ key (insert-IsCachedKey _ workflow m key h)

workflow_keys-IsCachedKey :
    (workflows : List Workflow) (m : List (Text × Workflow))
    → All (IsCachedKey (add_workflows workflows m)) (workflow_keys workflows)
unfolding add_workflows workflow_keys
workflow_keys-IsCachedKey [] m = tt
workflow_keys-IsCachedKey (workflow ∷ workflows) m = (
  add_workflows-IsCachedKey workflows _ _ (inserted-IsCachedKey _ workflow m),
  workflow_keys-IsCachedKey workflows _,
)

-- the index that a refresh makes has only keys of its workflows
index_workflows-All :
    (P : Text → Type 0) (workflows : List Workflow) (index : List (Text × List Text))
    → All P (workflow_keys workflows)
    → All (λ (entry : Text × List Text). All P entry.1) index
    → All (λ (entry : Text × List Text). All P entry.1) (index_workflows workflows index)
unfolding index_workflows workflow_keys
index_workflows-All P [] index hk h = h
index_workflows-All P (workflow ∷ workflows) index (p, hk) h =
    index_workflows-All P workflows _ hk (
      All-insert (All P) workflow.signal_type _ index
        (All-append P P _ _ (old (lookup workflow.signal_type index) refl) (p, tt)) h)
  where
    old :
        (keys : Option (List Text))
        → lookup workflow.signal_type index ≡ keys
        → All P (keys_of keys)
    old none e = tt
    old (some keys) e = All-lookup (All P) workflow.signal_type keys index e h
