-- ===== src/SignalHandler/Latest.antt =====
-- filterLatestVersions keeps, for each workflow id, a workflow of the greatest version.
use dahlia.Common.{
  ◌≤ℤ◌, ◌≡◌, refl, ◌⊎◌, inl, inr, Option, none, some, List, [], ◌∷◌, Text, lookup, text_eq,
  text_eq_iff, lookup-insert, arith, if◌then◌else◌, ltb_ℤ, All, ap, ◌∙◌, ◌≢◌, sym, Bool-cases,
  Option-cases,
}
use mathlib.Core.List.{Memᴰ}
use dahlia.Domain.{Workflow}
use dahlia.SignalHandler.{keep_newer, keep_latest}

-- The choice between a workflow and the one kept so far, if their ids are the one looked for.
newer : Text → Workflow → Option Workflow → Option Workflow
newer id workflow none = if text_eq workflow.workflow_id id then some workflow else none
newer id workflow (some kept) =
    if text_eq workflow.workflow_id id
    then if ltb_ℤ kept.version workflow.version then some workflow else some kept
    else some kept

newest : Text → List Workflow → Option Workflow → Option Workflow
newest id [] kept = kept
newest id (workflow ∷ workflows) kept = newest id workflows (newer id workflow kept)

lookup-keep_newer :
    (id : Text) (workflow : Workflow) (latest : List (Text × Workflow))
    → lookup id (keep_newer workflow (lookup workflow.workflow_id latest) latest)
      ≡ newer id workflow (lookup id latest)
unfolding keep_newer newer
lookup-keep_newer id workflow latest = ground (
  arith,
  text_eq_iff workflow.workflow_id id,
  lookup-insert workflow.workflow_id id workflow latest,
)

lookup-keep_latest :
    (id : Text) (workflows : List Workflow) (latest : List (Text × Workflow))
    → lookup id (keep_latest workflows latest) ≡ newest id workflows (lookup id latest)
unfolding keep_latest newest
lookup-keep_latest id [] latest = refl
lookup-keep_latest id (workflow ∷ workflows) latest =
    lookup-keep_latest id workflows
      (keep_newer workflow (lookup workflow.workflow_id latest) latest)
    ∙ ap (newest id workflows) (lookup-keep_newer id workflow latest)

abbrev HasId : Text → Option Workflow → Type 0
HasId id none = Unit
HasId id (some kept) = kept.workflow_id ≡ id

abbrev IsAtLeast : Workflow → Option Workflow → Type 0
IsAtLeast kept none = Unit
IsAtLeast kept (some before) = before.version ≤ℤ kept.version

-- No workflow of that id in the list has a greater version.
abbrev pub IsNewest : Text → Workflow → List Workflow → Type 0
IsNewest id kept workflows =
    All (λ workflow. workflow.workflow_id ≡ id → workflow.version ≤ℤ kept.version) workflows

newer-HasId :
    (id : Text) (workflow : Workflow) (before : Option Workflow)
    → HasId id before
    → HasId id (newer id workflow before)
unfolding newer
newer-HasId id workflow none h = ground (arith, text_eq_iff workflow.workflow_id id)
newer-HasId id workflow (some kept) h = ground (arith, text_eq_iff workflow.workflow_id id)

newer-IsAtLeast :
    (id : Text) (workflow kept : Workflow) (before : Option Workflow)
    → IsAtLeast kept (newer id workflow before)
    → IsAtLeast kept before × (workflow.workflow_id ≡ id → workflow.version ≤ℤ kept.version)
unfolding newer
newer-IsAtLeast id workflow kept none h = ground (arith, text_eq_iff workflow.workflow_id id)
newer-IsAtLeast id workflow kept (some before) h =
    ground (arith, text_eq_iff workflow.workflow_id id)

newer_origin :
    (id : Text) (workflow kept : Workflow) (before : Option Workflow)
    → newer id workflow before ≡ some kept
    → (before ≡ some kept) ⊎ (workflow ≡ kept)
unfolding newer
newer_origin id workflow kept none h = ground arith
newer_origin id workflow kept (some b) h = ground arith

newer-none :
    (id : Text) (workflow : Workflow) (before : Option Workflow)
    → newer id workflow before ≡ none
    → (before ≡ none) × (workflow.workflow_id ≢ id)
unfolding newer
newer-none id workflow none h = (refl, ground (arith, text_eq_iff workflow.workflow_id id))
newer-none id workflow (some before) h = absurd (ground arith)

newest_start :
    (id : Text) (before : Option Workflow) (kept : Workflow)
    → HasId id before
    → before ≡ some kept
    → (kept.workflow_id ≡ id) × IsAtLeast kept before
newest_start id none kept own h = absurd (cc)
newest_start id (some b) kept own h = ground arith

newest-some :
    (id : Text) (workflows : List Workflow) (before : Option Workflow) (kept : Workflow)
    → HasId id before
    → newest id workflows before ≡ some kept
    → (kept.workflow_id ≡ id)
      × IsAtLeast kept before
      × IsNewest id kept workflows
      × ((before ≡ some kept) ⊎ Memᴰ kept workflows)
unfolding newest
newest-some id [] before kept own h =
    let (same, least) = newest_start id before kept own h in (same, least, tt, inl h)
newest-some id (workflow ∷ workflows) before kept own h =
    let (same, least, all, origin) =
      newest-some id workflows (newer id workflow before) kept (newer-HasId id workflow before own)
        h in
    let (least', this) = newer-IsAtLeast id workflow kept before least in
    (
      same,
      least',
      (this, all),
      elim origin [
        | inl e ↦ elim (newer_origin id workflow kept before e) [
          | inl old ↦ inl old
          | inr new ↦ inr (Memᴰ.head (sym new))
        ]
        | inr there ↦ inr (Memᴰ.tail there)
      ],
    )

newest-none :
    (id : Text) (workflows : List Workflow) (before : Option Workflow)
    → newest id workflows before ≡ none
    → (before ≡ none) × All (λ workflow. workflow.workflow_id ≢ id) workflows
unfolding newest
newest-none id [] before h = (h, tt)
newest-none id (workflow ∷ workflows) before h =
    let (nothing, rest) = newest-none id workflows (newer id workflow before) h in
    let (before_none, other) = newer-none id workflow before nothing in (before_none, (other, rest))

-- Each workflow of the list has another id or no greater version.
abbrev pub HasNoNewer : Text → Workflow → List Workflow → Type 0
HasNoNewer id kept workflows =
    All (λ workflow. (workflow.workflow_id ≢ id) ⊎ (workflow.version ≤ℤ kept.version)) workflows

IsNewest-HasNoNewer :
    (id : Text) (kept : Workflow) (workflows : List Workflow)
    → IsNewest id kept workflows
    → HasNoNewer id kept workflows
IsNewest-HasNoNewer id kept [] all = tt
IsNewest-HasNoNewer id kept (workflow ∷ workflows) (this, all) = (
  elim (Bool-cases (text_eq workflow.workflow_id id)) [
    | inl h ↦ inr (this ((text_eq_iff workflow.workflow_id id).0 h))
    | inr h ↦ inl (λ same. absurd (ground (arith, text_eq_iff workflow.workflow_id id)))
  ],
  IsNewest-HasNoNewer id kept workflows all,
)

-- For every id: either the map has no entry and no workflow of the list has that id, or it has one,
-- which is a workflow of the list, with that id, and no workflow of that id has a greater version.
pub keep_latest_lem :
    (workflows : List Workflow) (id : Text)
    → ((lookup id (keep_latest workflows []) ≡ none)
        × All (λ workflow. workflow.workflow_id ≢ id) workflows)
      ⊎ ((kept : Workflow) × (lookup id (keep_latest workflows []) ≡ some kept)
          × (kept.workflow_id ≡ id)
          × HasNoNewer id kept workflows
          × Memᴰ kept workflows)
unfolding lookup
keep_latest_lem workflows id =
    let chosen = lookup-keep_latest id workflows [] in
    elim (Option-cases (lookup id (keep_latest workflows []))) [
      | inl h ↦ inl (h, (newest-none id workflows none (sym chosen ∙ h)).1)
      | inr (kept, h) ↦
          let (same, _, all, origin) = newest-some id workflows none kept tt (sym chosen ∙ h) in
          inr (
            kept,
            h,
            same,
            IsNewest-HasNoNewer id kept workflows all,
            elim origin [ inl e ↦ absurd (cc) | inr there ↦ there ],
          )
    ]
