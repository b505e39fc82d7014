-- ===== src/Handlers/Workflows/Created.antt =====
-- What the creation of a workflow answers, whatever becomes of its nodes in ZooKeeper.
use dahlia.Common.{ℕ, suc, ◌≡◌, refl, ap, ◌∙◌, ◌⊎◌, inl, inr, Option, none, some, ◌∷◌, Text}
use dahlia.Errors.{Error, ok, err}
use dahlia.Domain.{Workflow}
use dahlia.ErrorCollection.{code_internal_server_error}
use dahlia.Runtime.{
  Env, World, Exit, returned, errored, read_clock, pure, attempt, workflows, of_workflow, is_new,
  ◌>>=◌,
}
use dahlia.Runtime.Steps.{bind-returned, attempt_of_returned, attempt_of_errored}
use dahlia.Runtime.Returns.{Returns, Returns-bind, Returns-call, Returns-ignored}
use dahlia.Coordinator.{Coordinator}
use dahlia.Coordinator.Written.{Stays, upsert_node_lem, update_node_lem}
use dahlia.Repository.Workflows
use dahlia.Requests.{RequestIo}
use dahlia.Handlers.Limits.{refuse}
use dahlia.Handlers.Workflows.{
  CreateWorkflowRequest, no_workflow, workflow_response, workflow_path, refresh_path,
  WorkflowAnswer, publish, after_create, create_workflow_service,
}

ended :
    {A P : Type 0} {r : Exit A} {a : A}
    → ((r ≡ returned a) × P) ⊎ ((e : Error) × (r ≡ errored e))
    → ((a : A) × (r ≡ returned a)) ⊎ ((e : Error) × (r ≡ errored e))
ended {a} (inl (h, p)) = inl (a, h)
ended (inr h) = inr h

module _ (env : Env) (rounds : ℕ) (workflow : Workflow)
    (node : (bytes : Text) → Stays env (workflow_path workflow.workflow_id) bytes)
    (trigger : (bytes : Text) → Stays env refresh_path bytes) where
  publish-Returns : Returns env (publish (suc rounds) workflow)
  unfolding publish workflow_path
  publish-Returns =
      Returns-bind _ _ (Returns-ignored _ (λ w. ended (upsert_node_lem env _ _ rounds w (node _))))
        λ _. Returns-bind _ _ (Returns-call _ _) λ updated_at.
          Returns-ignored _ (λ w. ended (update_node_lem env _ _ rounds w (trigger _)))

  after_create-returned :
      (w : World Coordinator)
      → (after_create (suc rounds) workflow (ok tt) env w).0
        ≡ returned (workflow_response workflow, none)
  unfolding after_create pure
  after_create-returned w =
      let (a, h) = publish-Returns.at w in
      ap (λ p. p.0)
        (bind-returned (publish (suc rounds) workflow) _ env w _ a
          (ap (λ e. (e, (publish (suc rounds) workflow env w).1)) h))
      ∙ refl

after_create-errored :
    (rounds : ℕ) (workflow : Workflow) (e : Error) (env : Env) (w : World Coordinator)
    → after_create (suc rounds) workflow (err e) env w
      ≡ (returned (refuse no_workflow code_internal_server_error "failed to save workflow"), w)
unfolding after_create pure
after_create-errored rounds workflow e env w = refl

module _ (env : Env) (workflow : Workflow) (w : World Coordinator) where
  abbrev Saves : Exit (Unit {0}) → Type 0
  Saves r = (r ≡ returned tt) ⊎ ((e : Error) × (r ≡ errored e))

  create-Saves :
      (marshalled stored : Option Error)
      → env.marshal (of_workflow workflow) ≡ marshalled
      → env.put_item w.trace workflows (of_workflow workflow) is_new ≡ stored
      → Saves (Workflows.create workflow env w).0
  unfolding Workflows.create ◌>>=◌
  create-Saves (some e) stored h k = rw h (inr (_, refl))
  create-Saves none (some e) h k = rw (h, k) (inr (_, refl))
  create-Saves none none h k = rw (h, k) (inl refl)

  abbrev Answers : ℕ → Exit WorkflowAnswer × World Coordinator → Type 0
  Answers rounds (r, w') =
      let (saved, w₁) = Workflows.create workflow env w in
      ((saved ≡ returned tt) × (r ≡ returned (workflow_response workflow, none)))
      ⊎ ((e : Error) × (saved ≡ errored e)
          × (r ≡ returned (refuse no_workflow code_internal_server_error "failed to save workflow"))
          × (w' ≡ w₁))

  saved-Answers :
      (rounds : ℕ)
      → ((bytes : Text) → Stays env (workflow_path workflow.workflow_id) bytes)
      → ((bytes : Text) → Stays env refresh_path bytes)
      → Saves (Workflows.create workflow env w).0
      → Answers rounds
          ((attempt (Workflows.create workflow) >>= after_create (suc rounds) workflow) env w)
  saved-Answers rounds node trigger (inl h) = inl (
    h,
    ap (λ p. p.0)
          (bind-returned (attempt (Workflows.create workflow)) _ env w _ (ok tt)
            (attempt_of_returned _ env w tt h))
        ∙ after_create-returned env rounds workflow node trigger _,
  )
  saved-Answers rounds node trigger (inr (e, h)) =
      let failed =
        bind-returned (attempt (Workflows.create workflow)) (after_create (suc rounds) workflow) env
          w _ (err e) (attempt_of_errored _ env w e h) in
      let refused =
        after_create-errored rounds workflow e env (Workflows.create workflow env w).1 in
      inr (
        e,
        h,
        ap (λ p. p.0) failed ∙ ap (λ p. p.0) refused,
        ap (λ p. p.1) failed ∙ ap (λ p. p.1) refused,
      )

-- the workflow of a request, with the time at which the request is handled
abbrev pub requested : CreateWorkflowRequest → ℕ → Workflow
requested req time = record {
  workflow_id = req.workflow_id;
  version = req.version;
  name = req.name;
  signal_type = req.signal_type;
  conditions = req.conditions;
  actions = req.actions;
  created_at = time;
  updated_at = time;
}

-- If a node that Create finds to exist is there for the Get that follows: the creation of a workflow
-- answers with the workflow exactly if the database has saved it, whatever ZooKeeper answers;
-- otherwise it answers with an internal error, and the refused write was its last call.
pub create_workflow_service_lem :
    (ioutil : RequestIo CreateWorkflowRequest) (rounds : ℕ) (env : Env) (w : World Coordinator)
    → ((bytes : Text) → Stays env (workflow_path ioutil.body.workflow_id) bytes)
    → ((bytes : Text) → Stays env refresh_path bytes)
    → let workflow = requested ioutil.body (env.now w.trace) in
      let (saved, w₁) =
        Workflows.create workflow env
          (record w { trace = read_clock (env.now w.trace) ∷ w.trace }) in
      let (r, w') = create_workflow_service (suc rounds) ioutil env w in
      ((saved ≡ returned tt) × (r ≡ returned (workflow_response workflow, none)))
      ⊎ ((e : Error) × (saved ≡ errored e)
          × (r ≡ returned (refuse no_workflow code_internal_server_error "failed to save workflow"))
          × (w' ≡ w₁))
unfolding create_workflow_service ◌>>=◌
create_workflow_service_lem ioutil rounds env w node trigger =
    let workflow = requested ioutil.body (env.now w.trace) in
    saved-Answers env workflow _ rounds node trigger (create-Saves env workflow _ _ _ refl refl)
