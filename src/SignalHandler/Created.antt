-- ===== src/SignalHandler/Created.antt =====
-- How CreateSignalService answers, and what it has put in the executor queue by then.
use mathlib.Core.Path.{subst}
use dahlia.Common.{ℕ, ◌+◌, Option, List, [], ◌∷◌, ◌++◌, map, length, ◌≡◌, refl, sym, ap, ◌∙◌, arith}
use dahlia.Errors.{Result, ok}
use dahlia.Domain.{Signal, Workflow}
use dahlia.ErrorCollection.{ErrorCollection}
use dahlia.Runtime.{Env, World, Exit, returned, pure, attempt, read_clock, ◌>>=◌}
use dahlia.Runtime.Steps.{bind-returned, attempt_of_returned}
use dahlia.Repository.Signals
use dahlia.Scheduler.Sending.{accepted}
use dahlia.WorkflowManager.{get_workflows_by_signal_type}
use dahlia.SignalHandler.{
  CreateSignalRequest, CreateSignalResponse, Response, keep_latest, filter_latest_versions,
  queue_workflows, new_signal, signal_key, after_save, with_workflows, create_signal_service,
}
use dahlia.SignalHandler.Queued.{queue_workflows_lem}
use dahlia.SignalHandler.Saved.{IsReply, save-Ends}

module _ {S : Type 0} where
  -- the world after the clock has been read
  abbrev pub clocked : Env → World S → World S
  clocked env w = record w { trace = read_clock (env.now w.trace) ∷ w.trace }

  abbrev pub made : CreateSignalRequest → Env → World S → Signal
  made req env w = record {
    signal_id = signal_key req.signal_type req.org_id req.timestamp.unix_milli;
    timestamp = env.format_rfc3339 req.timestamp;
    signal_type = req.signal_type;
    org_id = req.org_id;
    value = req.value;
    metadata = req.metadata;
    created_at = env.now w.trace;
    signal_type_org_id = req.signal_type ++ b'#' ∷ req.org_id;
  }

  new_signal_lem :
      (req : CreateSignalRequest) (env : Env) (w : World S)
      → new_signal req env w ≡ (returned (made req env w), clocked env w)
  unfolding new_signal ◌>>=◌
  new_signal_lem req env w = refl

  abbrev pub latest_of : Env → World S → List Workflow → List Workflow
  latest_of env w workflows =
      env.range_workflows w.trace (map (λ entry. entry.1) (keep_latest workflows []))

  with_workflows_queued :
      (workflows : List Workflow) (signal : Signal) (n : ℕ) (env : Env) (w : World S)
      → (queue_workflows signal.signal_id (latest_of env w workflows) 0 env w).0 ≡ returned n
      → with_workflows (ok workflows) signal env w
        ≡ (attempt (Signals.create signal) >>= λ saved. after_save saved signal n) env
            (queue_workflows signal.signal_id (latest_of env w workflows) 0 env w).1
  unfolding with_workflows filter_latest_versions pure
  with_workflows_queued workflows signal n env w h =
      bind-returned (filter_latest_versions workflows) _ env w w (latest_of env w workflows) refl
      ∙ bind-returned (queue_workflows signal.signal_id (latest_of env w workflows) 0) _ env w
          (queue_workflows signal.signal_id (latest_of env w workflows) 0 env w).1 n
          (ap (λ r. (r, (queue_workflows signal.signal_id (latest_of env w workflows) 0 env w).1))
            h)

  service_with_workflows :
      (req : CreateSignalRequest) (env : Env) (w w₁ : World S) (workflows : List Workflow)
      → get_workflows_by_signal_type req.signal_type env (clocked env w) ≡ (returned workflows, w₁)
      → create_signal_service req env w ≡ with_workflows (ok workflows) (made req env w) env w₁
  unfolding create_signal_service
  service_with_workflows req env w w₁ workflows h =
      let find = get_workflows_by_signal_type req.signal_type in
      bind-returned (new_signal req) _ env w (clocked env w) (made req env w)
        (new_signal_lem req env w)
      ∙ bind-returned (attempt find) (λ found. with_workflows found (made req env w)) env
          (clocked env w) w₁ (ok workflows)
          (attempt_of_returned find env (clocked env w) workflows (ap (λ p. p.0) h)
            ∙ ap (λ p. (returned (ok workflows), p.1)) h)

  -- the world after the workflows have been queued
  abbrev pub queued : CreateSignalRequest → List Workflow → Env → World S → World S → World S
  queued req workflows env w w₁ =
      (queue_workflows (made req env w).signal_id (latest_of env w₁ workflows) 0 env w₁).1

  abbrev IsCreated : Signal → Env → World S → World S → Exit Response × World S → Type 0
  IsCreated signal env w₁ w₂ (r, w') =
      (n : ℕ) × (n + length (accepted w₁.trace) ≡ length (accepted w₂.trace))
      × (saved : Result (Unit {0})) × ((attempt (Signals.create signal) env w₂).0 ≡ returned saved)
      × (response : CreateSignalResponse) × (errors : Option ErrorCollection) × (r
          ≡ returned (response, errors))
      × IsReply saved n response errors
      × (accepted w'.trace ≡ accepted w₂.trace)

-- If the workflows of the signal type are found, the service returns, whatever the database and the
-- queue answer. By the time it attempts to save the signal the executor queue has accepted n messages,
-- and none follows; n is the number that the answer gives if the signal is stored or refused as a
-- duplicate, and a save that fails otherwise is answered with an error.
pub create_signal_service_lem :
    {S : Type 0} (req : CreateSignalRequest) (env : Env) (w w₁ : World S)
    (workflows : List Workflow)
    → get_workflows_by_signal_type req.signal_type env (clocked env w) ≡ (returned workflows, w₁)
    → let (r, w') = create_signal_service req env w in
      let w₂ = queued req workflows env w w₁ in
      (n : ℕ) × (n + length (accepted w₁.trace) ≡ length (accepted w₂.trace))
      × (saved : Result (Unit {0})) × ((attempt (Signals.create (made req env w)) env w₂).0
          ≡ returned saved)
      × (response : CreateSignalResponse) × (errors : Option ErrorCollection) × (r
          ≡ returned (response, errors))
      × IsReply saved n response errors
      × (accepted w'.trace ≡ accepted w₂.trace)
create_signal_service_lem req env w w₁ workflows h =
    let signal = made req env w in
    let w₂ = queued req workflows env w w₁ in
    let (n, exit, counted, small) =
      queue_workflows_lem signal.signal_id (latest_of env w₁ workflows) 0 env w₁ in
    let (saved, attempted, (response, errors, done, reply, quiet)) = save-Ends signal n env w₂ in
    subst (IsCreated signal env w₁ w₂)
      (sym (
        service_with_workflows req env w w₁ workflows h
        ∙ with_workflows_queued workflows signal n env w₁ exit))
      (n, omega (arith, counted), saved, attempted, response, errors, done, reply, quiet)
