-- ===== src/WorkflowExecutor/Resume.antt =====
-- Where a resumed run starts.
use dahlia.Common.{ℕ, [], suc, negsuc, ◌≡◌, refl, ◌⊎◌, inl, inr}
use dahlia.Errors.{Error, wrap}
use dahlia.Domain.{Signal, Workflow, WorkflowRun}
use dahlia.Runtime.{Env, World, Exit, returned, errored, panicked, ◌>>=◌}
use dahlia.Run
use dahlia.WorkflowExecutor.{save_after, next_index, start_actions, resume_run}

-- The run that is resumed from an action index below -1, by the outcome of its first write, the one
-- that marks the action of the index as completed: if it fails, its error is returned, wrapped, and
-- nothing else is done; if it succeeds, the run panics, at the index after it, which is negative; a
-- panic goes on up.
pub resume_run-negative :
    (n : ℕ) (signal : Signal) (workflow : Workflow) (env : Env) (w : World WorkflowRun)
    → let (r, w₁) = save_after (Run.set_action_completed_status (negsuc (suc n))) env w in
      let (r', w') = resume_run signal workflow (negsuc (suc n)) env w in
      ((r ≡ returned tt) × (r' ≡ panicked) × (w'.trace ≡ w₁.trace))
      ⊎ ((e : Error) × (r ≡ errored e)
          × (r' ≡ errored (wrap "failed to update run status" [] e))
          × (w' ≡ w₁))
      ⊎ ((r ≡ panicked) × (r' ≡ panicked) × (w' ≡ w₁))
unfolding resume_run start_actions next_index ◌>>=◌
resume_run-negative n signal workflow env w =
    elim (Exit-cases (save_after (Run.set_action_completed_status (negsuc (suc n))) env w).0) [
      | inl h ↦ inl (h, rw h refl, rw h refl)
      | inr (inl (e, h)) ↦ inr (inl (e, h, rw h refl, rw h refl))
      | inr (inr h) ↦ inr (inr (h, rw h refl, rw h refl))
    ]
  where
    Exit-cases :
        (r : Exit (Unit {0})) → (r ≡ returned tt) ⊎ ((e : Error) × (r ≡ errored e)) ⊎ (r ≡ panicked)
    Exit-cases (returned tt) = inl refl
    Exit-cases (errored e) = inr (inl (e, refl))
    Exit-cases panicked = inr (inr refl)
