-- ===== src/Scheduler/Delivery.antt =====
-- What a pass of the scheduler does with a job of a list.
use dahlia.Common.{sym, Text, ◌≡◌, refl, ap, ◌∙◌, ◌⊎◌, inl, inr, ◌∷◌, arith}
use dahlia.Errors.{Error, ok, err}
use dahlia.Domain.{ScheduledJob}
use dahlia.Runtime.{
  read_clock, ignore, Trace, Env, World, Exit, returned, errored, panicked, continue, attempt, pure,
  raise, ◌>>=◌,
}
use mathlib.Core.Path.{subst}
use dahlia.Runtime.Steps.{bind-returned}
use dahlia.Repository.Jobs
use dahlia.Clock
use dahlia.Scheduler.{process_job, run_job, send_to_queue, after_send}
use dahlia.Scheduler.Sending.{
  IsMessage, WasRefused, removals, accepted, HasLeftOrMoved, run_job_err_lem, sent_lem,
}

-- What the handling of a job of a TEMP list did: it left the job there, or took it out, the job being
-- unreadable or its message accepted.
abbrev pub IsHandled : Env → Text → Text → Exit ScheduledJob → Trace → Trace → Type 0
IsHandled env job_id temp_key found before after =
    ((job : ScheduledJob) × (found ≡ returned job)
      × (((removals after ≡ removals before)
            × (accepted after ≡ accepted before)
            × WasRefused env job)
          ⊎ ((message : Text × Text) × IsMessage env job message
              × (removals after ≡ (temp_key, job_id) ∷ removals before)
              × (accepted after ≡ message ∷ accepted before))))
    ⊎ ((e : Error) × (found ≡ errored e)
        × (removals after ≡ (temp_key, job_id) ∷ removals before)
        × (accepted after ≡ accepted before))

module _ {S : Type 0} (job_id temp_key : Text) where
  since :
      (env : Env) (job : ScheduledJob) (w w' : World S) (p : Exit (Unit {0}) × World S)
      → removals w'.trace ≡ removals w.trace
      → accepted w'.trace ≡ accepted w.trace
      → HasLeftOrMoved job_id temp_key env job w' p
      → HasLeftOrMoved job_id temp_key env job w p
  since env job w w' p left quiet (exit, inl (a, b, why)) = (exit, inl (a ∙ left, b ∙ quiet, why))
  since env job w w' p left quiet (exit, inr (message, m, a, b)) = (
    exit,
    inr (message, m, a ∙ ap (λ t. (temp_key, job_id) ∷ t) left, b ∙ ap (λ t. message ∷ t) quiet),
  )

  ignore-update :
      (job : ScheduledJob) (env : Env) (w : World S)
      → let (r, w') = ignore (Jobs.update job) env w in
        (r ≡ returned tt)
        × (removals w'.trace ≡ removals w.trace)
        × (accepted w'.trace ≡ accepted w.trace)
  unfolding Jobs.update ◌>>=◌
  ignore-update job env w = ground arith

  started_lem :
      (job : ScheduledJob) (env : Env) (w : World S)
      → HasLeftOrMoved job_id temp_key env job w (
          (ignore (Jobs.update job) >>= λ _.
          attempt (send_to_queue job) >>= λ sent. after_send sent job job_id temp_key)
            env w)
  started_lem job env w =
      let w' : World S = (ignore (Jobs.update job) env w).1 in
      let (exit, left, quiet) = ignore-update job env w in
      subst (λ p. HasLeftOrMoved job_id temp_key env job w p)
        (sym (
          bind-returned (ignore (Jobs.update job))
            (λ _. attempt (send_to_queue job) >>= λ sent. after_send sent job job_id temp_key) env w
            w' tt (ap (λ r. (r, w')) exit)))
        (since env job w w'
          ((attempt (send_to_queue job) >>= λ sent. after_send sent job job_id temp_key) env w')
          left quiet (sent_lem job_id temp_key job env w'))

  run_job_ok_lem :
      (job : ScheduledJob) (env : Env) (w : World S)
      → HasLeftOrMoved job_id temp_key env job w (run_job (ok job) job_id temp_key env w)
  unfolding run_job Clock.now ◌>>=◌
  run_job_ok_lem job env w =
      since env job w (record w { trace = read_clock (env.now w.trace) ∷ w.trace })
        (run_job (ok job) job_id temp_key env w) refl refl (started_lem _ env _)

  get_job_lem :
      (env : Env) (w : World S)
      → let (r, w') = Jobs.get_by_id job_id env w in
        (r ≡ panicked → ⊥)
        × (removals w'.trace ≡ removals w.trace)
        × (accepted w'.trace ≡ accepted w.trace)
  unfolding Jobs.get_by_id ◌>>=◌
  get_job_lem env w = (λ h. ground arith, ground arith, ground arith)

  found_lem :
      (found : Exit ScheduledJob) (env : Env) (w w' : World S)
      → (found ≡ panicked → ⊥)
      → removals w'.trace ≡ removals w.trace
      → accepted w'.trace ≡ accepted w.trace
      → let (r, w'') =
          (let (r', w₁) = continue found (λ a. pure (ok a)) (λ e. pure (err e)) env w' in
            continue r' (λ job. run_job job job_id temp_key) raise env w₁) in
        (r ≡ returned tt) × IsHandled env job_id temp_key found w.trace w''.trace
  unfolding pure
  found_lem (returned job) env w w' fine left quiet =
      let (exit, moved) =
        since env job w w' (run_job (ok job) job_id temp_key env w') left quiet
          (run_job_ok_lem job env w') in
      (exit, inl (job, refl, moved))
  found_lem (errored e) env w w' fine left quiet =
      let (exit, a, b) = run_job_err_lem job_id temp_key e env w' in
      (exit, inr (e, refl, a ∙ ap (λ t. (temp_key, job_id) ∷ t) left, b ∙ quiet))
  found_lem panicked env w w' fine left quiet = absurd (fine refl)

-- The handling of a job returns, whatever the outside answers. It asks for the job's removal from the
-- TEMP list, once, exactly if SQS has accepted the job's message, which it is sent once, or the job
-- cannot be read; else the job is left in the list, as its message was refused.
pub process_job_lem :
    {S : Type 0} (job_id temp_key : Text) (env : Env) (w : World S)
    → let (r, w') = process_job job_id temp_key env w in
      (r ≡ returned tt)
      × IsHandled env job_id temp_key (Jobs.get_by_id job_id env w).0 w.trace w'.trace
unfolding process_job ◌>>=◌
process_job_lem job_id temp_key env w =
    let (fine, left, quiet) = get_job_lem job_id temp_key env w in
    found_lem job_id temp_key _ env w _ fine left quiet
