-- ===== src/Scheduler/Sending.antt =====
-- The sending of the message of a job, and what follows it.
use dahlia.Common.{
  sym, none, some, Option, Text, ◌≡◌, refl, ap, ◌∙◌, String, ◌⊎◌, inl, inr, List, [], ◌∷◌, arith,
}
use dahlia.Errors.{Error, wrap, Result, ok, err}
use dahlia.Domain.{ScheduledJob}
use dahlia.Runtime.{
  sqs_sent, removed, Trace, Env, World, Exit, returned, errored, panicked, continue, attempt, ask,
  lift, wrapping, pure, raise, ◌>>=◌,
}
use mathlib.Core.Path.{subst}
use dahlia.Runtime.Steps.{bind-returned}
use dahlia.Repository.Jobs
use dahlia.Cache
use dahlia.Clock
use dahlia.Scheduler.{run_job, complete_job, send_to_queue, sqs_send, queue_url, after_send}

-- The removals from Redis lists that were asked for, and the messages that SQS accepted, the last first.
abbrev pub removals : Trace → List (Text × Text)
removals [] = []
removals (removed key value outcome ∷ t) = (key, value) ∷ removals t
removals (_ ∷ t) = removals t

abbrev pub accepted : Trace → List (Text × Text)
accepted [] = []
accepted (sqs_sent queue body none ∷ t) = (queue, body) ∷ accepted t
accepted (_ ∷ t) = accepted t

-- the message of a job: its details in JSON, for its queue
abbrev pub IsMessage : Env → ScheduledJob → Text × Text → Type 0
IsMessage env job message =
    (body : Text) × (env.marshal_json job.job_details ≡ ok body)
    × (message ≡ (queue_url job.queue_name, body))

-- the details of a job are not JSON, or SQS has refused its message
abbrev pub WasRefused : Env → ScheduledJob → Type 0
WasRefused env job =
    ((e : Error) × (env.marshal_json job.job_details ≡ err e))
    ⊎ ((body : Text) × (t : Trace) × (e : Error) × (env.sqs_send t (queue_url job.queue_name) body
          ≡ some e))

module _ {S : Type 0} (job_id temp_key : Text) where
  abbrev pub HasLeftOrMoved : Env → ScheduledJob → World S → Exit (Unit {0}) × World S → Type 0
  HasLeftOrMoved env job w (r, w') =
      (r ≡ returned tt)
      × (((removals w'.trace ≡ removals w.trace)
            × (accepted w'.trace ≡ accepted w.trace)
            × WasRefused env job)
          ⊎ ((message : Text × Text) × IsMessage env job message
              × (removals w'.trace ≡ (temp_key, job_id) ∷ removals w.trace)
              × (accepted w'.trace ≡ message ∷ accepted w.trace)))

  complete_job_lem :
      (job : ScheduledJob) (env : Env) (w : World S)
      → let (r, w') = complete_job job job_id temp_key env w in
        (r ≡ returned tt)
        × (removals w'.trace ≡ (temp_key, job_id) ∷ removals w.trace)
        × (accepted w'.trace ≡ accepted w.trace)
  unfolding complete_job Cache.lrem Clock.now Jobs.update ◌>>=◌
  complete_job_lem job env w = ground arith

  pub run_job_err_lem :
      (e : Error) (env : Env) (w : World S)
      → let (r, w') = run_job (err e) job_id temp_key env w in
        (r ≡ returned tt)
        × (removals w'.trace ≡ (temp_key, job_id) ∷ removals w.trace)
        × (accepted w'.trace ≡ accepted w.trace)
  unfolding run_job Cache.lrem ◌>>=◌
  run_job_err_lem e env w = ground arith

  -- how the sending of a message ends
  abbrev HasSentOrNot : Env → ScheduledJob → World S → Exit (Unit {0}) × World S → Type 0
  HasSentOrNot env job w (r, w') =
      (removals w'.trace ≡ removals w.trace)
      × (((message : Text × Text) × IsMessage env job message
            × (r ≡ returned tt)
            × (accepted w'.trace ≡ message ∷ accepted w.trace))
          ⊎ ((e : Error) × (r ≡ errored e)
              × (accepted w'.trace ≡ accepted w.trace)
              × WasRefused env job))

  sqs_send-HasSentOrNot :
      (job : ScheduledJob) (body : Text) (o : Option Error) (env : Env) (w : World S)
      → env.marshal_json job.job_details ≡ ok body
      → env.sqs_send w.trace (queue_url job.queue_name) body ≡ o
      → HasSentOrNot env job w (sqs_send (queue_url job.queue_name) body env w)
  unfolding sqs_send ◌>>=◌
  sqs_send-HasSentOrNot job body none env w m h = (
    ground arith,
    inl ((queue_url job.queue_name, body), (body, m, refl), ground arith, ground arith),
  )
  sqs_send-HasSentOrNot job body (some e) env w m h =
      (ground arith, inr (e, ground arith, ground arith, inr (body, w.trace, e, h)))

  wrapped-HasSentOrNot :
      (job : ScheduledJob) (r : Exit (Unit {0})) (context : String) (env : Env) (w w' : World S)
      → HasSentOrNot env job w (r, w')
      → HasSentOrNot env job w (continue r pure (λ e. raise (wrap context [] e)) env w')
  unfolding pure raise
  wrapped-HasSentOrNot job (returned tt) context env w w' h = h
  wrapped-HasSentOrNot job (errored e) context env w w' (same, inl (message, m, h, _)) =
      absurd (ground arith)
  wrapped-HasSentOrNot job (errored e) context env w w' (same, inr (_, _, h, why)) =
      (same, inr (wrap context [] e, refl, h, why))
  wrapped-HasSentOrNot job panicked context env w w' (same, inl (message, m, h, _)) =
      absurd (ground arith)
  wrapped-HasSentOrNot job panicked context env w w' (same, inr (_, h, _, _)) =
      absurd (ground arith)

  send_body :
      (body : Result Text) (job : ScheduledJob) (env : Env) (w : World S)
      → env.marshal_json job.job_details ≡ body
      → HasSentOrNot env job w (send_to_queue job env w)
  unfolding send_to_queue ◌>>=◌
  send_body (ok body) job env w h =
      subst (λ p. HasSentOrNot env job w p)
        (sym (
          bind-returned
            (wrapping "failed to marshal job details"
              (ask (λ env. lift (env.marshal_json job.job_details))))
            (λ body.
              wrapping "failed to send message to SQS" (sqs_send (queue_url job.queue_name) body))
            env w w body (ground arith)))
        (wrapped-HasSentOrNot job _ "failed to send message to SQS" env w _
          (sqs_send-HasSentOrNot job body _ env w h refl))
  send_body (err e) job env w h = (
    ground arith,
    inr (wrap "failed to marshal job details" [] e, ground arith, ground arith, inl (e, h)),
  )

  sent_rest :
      (r : Exit (Unit {0})) (job : ScheduledJob) (env : Env) (w w' : World S)
      → HasSentOrNot env job w (r, w')
      → HasLeftOrMoved env job w (
          let (r', w'') = continue r (λ a. pure (ok a)) (λ e. pure (err e)) env w' in
          continue r' (λ sent. after_send sent job job_id temp_key) raise env w'')
  unfolding pure after_send
  sent_rest (returned tt) job env w w' (same, inl (message, m, _, h)) =
      let (exit, moved, kept) = complete_job_lem job env w' in
      (exit, inr (message, m, moved ∙ ap (λ t. (temp_key, job_id) ∷ t) same, kept ∙ h))
  sent_rest (returned tt) job env w w' (same, inr (e, h, _, _)) = absurd (ground arith)
  sent_rest (errored e) job env w w' (same, inl (message, m, h, _)) = absurd (ground arith)
  sent_rest (errored e) job env w w' (same, inr (_, _, h, why)) = (refl, inl (same, h, why))
  sent_rest panicked job env w w' (same, inl (message, m, h, _)) = absurd (ground arith)
  sent_rest panicked job env w w' (same, inr (_, h, _, _)) = absurd (ground arith)

  -- a job is marked as running, sent, and taken out if the message was accepted
  pub sent_lem :
      (job : ScheduledJob) (env : Env) (w : World S)
      → HasLeftOrMoved env job w
          ((attempt (send_to_queue job) >>= λ sent. after_send sent job job_id temp_key) env w)
  unfolding ◌>>=◌
  sent_lem job env w =
      sent_rest (send_to_queue job env w).0 job env w (send_to_queue job env w).1
        (send_body _ job env w refl)
