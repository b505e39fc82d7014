-- ===== src/Scheduler/Lists/Delivered.antt =====
-- A pass that nothing refuses sends the message of every job of its minute.
use mathlib.Core.Path.{subst}
use dahlia.Common.{
  ℕ, Bool, true, false, Bool-cases, Option, List, [], ◌∷◌, Text, length, ◌==◌, ==_iff, ◌≡◌, refl,
  sym, ap, ◌∙◌, inl, inr, arith,
}
use dahlia.Errors.{ok}
use dahlia.Domain.{Value, ScheduledJob}
use dahlia.Runtime.{Env, Trace, World, returned, measured, transferred, ◌>>=◌}
use dahlia.Cache.{llen, transfer}
use dahlia.Repository.Jobs
use dahlia.Scheduler.{process_bucket, process_jobs, take_jobs, extract_job_ids}
use dahlia.Scheduler.Sending.{IsMessage, WasRefused, accepted}
use dahlia.Scheduler.Passes.{IsPass, ended, next, process_jobs_lem}
use dahlia.Scheduler.Lists.{lists, IsRedis}
use dahlia.Scheduler.Lists.Buckets.{strings-map}

-- the job that the database has for an id
abbrev pub IsRead : {S : Type 0} → Env → Text → World S → ScheduledJob → Type 0
IsRead env job_id w job = (Jobs.get_by_id job_id env w).0 ≡ returned job

no_jobs : (ids : List Text) → length ids ≡ 0 → ids ≡ []
no_jobs [] h = refl
no_jobs (id ∷ ids) h = absurd (omega (arith, h))

module _ (S : Type 0) (env : Env) where
  -- the messages of the jobs, one after the other, come before the others
  abbrev pub AllSent : List Text → (before after : List (Text × Text)) → Type 0
  AllSent [] before after = after ≡ before
  AllSent (job_id ∷ job_ids) before after =
      (w : World S) × (job : ScheduledJob) × (message : Text × Text) × IsRead env job_id w job
      × IsMessage env job message
      × AllSent job_ids (message ∷ before) after

  -- the database has every job, and SQS takes every message
  pub record Works : Type 0 where
    pub reads : (job_id : Text) (w : World S) → (job : ScheduledJob) × IsRead env job_id w job
    pub sends : (job : ScheduledJob) → WasRefused env job → ⊥
    pub measures : (t : Trace) (key : Text) → (n : ℕ) × (env.llen t key ≡ ok n)
    pub transfers :
        (t : Trace) (bucket_key temp_key : Text)
        → (values : Option (List Value)) × (env.transfer t bucket_key temp_key ≡ ok values)

  module _ (works : Works) where
    IsPass-AllSent :
        (temp_key : Text) {job_ids : List Text} {w w' : World S}
        → IsPass env temp_key job_ids w w'
        → AllSent job_ids (accepted w.trace) (accepted w'.trace)
    IsPass-AllSent temp_key ended = refl
    IsPass-AllSent temp_key {w}
          (next {job_id} {job_ids} (inl (job, found, inl (left, quiet, why))) rest) =
        absurd (works.sends job why)
    IsPass-AllSent temp_key {w} {w'}
          (next {job_id} {job_ids} (inl (job, found, inr (message, m, left, sent))) rest) =
        (
          w,
          job,
          message,
          found,
          m,
          subst (λ before. AllSent job_ids before (accepted w'.trace)) sent
              (IsPass-AllSent temp_key rest),
        )
    IsPass-AllSent temp_key {w} (next {job_id} {job_ids} (inr (e, found, left, quiet)) rest) =
        let (job, reads) = works.reads job_id w in absurd (ground (arith, reads, found))

    moved :
        (initial : Text → List Text) (ran : Trace → Bool) (unpacks : ℕ → Bool)
        (bucket_key temp_key : Text) (w : World S) (n : ℕ) (values : Option (List Value))
        → IsRedis initial ran unpacks env
        → env.llen w.trace bucket_key ≡ ok n
        → (n == 0) ≡ false
        → env.transfer (measured bucket_key ∷ w.trace) bucket_key temp_key ≡ ok values
        → let (r, w') = process_bucket bucket_key temp_key env w in
          (r ≡ returned tt)
          × AllSent
              (lists initial ran unpacks w.trace bucket_key)
              (accepted w.trace)
              (accepted w'.trace)
    unfolding process_bucket take_jobs llen transfer lists ◌>>=◌
    moved initial ran unpacks bucket_key temp_key w n values redis h z k =
        let w₁ : World S = record w {
          trace = transferred bucket_key temp_key ∷ measured bucket_key ∷ w.trace;
        } in
        let (r, fits, listed) = redis.transfer_ran _ bucket_key temp_key values k in
        let (exit, pass) = process_jobs_lem (extract_job_ids values) temp_key env w₁ in
        let whole : extract_job_ids values ≡ lists initial ran unpacks w.trace bucket_key =
          ap extract_job_ids listed ∙ strings-map _ in
        rw (h, z, k)
          (
            exit,
            subst
                (λ ids.
                  AllSent ids (accepted w.trace)
                    (accepted (process_jobs (extract_job_ids values) temp_key env w₁).1.trace))
                whole (IsPass-AllSent temp_key pass),
          )

    nothing :
        (initial : Text → List Text) (ran : Trace → Bool) (unpacks : ℕ → Bool)
        (bucket_key temp_key : Text) (w : World S) (n : ℕ)
        → IsRedis initial ran unpacks env
        → env.llen w.trace bucket_key ≡ ok n
        → (n == 0) ≡ true
        → let (r, w') = process_bucket bucket_key temp_key env w in
          (r ≡ returned tt)
          × AllSent
              (lists initial ran unpacks w.trace bucket_key)
              (accepted w.trace)
              (accepted w'.trace)
    unfolding process_bucket take_jobs llen process_jobs ◌>>=◌
    nothing initial ran unpacks bucket_key temp_key w n redis h z =
        rw (h, z)
          (
            refl,
            subst (λ ids. AllSent ids (accepted w.trace) (accepted w.trace))
                (sym (no_jobs _ (sym (redis.llen_reads _ _ n h) ∙ (==_iff n 0).0 z))) refl,
          )

-- If Redis answers from its lists, the database has every job, and neither Redis nor SQS refuses a
-- call: a pass over the lists of a minute returns, and has sent the messages of all the jobs that
-- waited for the minute, in their order, each made of the details that the database has for the job.
pub process_bucket-delivers :
    {S : Type 0} (initial : Text → List Text) (ran : Trace → Bool) (unpacks : ℕ → Bool) (env : Env)
    (bucket_key temp_key : Text) (w : World S)
    → IsRedis initial ran unpacks env
    → Works S env
    → let (r, w') = process_bucket bucket_key temp_key env w in
      (r ≡ returned tt)
      × AllSent S env
          (lists initial ran unpacks w.trace bucket_key)
          (accepted w.trace)
          (accepted w'.trace)
process_bucket-delivers {S} initial ran unpacks env bucket_key temp_key w redis works =
    let (n, h) = works.measures w.trace bucket_key in
    let (values, k) = works.transfers (measured bucket_key ∷ w.trace) bucket_key temp_key in
    elim (Bool-cases (n == 0)) [
      | inl z ↦ nothing S env works initial ran unpacks bucket_key temp_key w n redis h z
      | inr z ↦ moved S env works initial ran unpacks bucket_key temp_key w n values redis h z k
    ]
