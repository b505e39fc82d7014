-- ===== src/Scheduler/Order.antt =====
-- A job is stored before its id goes to the list of its minute.
use dahlia.Common.{
  none, some, Option, Option-cases, Text, ◌≡◌, refl, ap, ◌∙◌, ◌⊎◌, inl, inr, ◌∷◌, [], ◌≢◌, arith,
}
use dahlia.Errors.{Error, wrap}
use dahlia.Domain.{ScheduledJob}
use dahlia.Runtime.{
  scheduled_jobs, of_job, always, read_clock, put, pushed, Trace, Env, World, Exit, returned,
  errored, wrapping, ask, ◌>>=◌,
}
use dahlia.Runtime.Steps.{bind-returned, wrapping-returned}
use dahlia.Clock.{now}
use dahlia.Repository.Jobs
use dahlia.Cache.{rpush}
use dahlia.Scheduler.{adjusted, get_bucket_key, schedule_job}

-- The calls of scheduling a job, the last first: the push is made only once the job is stored, and a
-- return means that both calls succeeded.
abbrev pub IsInOrder : Env → ScheduledJob → Trace → Exit (Unit {0}) → Trace → Type 0
IsInOrder env job before exit after =
    ((e : Error) × (exit ≡ errored e) × (after ≡ before))
    ⊎ ((e : Error) × (s : Error) × (exit ≡ errored e)
        × (after ≡ put scheduled_jobs (of_job job) always (some s) ∷ before))
    ⊎ ((outcome : Option Error) × (env.rpush (put scheduled_jobs (of_job job) always none ∷ before)
            (get_bucket_key env job.execute_at) job.job_id
          ≡ outcome)
        × (after
            ≡ pushed (get_bucket_key env job.execute_at) job.job_id outcome
              ∷ put scheduled_jobs (of_job job) always none
              ∷ before)
        × (((outcome ≡ none) × (exit ≡ returned tt))
            ⊎ ((e : Error) × (exit ≡ errored e) × (outcome ≢ none))))

-- the job with the time that it is scheduled for, and the trace once it is stored
abbrev moved : Env → World ScheduledJob → ScheduledJob
moved env w = record w.local { execute_at = adjusted (env.now w.trace) w.local.execute_at }

abbrev clocked : Env → World ScheduledJob → Trace
clocked env w = read_clock (env.now w.trace) ∷ w.trace

abbrev stored_trace : Env → World ScheduledJob → Trace
stored_trace env w = put scheduled_jobs (of_job (moved env w)) always none ∷ clocked env w

abbrev HasOrder : Env → World ScheduledJob → Type 0
HasOrder env w =
    let (r, w') = schedule_job env w in
    (w'.local ≡ moved env w) × IsInOrder env (moved env w) (clocked env w) r w'.trace

order_unmarshalled :
    (env : Env) (w : World ScheduledJob) (e : Error)
    → env.marshal (of_job (moved env w)) ≡ some e
    → HasOrder env w
unfolding schedule_job now Jobs.create rpush ◌>>=◌
order_unmarshalled env w e h = (
  ground arith,
  inl (
    wrap "failed to create job" [] (wrap "failed to marshal job" [] e),
    ground arith,
    ground arith,
  ),
)

order_unstored :
    (env : Env) (w : World ScheduledJob) (e : Error)
    → env.marshal (of_job (moved env w)) ≡ none
    → env.put_item (clocked env w) scheduled_jobs (of_job (moved env w)) always ≡ some e
    → HasOrder env w
unfolding schedule_job now Jobs.create rpush ◌>>=◌
order_unstored env w e marshals h = (
  ground arith,
  inr (
      inl (
        wrap "failed to create job" [] (wrap "failed to create job" [] e),
        e,
        ground arith,
        ground arith,
      )),
)

create_job-returned :
    (job : ScheduledJob) (env : Env) (w : World ScheduledJob)
    → env.marshal (of_job job) ≡ none
    → env.put_item w.trace scheduled_jobs (of_job job) always ≡ none
    → Jobs.create job env w
      ≡ (returned tt, record w { trace = put scheduled_jobs (of_job job) always none ∷ w.trace })
unfolding Jobs.create ◌>>=◌
create_job-returned job env w marshals stores = ground arith

push_job-exit :
    (key value : Text) (o : Option Error) (env : Env) (w : World ScheduledJob)
    → env.rpush w.trace key value ≡ o
    → wrapping "failed to add job to bucket" (rpush key value) env w ≡ (
      elim o [
        | none ↦ returned tt
        | some e ↦ errored (wrap "failed to add job to bucket" [] (wrap "redis rpush failed" [] e))
      ],
      record w { trace = pushed key value o ∷ w.trace },
    )
unfolding rpush ◌>>=◌
push_job-exit key value none env w h = ground arith
push_job-exit key value (some e) env w h = ground arith

stored_run :
    (env : Env) (w : World ScheduledJob)
    → env.marshal (of_job (moved env w)) ≡ none
    → env.put_item (clocked env w) scheduled_jobs (of_job (moved env w)) always ≡ none
    → schedule_job env w
      ≡ wrapping "failed to add job to bucket"
          (rpush (get_bucket_key env (moved env w).execute_at) (moved env w).job_id)
          env
          (record { local = moved env w; cache = w.cache; trace = stored_trace env w })
unfolding schedule_job now ◌>>=◌
stored_run env w marshals stores =
    let w₁ : World ScheduledJob = record {
      local = moved env w;
      cache = w.cache;
      trace = clocked env w;
    } in
    let w₂ : World ScheduledJob = record {
      local = moved env w;
      cache = w.cache;
      trace = stored_trace env w;
    } in
    bind-returned (wrapping "failed to create job" (Jobs.create (moved env w)))
      (λ _.
        wrapping "failed to add job to bucket"
          (ask (λ env'. rpush (get_bucket_key env' (moved env w).execute_at) (moved env w).job_id)))
      env w₁ w₂ tt
      (wrapping-returned (Jobs.create (moved env w)) env w₁ w₂ "failed to create job" tt
        (create_job-returned (moved env w) env w₁ marshals stores))

-- the push, once the job is stored
pushed-IsInOrder :
    (env : Env) (w : World ScheduledJob) (o : Option Error)
    → env.rpush
        (stored_trace env w)
        (get_bucket_key env (moved env w).execute_at)
        (moved env w).job_id
      ≡ o
    → schedule_job env w ≡ (
      elim o [
        | none ↦ returned tt
        | some e ↦ errored (wrap "failed to add job to bucket" [] (wrap "redis rpush failed" [] e))
      ],
      record {
        local = moved env w;
        cache = w.cache;
        trace =
            pushed (get_bucket_key env (moved env w).execute_at) (moved env w).job_id o
            ∷ stored_trace env w;
      },
    )
    → HasOrder env w
pushed-IsInOrder env w none k h =
    (ap (λ p. p.1.local) h, inr (inr (none, k, ap (λ p. p.1.trace) h, inl (refl, ap (λ p. p.0) h))))
pushed-IsInOrder env w (some e) k h = (
  ap (λ p. p.1.local) h,
  inr (inr (some e, k, ap (λ p. p.1.trace) h, inr (_, ap (λ p. p.0) h, λ same. ground arith))),
)

-- Scheduling a job reads the clock, moves the job's time to one that is still to come, stores the job
-- with that time, and then pushes its id to the list of that minute; a call that fails is the last
-- one and its failure is the caller's, and a return means that all of them succeeded.
pub schedule_job_lem :
    (env : Env) (w : World ScheduledJob)
    → let (r, w') = schedule_job env w in
      let job : ScheduledJob = record w.local {
        execute_at = adjusted (env.now w.trace) w.local.execute_at;
      } in
      (w'.local ≡ job) × IsInOrder env job (read_clock (env.now w.trace) ∷ w.trace) r w'.trace
schedule_job_lem env w = elim (Option-cases (env.marshal (of_job (moved env w)))) [
  | inr (e, h) ↦ order_unmarshalled env w e h
  | inl marshals ↦
      elim (Option-cases
        (env.put_item (clocked env w) scheduled_jobs (of_job (moved env w)) always)) [
          | inr (e, h) ↦ order_unstored env w e marshals h
          | inl stores ↦ pushed-IsInOrder env w _ refl (
              stored_run env w marshals stores
              ∙ push_job-exit _ _ _ env
                  (record { local = moved env w; cache = w.cache; trace = stored_trace env w })
                  refl)
        ]
]
