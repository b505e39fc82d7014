-- ===== src/Handlers/Jobs/Scheduled.antt =====
-- What a client is told of a job that it asks for.
use dahlia.Common.{ℕ, ◌<◌, Option, none, ◌∷◌, ◌≡◌, refl, ap, ◌∙◌, ◌⊎◌, inl, inr}
use dahlia.Domain.{ScheduledJob, scheduled}
use dahlia.ErrorCollection.{ErrorCollection, code_internal_server_error}
use dahlia.Runtime.{
  Env, World, Exit, returned, Trace, read_clock, made_uuid, pushed, put, scheduled_jobs, of_job,
  always, pure, with_object, ◌>>=◌,
}
use dahlia.Jobs.{new_scheduled_job, job_status_text}
use dahlia.Scheduler.{adjusted, truncate_minute, get_bucket_key, schedule_job}
use dahlia.Scheduler.Minutes.{adjusted_bounds}
use dahlia.Scheduler.Order.{IsInOrder, schedule_job_lem}
use dahlia.Requests.{RequestIo}
use dahlia.Handlers.Limits.{refuse}
use dahlia.Handlers.Jobs.{
  ScheduleJobRequest, ScheduleJobResponse, no_job, schedule_answer, schedule_service,
}

-- the answer of a job that has been scheduled
abbrev pub response : ScheduledJob → ScheduleJobResponse
response job = record {
  job_id = job.job_id;
  job_type = job.job_name;
  execute_at = job.execute_at;
  status = job_status_text job.status;
}

-- the job is stored, and then its id is in the list of the minute of its time
abbrev pub IsListed : Env → ScheduledJob → Trace → Trace → Type 0
IsListed env job before after =
    after
    ≡ pushed (get_bucket_key env job.execute_at) job.job_id none
      ∷ put scheduled_jobs (of_job job) always none
      ∷ before

abbrev Answers :
    {S : Type 0}
    → Env
    → ScheduledJob
    → Trace
    → Exit (ScheduleJobResponse × Option ErrorCollection) × World S
    → Type 0
Answers env job before (r, w') =
    (r ≡ returned (refuse no_job code_internal_server_error "Failed to schedule job"))
    ⊎ ((r ≡ returned (response job, none)) × IsListed env job before w'.trace)

answered :
    {S : Type 0} (env : Env) (job object : ScheduledJob) (before : Trace) (r : Exit (Unit {0}))
    (w : World S)
    → object ≡ job
    → IsInOrder env job before r w.trace
    → Answers env job before (schedule_answer (r, object) env w)
unfolding schedule_answer pure
answered env job object before r w same (inl (e, h, t)) = rw h (inl refl)
answered env job object before r w same (inr (inl (e, s, h, t))) = rw h (inl refl)
answered env job object before r w same (inr (inr (o, k, t, inl (fine, h)))) = rw h (
    inr (
      ap (λ j. returned (response j, none)) same,
      t
          ∙ ap
              (λ o.
                pushed (get_bucket_key env job.execute_at) job.job_id o
                ∷ put scheduled_jobs (of_job job) always none
                ∷ before)
              fine,
    ))
answered env job object before r w same (inr (inr (o, k, t, inr (e, h, bad)))) = rw h (inl refl)

-- The job of a request, when its time is adjusted at the time `t`.
abbrev pub IsRequested : ScheduleJobRequest → ℕ → ScheduledJob → Type 0
IsRequested req t job =
    (job.job_name ≡ req.job_type)
    × (job.queue_name ≡ req.queue_name)
    × (job.job_details ≡ req.payload)
    × (job.status ≡ scheduled)
    × (job.execute_at ≡ adjusted t req.execute_at)
    × (t < truncate_minute job.execute_at)

-- A request for a job reads the clock, makes an identifier and reads the clock again, when the time
-- of the job is adjusted. It is answered with an internal error, or with the job, which has then been
-- stored and whose id has been pushed to the list of its minute, as the next two calls: it is what was
-- asked for, with a time whose minute was still to come by that second reading of the clock.
pub schedule_service_lem :
    {S : Type 0} (ioutil : RequestIo ScheduleJobRequest) (env : Env) (w : World S)
    → let (r, w') = schedule_service ioutil env w in
      let first = read_clock (env.now w.trace) ∷ w.trace in
      let made = made_uuid (env.new_uuid first) ∷ first in
      (r ≡ returned (refuse no_job code_internal_server_error "Failed to schedule job"))
      ⊎ ((job : ScheduledJob) × IsRequested ioutil.body (env.now made) job
          × (job.job_id ≡ env.new_uuid first)
          × (r ≡ returned (response job, none))
          × IsListed env job (read_clock (env.now made) ∷ made) w'.trace)
unfolding schedule_service new_scheduled_job with_object ◌>>=◌
schedule_service_lem {S} ioutil env w =
    elim (answered env (record job { execute_at = adjusted t job.execute_at }) _ _ _ _ same order) [
      | inl failed ↦ inl failed
      | inr (fine, listed) ↦ inr (
        record job { execute_at = adjusted t job.execute_at },
        (refl, refl, refl, refl, refl, (adjusted_bounds t job.execute_at).0),
        refl,
        fine,
        listed,
      )
    ]
  where
    created : World S
    created = record w {
      trace =
          made_uuid (env.new_uuid (read_clock (env.now w.trace) ∷ w.trace))
          ∷ read_clock (env.now w.trace)
          ∷ w.trace;
    }

    job : ScheduledJob
    job = record {
      job_id = env.new_uuid (read_clock (env.now w.trace) ∷ w.trace);
      execute_at = ioutil.body.execute_at;
      created_at = env.now w.trace;
      updated_at = env.now w.trace;
      job_name = ioutil.body.job_type;
      job_details = ioutil.body.payload;
      queue_name = ioutil.body.queue_name;
      status = scheduled;
    }

    t : ℕ
    t = env.now created.trace

    scheduling : World ScheduledJob
    scheduling = record { local = job; cache = w.cache; trace = created.trace }

    same :
        (schedule_job env scheduling).1.local
        ≡ record job { execute_at = adjusted t job.execute_at }
    same = (schedule_job_lem env scheduling).0

    order :
        IsInOrder env
          (record job { execute_at = adjusted t job.execute_at })
          (read_clock t ∷ created.trace)
          (schedule_job env scheduling).0
          (schedule_job env scheduling).1.trace
    order = (schedule_job_lem env scheduling).1
