-- ===== src/Scheduler/Frames.antt =====
-- What scheduling a job leaves alone.
use dahlia.Common.{ℕ, ℤ, Option, Text, ◌∷◌}
use dahlia.Errors.{Error}
use dahlia.Domain.{ScheduledJob, Fields}
use dahlia.Runtime.{
  Trace, Item, Guard, put, pushed, scheduled_jobs, Exit, returned, errored, panicked,
}
use dahlia.Runtime.Keeps.{Keeps, Keeps-bind, Keeps-call, Keeps-with_object, Ignores, keeps_rules}
use dahlia.Repository.Frames.{now-Keeps, new_uuid-Keeps}
use dahlia.Repository.Jobs
use dahlia.Repository.{put_item}
use dahlia.Cache.{rpush}
use dahlia.Jobs.{new_scheduled_job}
use dahlia.Scheduler.{schedule_job, scheduled_or_error, schedule_with_delay}

-- A predicate that says nothing of the table of jobs and of the lists of Redis that jobs wait in.
pub record IgnoresJobs (P : Trace → Type 0) : Type 0 where
  pub job_put :
      (item : Item) (guard : Guard) (outcome : Option Error) (t : Trace)
      → P t
      → P (put scheduled_jobs item guard outcome ∷ t)
  pub push :
      (key value : Text) (outcome : Option Error) (t : Trace)
      → P t
      → P (pushed key value outcome ∷ t)

module _ {P : Trace → Type 0} (ign : Ignores P) (jobs : IgnoresJobs P) where
  put_job-Keeps :
      {S : Type 0} (item : Item) (guard : Guard)
      → Keeps P (put_item {S = S} scheduled_jobs item guard)
  unfolding put_item
  put_job-Keeps item guard =
      Keeps-bind _ _ (Keeps-call _ _ (jobs.job_put item guard)) (λ a. search keeps_rules)

  create_job-Keeps : {S : Type 0} (job : ScheduledJob) → Keeps P (Jobs.create {S = S} job)
  unfolding Jobs.create
  create_job-Keeps job = search (keeps_rules, put_job-Keeps)

  pub update_job-Keeps : {S : Type 0} (job : ScheduledJob) → Keeps P (Jobs.update {S = S} job)
  unfolding Jobs.update
  update_job-Keeps job = search (keeps_rules, put_job-Keeps)

  rpush-Keeps : {S : Type 0} (key value : Text) → Keeps P (rpush {S = S} key value)
  unfolding rpush
  rpush-Keeps key value =
      Keeps-bind _ _ (Keeps-call _ _ (jobs.push key value)) (λ a. search keeps_rules)

  pub schedule_job-Keeps : Keeps P schedule_job
  unfolding schedule_job
  schedule_job-Keeps = search (keeps_rules, now-Keeps ign, create_job-Keeps, rpush-Keeps) depth 20

  new_scheduled_job-Keeps :
      {S : Type 0} (job_name queue_name : Text) (execute_at : ℕ) (job_details : Fields)
      → Keeps P (new_scheduled_job {S = S} job_name queue_name execute_at job_details)
  unfolding new_scheduled_job
  new_scheduled_job-Keeps job_name queue_name execute_at job_details =
      search (keeps_rules, now-Keeps ign, new_uuid-Keeps ign) depth 20

  scheduled_or_error-Keeps :
      {S : Type 0} (outcome : Exit (Unit {0})) (job : ScheduledJob)
      → Keeps P (scheduled_or_error {S = S} (outcome, job))
  unfolding scheduled_or_error
  scheduled_or_error-Keeps (returned _) job = search keeps_rules
  scheduled_or_error-Keeps (errored e) job = search keeps_rules
  scheduled_or_error-Keeps panicked job = search keeps_rules

  pub schedule_with_delay-Keeps :
      {S : Type 0} (job_name queue_name : Text) (delay_seconds : ℤ) (job_details : Fields)
      → Keeps P (schedule_with_delay {S = S} job_name queue_name delay_seconds job_details)
  unfolding schedule_with_delay
  schedule_with_delay-Keeps job_name queue_name delay_seconds job_details =
      Keeps-bind _ _ (now-Keeps ign) λ now'. Keeps-bind _ _ (new_scheduled_job-Keeps _ _ _ _) λ job.
        Keeps-bind _ _ (Keeps-with_object _ _ schedule_job-Keeps)
          λ outcome. scheduled_or_error-Keeps outcome.0 outcome.1
