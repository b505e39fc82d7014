-- ===== src/Scheduler.antt =====
-- internal/service/scheduler.go: jobs wait in a Redis list for each minute, and move to a TEMP list
-- when the minute comes. Instants before the epoch do not occur.
pub mod Minutes
pub mod Frames
pub mod Order
pub mod Sending
pub mod Delivery
pub mod Passes
pub mod Lists
pub mod History
pub mod Cron
use dahlia.Common.{
  ℕ, ◌+◌, ◌-◌, ◌*◌, ◌/◌, ℤ, pos, negsuc, ◌||◌, List, [], ◌∷◌, ◌++◌, Text, codes, ltb, ◌==◌,
  if◌then◌else◌, Option, none, some,
}
use dahlia.Errors.{Result, ok, err}
use dahlia.Domain.{Value, string, Fields, ScheduledJob, running, completed}
use dahlia.Runtime.{
  sqs_sent, Env, Go, pure, raise, lift, get, modify, ask, call, of_option, ignore, attempt,
  wrapping, with_object, Exit, returned, errored, panicked, panic, ◌>>=◌, ◌>>◌,
}
use dahlia.Clock.{now}
use dahlia.Cache.{llen, rpush, lrange, lrem, transfer}
use dahlia.Jobs.{new_scheduled_job}
use dahlia.Repository.Jobs

unfoldable pub queue_url : Text → Text
queue_url queue_name = codes "http://localhost:4566/000000000000/" ++ queue_name

-- t.Truncate(time.Minute)
unfoldable pub truncate_minute : ℕ → ℕ
truncate_minute t = t / 60000 * 60000

unfoldable pub get_bucket_key : Env → ℕ → Text
get_bucket_key env t = codes "schedule:" ++ env.minute_stamp t ++ codes ":" ++ env.node_id

unfoldable pub get_temp_key : Env → ℕ → Text
get_temp_key env t =
    codes "schedule:" ++ env.minute_stamp t ++ codes ":" ++ env.node_id ++ codes "_TEMP"

-- The elements of an array that are strings.
strings : List Value → List Text
strings [] = []
strings (string s ∷ values) = s ∷ strings values
strings (_ ∷ values) = strings values

unfoldable pub extract_job_ids : Option (List Value) → List Text
unfolding strings
extract_job_ids none = []
extract_job_ids (some values) = strings values

-- The execution time of a job: kept if its minute is still to come, else the next minute.
unfoldable pub adjusted : (current execute_at : ℕ) → ℕ
unfolding truncate_minute
adjusted current execute_at =
    let current_minute = truncate_minute current in
    let execute_minute = truncate_minute execute_at in
    if ltb execute_minute current_minute || execute_minute == current_minute
    then current_minute + 60000
    else execute_at

-- time.Now().Add(time.Duration(delaySeconds) * time.Second)
unfoldable pub add_seconds : ℕ → ℤ → ℕ
add_seconds t (pos n) = t + n * 1000
add_seconds t (negsuc n) = t - (n + 1) * 1000

module _ {S : Type 0} where
  unfoldable pub sqs_send : Text → Text → Go S (Unit {0})
  sqs_send queue_url body = do
    outcome ← call (λ env t. env.sqs_send t queue_url body) (sqs_sent queue_url body)
    of_option outcome

  pub send_to_queue : ScheduledJob → Go S (Unit {0})
  send_to_queue job = do
    body ←
        wrapping "failed to marshal job details"
          (ask (λ env. lift (env.marshal_json job.job_details)))
    wrapping "failed to send message to SQS" (sqs_send (queue_url job.queue_name) body)

-- The job is the caller's object; its execution time may move.
unfoldable pub schedule_job : Go ScheduledJob (Unit {0})
schedule_job = do
  current ← now
  modify (λ job. record job { execute_at = adjusted current job.execute_at })
  job ← get
  wrapping "failed to create job" (Jobs.create job)
  wrapping "failed to add job to bucket"
      (ask (λ env. rpush (get_bucket_key env job.execute_at) job.job_id))

module _ {S : Type 0} where
  scheduled_or_error : Exit (Unit {0}) × ScheduledJob → Go S ScheduledJob
  scheduled_or_error (returned _, job) = pure job
  scheduled_or_error (errored e, job) = raise e
  scheduled_or_error (panicked, job) = panic

  pub schedule_with_delay : Text → Text → ℤ → Fields → Go S ScheduledJob
  schedule_with_delay job_name queue_name delay_seconds job_details = do
    now' ← now
    job ← new_scheduled_job job_name queue_name (add_seconds now' delay_seconds) job_details
    outcome ← with_object job schedule_job
    scheduled_or_error outcome

  -- what follows a message that was sent
  complete_job : ScheduledJob → Text → Text → Go S (Unit {0})
  complete_job job job_id temp_key = do
    now' ← now
    ignore (Jobs.update (record job { status = completed; updated_at = now' }))
    ignore (lrem temp_key job_id)

  pub after_send : Result (Unit {0}) → ScheduledJob → Text → Text → Go S (Unit {0})
  after_send (ok _) job job_id temp_key = complete_job job job_id temp_key
  after_send (err e) job job_id temp_key = pure tt

  pub run_job : Result ScheduledJob → Text → Text → Go S (Unit {0})
  run_job (err e) job_id temp_key = ignore (lrem temp_key job_id)
  run_job (ok job) job_id temp_key = do
    now' ← now
    let started = record job { status = running; updated_at = now' }
    ignore (Jobs.update started)
    sent ← attempt (send_to_queue started)
    after_send sent started job_id temp_key

  pub process_job : Text → Text → Go S (Unit {0})
  process_job job_id temp_key = do
    found ← attempt (Jobs.get_by_id job_id)
    run_job found job_id temp_key

  pub process_jobs : List Text → Text → Go S (Unit {0})
  process_jobs [] temp_key = pure tt
  process_jobs (job_id ∷ job_ids) temp_key = do
    process_job job_id temp_key
    process_jobs job_ids temp_key

  -- an error of the cache is logged and ends the pass; an empty list does too
  take_jobs : Result ℕ → Text → Text → Go S (List Text)
  take_jobs (err e) bucket_key temp_key = pure []
  take_jobs (ok length) bucket_key temp_key = if length == 0 then pure [] else do
    result ← attempt (transfer bucket_key temp_key)
    pure (elim result [ ok values ↦ extract_job_ids values | err e ↦ [] ])

  pub process_bucket : Text → Text → Go S (Unit {0})
  process_bucket bucket_key temp_key = do
    length ← attempt (llen bucket_key)
    job_ids ← take_jobs length bucket_key temp_key
    process_jobs job_ids temp_key

  pub process_current_minute_bucket : Go S (Unit {0})
  process_current_minute_bucket = do
    current ← now
    let minute = truncate_minute current
    ask (λ env. process_bucket (get_bucket_key env minute) (get_temp_key env minute))

  pub process_late_arrivals : Go S (Unit {0})
  process_late_arrivals = do
    current ← now
    let minute = truncate_minute (current - 60000)
    ask (λ env. process_bucket (get_bucket_key env minute) (get_temp_key env minute))

  missed_jobs : Result ℕ → Text → Go S (List Text)
  missed_jobs (err e) temp_key = pure []
  missed_jobs (ok length) temp_key =
      if length == 0
      then pure []
      else do job_ids ← attempt (lrange temp_key); pure (elim job_ids [ ok ids ↦ ids | err e ↦ [] ])

  pub process_temp : Text → Go S (Unit {0})
  process_temp temp_key = do
    length ← attempt (llen temp_key)
    job_ids ← missed_jobs length temp_key
    process_jobs job_ids temp_key

  pub cleanup_missed_jobs : Go S (Unit {0})
  cleanup_missed_jobs = do
    current ← now
    let minute = truncate_minute (current - 300000)
    ask (λ env. process_temp (get_temp_key env minute))

  pub execute_job_directly : Text → Text → Fields → Go S (Unit {0})
  execute_job_directly job_name queue_name job_details = ignore (do
    body ← ask (λ env. lift (env.marshal_json job_details))
    sqs_send (queue_url queue_name) body)
