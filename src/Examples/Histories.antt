-- ===== src/Examples/Histories.antt =====
-- Histories of a scheduler with one job.
use dahlia.Common.{
  text_eq, if◌then◌else◌, inl, some, ℕ, ◌/◌, true, List, [], ◌∷◌, Text, codes, length, map, ◌≡◌,
  ◌≢◌, ◌⊎◌, refl, inr, arith,
}
use dahlia.Errors.{ok}
use dahlia.Domain.{ScheduledJob, string}
use dahlia.Runtime.{Env, World, returned, ◌>>=◌}
use dahlia.Clock.{now}
use dahlia.Cache.{rpush}
use dahlia.Repository.Jobs
use dahlia.Scheduler.{
  get_bucket_key, get_temp_key, truncate_minute, schedule_job, process_current_minute_bucket,
  cleanup_missed_jobs,
}
use dahlia.Scheduler.Sending.{WasRefused, accepted}
use dahlia.Scheduler.{process_bucket}
use dahlia.Scheduler.Lists.{reads, lists, IsRedis}
use dahlia.Scheduler.Lists.Delivered.{AllSent, Works, process_bucket-delivers}
use dahlia.Scheduler.History.{current, missed, History, here, pass}
use dahlia.Scheduler.History.Kept.{WaitsIn, WasTakenOrDropped}
use dahlia.Scheduler.History.Waits.{scheduled_job_waits}
use dahlia.Scheduler.History.Stranded.{past_list_stays}
use dahlia.Examples.Setting.{takes, moved, moved-ok, accepting, start, job}

abbrev nothing : Text → List Text
nothing key = []

-- Redis carries out every call
abbrev redis : Env
redis = record accepting {
  llen = λ t key. ok (length (lists nothing (λ _. true) takes t key));
  transfer = λ t bucket temp. moved (lists nothing (λ _. true) takes t bucket);
  lrange = λ t key. ok (lists nothing (λ _. true) takes t key);
  minute_stamp = λ t. (t / 60000) ∷ [];
}

redis-IsRedis : IsRedis nothing (λ _. true) takes redis
redis-IsRedis = record {
  rpush_ran = λ t key value h. refl;
  transfer_ran =
      λ t bucket temp values h. let (fits, same) = moved-ok _ values h in (refl, fits, same);
  lrange_reads = λ t key values h. ground arith;
  llen_reads = λ t key n h. ground arith;
}

abbrev at_start : World ScheduledJob
at_start = start job

abbrev scheduled : World ScheduledJob
scheduled = (schedule_job redis at_start).1

minutes :
    History redis scheduled
      (cleanup_missed_jobs redis (process_current_minute_bucket redis scheduled).1).1
minutes = pass (pass here current) missed

is_scheduled : (schedule_job redis at_start).0 ≡ returned tt
unfolding schedule_job now Jobs.create rpush ◌>>=◌
is_scheduled = refl

scheduled_job_waits_example :
    WaitsIn nothing
      (λ _. true)
      takes
      redis
      scheduled.local.execute_at
      scheduled.local.job_id
      (cleanup_missed_jobs redis (process_current_minute_bucket redis scheduled).1).1.trace
    ⊎ WasTakenOrDropped nothing
        (λ _. true)
        takes
        redis
        (get_bucket_key redis scheduled.local.execute_at)
        (get_temp_key redis scheduled.local.execute_at)
        scheduled.local.job_id
        scheduled
        (cleanup_missed_jobs redis (process_current_minute_bucket redis scheduled).1).1
        minutes
scheduled_job_waits_example =
    scheduled_job_waits nothing (λ _. true) takes redis at_start scheduled _ minutes redis-IsRedis
      (λ t u. refl) is_scheduled refl

-- the clock is past the sixth minute after the epoch
abbrev late_redis : Env
late_redis = record redis { now = λ t. 500000 }

abbrev forgotten : Text → List Text
forgotten key = codes "j" ∷ []

stamps_differ :
    (t u : ℕ)
    → truncate_minute t ≢ truncate_minute u
    → late_redis.minute_stamp t ≢ late_redis.minute_stamp u
unfolding truncate_minute
stamps_differ t u differ e = ground arith

past_list_stays_example :
    let after = (process_current_minute_bucket late_redis (start job)).1.trace in
    let key = get_temp_key late_redis 70000 in
    (lists forgotten (λ _. true) (λ n. true) after key ≡ codes "j" ∷ []) × (reads key after ≡ 0)
unfolding lists reads truncate_minute
past_list_stays_example =
    past_list_stays forgotten (λ _. true) (λ n. true) late_redis 70000
      (get_temp_key late_redis 70000) (start job)
      (process_current_minute_bucket late_redis (start job)).1 (λ t u. refl) stamps_differ
      (inr (refl, λ tr. omega arith)) (pass here current)

-- two jobs wait in the list `B`
abbrev two_waiting : Text → List Text
two_waiting key = if text_eq key (codes "B") then codes "j" ∷ codes "k" ∷ [] else []

abbrev working : Env
working = record accepting {
  llen = λ t key. ok (length (lists two_waiting (λ _. true) (λ n. true) t key));
  transfer =
      λ t bucket temp. ok (some (map string (lists two_waiting (λ _. true) (λ n. true) t bucket)));
  lrange = λ t key. ok (lists two_waiting (λ _. true) (λ n. true) t key);
  marshal_json = λ fields. ok (codes "json");
}

working-IsRedis : IsRedis two_waiting (λ _. true) (λ n. true) working
working-IsRedis = record {
  rpush_ran = λ t key value h. refl;
  transfer_ran = λ t bucket temp values h. (refl, refl, ground arith);
  lrange_reads = λ t key values h. ground arith;
  llen_reads = λ t key n h. ground arith;
}

working-sends : (job : ScheduledJob) → WasRefused working job → ⊥
working-sends sent (inl (e, h)) = ground arith
working-sends sent (inr (body, t, e, h)) = ground arith

working-Works : Works ScheduledJob working
unfolding Jobs.get_by_id ◌>>=◌
working-Works = record {
  reads = λ job_id w. (job, refl);
  sends = working-sends;
  measures = λ t key. (_, refl);
  transfers = λ t bucket_key temp_key. (_, refl);
}

process_bucket-delivers_example :
    let (r, w') = process_bucket (codes "B") (codes "T") working (start job) in
    (r ≡ returned tt)
    × AllSent ScheduledJob working
        (lists two_waiting (λ _. true) (λ n. true) [] (codes "B"))
        []
        (accepted w'.trace)
process_bucket-delivers_example =
    process_bucket-delivers two_waiting (λ _. true) (λ n. true) working (codes "B") (codes "T")
      (start job) working-IsRedis working-Works
