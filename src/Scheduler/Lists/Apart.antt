-- ===== src/Scheduler/Lists/Apart.antt =====
-- The passes of a scheduler leave the lists that are not its own as they are.
use dahlia.Common.{
  length, ℕ, Bool, false, Bool-cases, Option, List, [], ◌∷◌, Text, text_eq, ◌==◌, ◌≡◌, inl, inr,
}
use dahlia.Errors.{Error, ok, err, Result}
use dahlia.Domain.{ScheduledJob}
use dahlia.Runtime.{
  Env, World, Trace, Item, Guard, scheduled_jobs, transferred, removed, ask, ◌>>=◌,
}
use dahlia.Runtime.Keeps.{
  Keeps, Keeps-pure, Keeps-if, Keeps-bind, Keeps-call, Keeps-attempt, Ignores, keeps_rules,
}
use dahlia.Repository.{put_item}
use dahlia.Repository.Frames
use dahlia.Repository.Jobs
use dahlia.Clock.{now}
use dahlia.Cache.{llen, lrange, lrem, transfer}
use dahlia.Scheduler.{
  get_bucket_key, get_temp_key, process_job, run_job, complete_job, after_send, send_to_queue,
  sqs_send, process_jobs, process_bucket, process_temp, take_jobs, missed_jobs,
  process_current_minute_bucket, process_late_arrivals, cleanup_missed_jobs,
}
use dahlia.Scheduler.Lists.{atomic_transfer, lists, reads}

-- a list that a pass does not name is left as it is, and its content is not asked for
module _ (initial : Text → List Text) (ran : Trace → Bool) (unpacks : ℕ → Bool) (key : Text)
    (xs : List Text) (n : ℕ) where
  abbrev pub Same : Trace → Type 0
  Same t = (lists initial ran unpacks t key ≡ xs) × (reads key t ≡ n)

  Same-Ignores : Ignores Same
  unfolding lists reads
  Same-Ignores = record {
    clock = λ now t h. h;
    uuid = λ id t h. h;
    run_put = λ item guard outcome t h. h;
    log_put = λ item guard outcome t h. h;
    get = λ table key t h. h;
    query = λ table key limit start t h. h;
  }

  removed-Same :
      (k value : Text) (outcome : Option Error) (t : Trace)
      → text_eq k key ≡ false
      → Same t
      → Same (removed k value outcome ∷ t)
  unfolding lists reads
  removed-Same k value outcome t other h = elim (Bool-cases (ran t)) [
    | inl r ↦ rw (r, other) h
    | inr r ↦ rw r h
  ]

  transferred-Same :
      (bucket_key temp_key : Text) (t : Trace)
      → text_eq bucket_key key ≡ false
      → text_eq temp_key key ≡ false
      → Same t
      → Same (transferred bucket_key temp_key ∷ t)
  unfolding lists reads atomic_transfer
  transferred-Same bucket_key temp_key t other_bucket other_temp h = elim (Bool-cases (ran t)) [
    | inl r ↦ elim (Bool-cases (unpacks (length (lists initial ran unpacks t bucket_key)))) [
      | inl fits ↦ rw (r, fits, other_bucket, other_temp) h
      | inr long ↦ rw (r, long, other_bucket) h
    ]
    | inr r ↦ rw (r, other_bucket) h
  ]

  module _ {S : Type 0} where
    put_job-Same :
        (item : Item) (guard : Guard) → Keeps Same (put_item {S = S} scheduled_jobs item guard)
    unfolding put_item lists reads
    put_job-Same item guard =
        Keeps-bind _ _ (Keeps-call _ _ (λ outcome t h. h)) (λ a. search keeps_rules)

    update_job-Same : (job : ScheduledJob) → Keeps Same (Jobs.update {S = S} job)
    unfolding Jobs.update
    update_job-Same job = search (keeps_rules, put_job-Same)

    sqs_send-Same : (url body : Text) → Keeps Same (sqs_send {S = S} url body)
    unfolding sqs_send lists reads
    sqs_send-Same url body =
        Keeps-bind _ _ (Keeps-call _ _ (λ outcome t h. h)) (λ a. search keeps_rules)

    send_to_queue-Same : (job : ScheduledJob) → Keeps Same (send_to_queue {S = S} job)
    unfolding send_to_queue
    send_to_queue-Same job = search (keeps_rules, sqs_send-Same) depth 20

    llen-Same : (k : Text) → Keeps Same (llen {S = S} k)
    unfolding llen lists reads
    llen-Same k = Keeps-bind _ _ (Keeps-call _ _ (λ outcome t h. h)) (λ a. search keeps_rules)

    lrange-Same : (k : Text) → text_eq k key ≡ false → Keeps Same (lrange {S = S} k)
    unfolding lrange lists reads
    lrange-Same k other =
        Keeps-bind _ _ (Keeps-call _ _ (λ outcome t h. rw other h)) (λ a. search keeps_rules)

    module _ (temp_key : Text) (other_temp : text_eq temp_key key ≡ false) where
      lrem-Same : (value : Text) → Keeps Same (lrem {S = S} temp_key value)
      unfolding lrem
      lrem-Same value =
          Keeps-bind _ _
            (Keeps-call _ _ (λ outcome t h. removed-Same temp_key value outcome t other_temp h))
            (λ a. search keeps_rules)

      after_send-Same :
          (sent : Result (Unit {0})) (job : ScheduledJob) (id : Text)
          → Keeps Same (after_send {S = S} sent job id temp_key)
      unfolding after_send complete_job
      after_send-Same (ok _) job id =
          search (keeps_rules, Frames.now-Keeps Same-Ignores, update_job-Same, lrem-Same) depth 20
      after_send-Same (err e) job id = search keeps_rules

      run_job-Same :
          (found : Result ScheduledJob) (id : Text) → Keeps Same (run_job {S = S} found id temp_key)
      unfolding run_job
      run_job-Same (err e) id = search (keeps_rules, lrem-Same)
      run_job-Same (ok job) id =
          search
            (
              keeps_rules,
              Frames.now-Keeps Same-Ignores,
              update_job-Same,
              send_to_queue-Same,
              after_send-Same,
            )
            depth 30

      process_job-Same : (id : Text) → Keeps Same (process_job {S = S} id temp_key)
      unfolding process_job
      process_job-Same id =
          search (keeps_rules, Frames.get_job-Keeps Same-Ignores, run_job-Same) depth 20

      pub process_jobs-Same : (ids : List Text) → Keeps Same (process_jobs {S = S} ids temp_key)
      unfolding process_jobs
      process_jobs-Same [] = search keeps_rules
      process_jobs-Same (id ∷ ids) =
          Keeps-bind _ _ (process_job-Same id) (λ _. process_jobs-Same ids)

      transfer-Same :
          (bucket_key : Text)
          → text_eq bucket_key key ≡ false
          → Keeps Same (transfer {S = S} bucket_key temp_key)
      unfolding transfer
      transfer-Same bucket_key other_bucket =
          Keeps-bind _ _
            (Keeps-call _ _
              (λ outcome t h. transferred-Same bucket_key temp_key t other_bucket other_temp h))
            (λ a. search keeps_rules)

      take_jobs-Same :
          (length : Result ℕ) (bucket_key : Text)
          → text_eq bucket_key key ≡ false
          → Keeps Same (take_jobs {S = S} length bucket_key temp_key)
      unfolding take_jobs
      take_jobs-Same (err e) bucket_key other_bucket = search keeps_rules
      take_jobs-Same (ok n) bucket_key other_bucket = Keeps-if (n == 0) _ _ (Keeps-pure []) (
          Keeps-bind _ _ (Keeps-attempt _ (transfer-Same bucket_key other_bucket))
            (λ result. Keeps-pure _))

      pub process_bucket-Same :
          (bucket_key : Text)
          → text_eq bucket_key key ≡ false
          → Keeps Same (process_bucket {S = S} bucket_key temp_key)
      unfolding process_bucket
      process_bucket-Same bucket_key other_bucket =
          Keeps-bind _ _ (search (keeps_rules, llen-Same)) λ length.
            Keeps-bind _ _ (take_jobs-Same length bucket_key other_bucket) process_jobs-Same

      missed_jobs-Same : (length : Result ℕ) → Keeps Same (missed_jobs {S = S} length temp_key)
      unfolding missed_jobs
      missed_jobs-Same (err e) = search keeps_rules
      missed_jobs-Same (ok n) = search (keeps_rules, lrange-Same, other_temp) depth 20

      pub process_temp-Same : Keeps Same (process_temp {S = S} temp_key)
      unfolding process_temp
      process_temp-Same =
          Keeps-bind _ _ (search (keeps_rules, llen-Same))
            λ length. Keeps-bind _ _ (missed_jobs-Same length) process_jobs-Same

    module _ (env : Env) (other_bucket : (t : ℕ) → text_eq (get_bucket_key env t) key ≡ false)
        (other_temp : (t : ℕ) → text_eq (get_temp_key env t) key ≡ false) where
      bucket_pass-Same :
          (minute : ℕ) (w : World S)
          → Same w.trace
          → Same
              (process_bucket (get_bucket_key env minute) (get_temp_key env minute) env w).1.trace
      bucket_pass-Same minute w h =
          (process_bucket-Same _ (other_temp minute) _ (other_bucket minute)).at env w h

      pub current-Same :
          (w : World S) → Same w.trace → Same (process_current_minute_bucket env w).1.trace
      unfolding process_current_minute_bucket ask ◌>>=◌ process_bucket now
      current-Same w h = bucket_pass-Same _ _ ((Frames.now-Keeps Same-Ignores).at env w h)

      pub late-Same : (w : World S) → Same w.trace → Same (process_late_arrivals env w).1.trace
      unfolding process_late_arrivals ask ◌>>=◌ process_bucket now
      late-Same w h = bucket_pass-Same _ _ ((Frames.now-Keeps Same-Ignores).at env w h)

      pub missed-Same : (w : World S) → Same w.trace → Same (cleanup_missed_jobs env w).1.trace
      unfolding cleanup_missed_jobs ask ◌>>=◌ process_temp now
      missed-Same w h =
          (process_temp-Same _ (other_temp _)).at env _ ((Frames.now-Keeps Same-Ignores).at env w h)
