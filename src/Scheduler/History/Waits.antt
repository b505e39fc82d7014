-- ===== src/Scheduler/History/Waits.antt =====
-- What becomes of a job that was scheduled, in every history of the scheduler.
use mathlib.Core.Path.{subst}
use mathlib.Core.List.{Memᴰ}
use dahlia.Common.{
  ℕ, Bool, true, ◌&&◌, Bool-cases, Option, List, [], ◌∷◌, Text, length, text_eq, text_eq_refl, ◌≡◌,
  refl, sym, ◌∙◌, ◌⊎◌, inl, inr, arith,
}
use dahlia.Errors.{Error}
use dahlia.Domain.{ScheduledJob}
use dahlia.Runtime.{Env, Trace, World, returned, pushed, read_clock, ◌>>=◌}
use dahlia.Runtime.Keeps.{Keeps-with_object, Ignores}
use dahlia.Clock.{now}
use dahlia.Scheduler.{
  get_bucket_key, get_temp_key, adjusted, schedule_job, process_current_minute_bucket,
  process_late_arrivals, cleanup_missed_jobs,
}
use dahlia.Scheduler.Frames.{IgnoresJobs, schedule_job-Keeps}
use dahlia.Scheduler.Order.{IsInOrder, schedule_job_lem}
use dahlia.Scheduler.Lists.{lists, IsRedis}
use dahlia.Scheduler.Lists.Kept.{Memᴰ-append, Memᴰ-append_right}
use dahlia.Scheduler.History.{Pass, current, late, missed, History, here, pass, schedule}
use dahlia.Scheduler.History.Kept.{WaitsIn, WasTakenOrDropped, StillOrTaken, bucket_pass, temp_pass}

module _ (initial : Text → List Text) (ran : Trace → Bool) (unpacks : ℕ → Bool) (env : Env) (t : ℕ)
    (job_id : Text) where
  Waits-Ignores : Ignores (WaitsIn initial ran unpacks env t job_id)
  unfolding lists
  Waits-Ignores = record {
    clock = λ now t h. h;
    uuid = λ id t h. h;
    run_put = λ item guard outcome t h. h;
    log_put = λ item guard outcome t h. h;
    get = λ table key t h. h;
    query = λ table key limit start t h. h;
  }

  Mem-pushed :
      (list key value : Text) (outcome : Option Error) (tr : Trace)
      → Memᴰ job_id (lists initial ran unpacks tr list)
      → Memᴰ job_id (lists initial ran unpacks (pushed key value outcome ∷ tr) list)
  unfolding lists
  Mem-pushed list key value outcome tr m = elim (Bool-cases (ran tr && text_eq key list)) [
    | inl grown ↦ rw grown (Memᴰ-append job_id _ _ m)
    | inr same ↦ rw same m
  ]

  pushed-Waits :
      (key value : Text) (outcome : Option Error) (tr : Trace)
      → WaitsIn initial ran unpacks env t job_id tr
      → WaitsIn initial ran unpacks env t job_id (pushed key value outcome ∷ tr)
  pushed-Waits key value outcome tr (inl m) = inl (Mem-pushed _ key value outcome tr m)
  pushed-Waits key value outcome tr (inr m) = inr (Mem-pushed _ key value outcome tr m)

  Waits-IgnoresJobs : IgnoresJobs (WaitsIn initial ran unpacks env t job_id)
  unfolding lists
  Waits-IgnoresJobs = record { job_put = λ item guard outcome t h. h; push = pushed-Waits }

  -- the id of a job that was pushed is in its list
  push-Waits :
      (outcome : Option Error) (before : Trace)
      → ran before ≡ true
      → WaitsIn initial ran unpacks env t job_id
          (pushed (get_bucket_key env t) job_id outcome ∷ before)
  unfolding lists
  push-Waits outcome before r = inl (
      rw (r, text_eq_refl (get_bucket_key env t))
        (Memᴰ-append_right job_id (lists initial ran unpacks before (get_bucket_key env t))
          (job_id ∷ []) (Memᴰ.head refl)))

module _ {S : Type 0} (initial : Text → List Text) (ran : Trace → Bool) (unpacks : ℕ → Bool)
    (env : Env) (redis : IsRedis initial ran unpacks env)
    (width : (t u : ℕ) → length (env.minute_stamp t) ≡ length (env.minute_stamp u)) (t : ℕ)
    (job_id : Text) where
  pass_lem :
      {w w' : World S}
      → Pass env w w'
      → WaitsIn initial ran unpacks env t job_id w.trace
      → StillOrTaken initial ran unpacks env t job_id (read_clock (env.now w.trace) ∷ w.trace) w'
  unfolding process_current_minute_bucket process_late_arrivals cleanup_missed_jobs now ◌>>=◌ lists
  pass_lem current m = bucket_pass initial ran unpacks env redis width t job_id _ _ m
  pass_lem late m = bucket_pass initial ran unpacks env redis width t job_id _ _ m
  pass_lem missed m = temp_pass initial ran unpacks env redis width t job_id _ _ m

  history_lem :
      {w w' : World S} (h : History env w w')
      → WaitsIn initial ran unpacks env t job_id w.trace
      → WaitsIn initial ran unpacks env t job_id w'.trace
        ⊎ WasTakenOrDropped initial ran unpacks env
            (get_bucket_key env t)
            (get_temp_key env t)
            job_id
            w
            w'
            h
  history_lem here m = inl m
  history_lem (pass h p) m = elim (history_lem h m) [
    | inr taken ↦ inr (inl taken)
    | inl m₁ ↦ elim (pass_lem p m₁) [ inl m₂ ↦ inl m₂ | inr taken ↦ inr (inr taken) ]
  ]
  history_lem (schedule job h) m = elim (history_lem h m) [
    | inr taken ↦ inr taken
    | inl m₁ ↦ inl (
        (Keeps-with_object job schedule_job (
            schedule_job-Keeps (Waits-Ignores initial ran unpacks env t job_id)
              (Waits-IgnoresJobs initial ran unpacks env t job_id))).at
          env _ m₁)
  ]

-- a job that was scheduled is in the list of its minute
listed :
    (initial : Text → List Text) (ran : Trace → Bool) (unpacks : ℕ → Bool) (env : Env)
    (job : ScheduledJob) (before after : Trace)
    → IsRedis initial ran unpacks env
    → IsInOrder env job before (returned tt) after
    → WaitsIn initial ran unpacks env job.execute_at job.job_id after
listed initial ran unpacks env job before after redis (inl (e, exit, same)) = ground arith
listed initial ran unpacks env job before after redis (inr (inl (e, s, exit, same))) = ground arith
listed initial ran unpacks env job before after redis (inr (inr (o, k, same, inl (fine, exit)))) =
    subst (WaitsIn initial ran unpacks env job.execute_at job.job_id) (sym same) (
      push-Waits initial ran unpacks env job.execute_at job.job_id o _
        (redis.rpush_ran _ _ _ (k ∙ fine)))
listed initial ran unpacks env job before after redis (inr (inr (o, k, same, inr (e, exit, bad)))) =
    ground arith

-- If Redis answers from its lists and carries out what it does not refuse, and the texts of all
-- minutes are as long as each other: a job that was scheduled without an error is, after every history
-- of the scheduler, in one of the two lists of the minute that it was scheduled for, or a pass of the
-- history has taken it out, because SQS accepted its message or it could not be read, or the script of
-- a pass over that minute has deleted its list and failed to unpack it, because it was too long.
pub scheduled_job_waits :
    {S : Type 0} (initial : Text → List Text) (ran : Trace → Bool) (unpacks : ℕ → Bool) (env : Env)
    (w₀ : World ScheduledJob) (w w' : World S) (h : History env w w')
    → IsRedis initial ran unpacks env
    → ((t u : ℕ) → length (env.minute_stamp t) ≡ length (env.minute_stamp u))
    → (schedule_job env w₀).0 ≡ returned tt
    → w.trace ≡ (schedule_job env w₀).1.trace
    → let job = (schedule_job env w₀).1.local in
      WaitsIn initial ran unpacks env job.execute_at job.job_id w'.trace
      ⊎ WasTakenOrDropped initial ran unpacks env
          (get_bucket_key env job.execute_at)
          (get_temp_key env job.execute_at)
          job.job_id
          w
          w'
          h
scheduled_job_waits initial ran unpacks env w₀ w w' h redis width done starts =
    let job = (schedule_job env w₀).1.local in
    history_lem initial ran unpacks env redis width job.execute_at job.job_id h
      (subst (WaitsIn initial ran unpacks env job.execute_at job.job_id) (sym starts) at_start)
  where
    job' : ScheduledJob
    job' = record w₀.local { execute_at = adjusted (env.now w₀.trace) w₀.local.execute_at }

    at_start :
        WaitsIn initial ran unpacks env
          (schedule_job env w₀).1.local.execute_at
          (schedule_job env w₀).1.local.job_id
          (schedule_job env w₀).1.trace
    at_start =
        let (same, order) = schedule_job_lem env w₀ in
        subst
          (λ (job : ScheduledJob).
            WaitsIn initial ran unpacks env job.execute_at job.job_id (schedule_job env w₀).1.trace)
          (sym same)
          (listed initial ran unpacks env job' _ _ redis (
            subst
              (λ r.
                IsInOrder env job' (read_clock (env.now w₀.trace) ∷ w₀.trace) r
                  (schedule_job env w₀).1.trace)
              done order))
