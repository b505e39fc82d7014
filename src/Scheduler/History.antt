-- ===== src/Scheduler/History.antt =====
-- The life of a scheduler: its three passes, which cron starts, and the jobs that it schedules, in any
-- order and at any times. Each is a step; passes do not overlap.
pub mod Kept
pub mod Waits
pub mod Stranded
use dahlia.Domain.{ScheduledJob}
use dahlia.Runtime.{Env, World, with_object}
use dahlia.Scheduler.{
  schedule_job, process_current_minute_bucket, process_late_arrivals, cleanup_missed_jobs,
}

module _ {S : Type 0} (env : Env) where
  pub data Pass (w : World S) : World S → Type 0 where
    current : Pass w (process_current_minute_bucket env w).1
    late : Pass w (process_late_arrivals env w).1
    missed : Pass w (cleanup_missed_jobs env w).1

  pub data History (w : World S) : World S → Type 0 where
    here : History w w
    pass : {w₁ w₂ : World S} → History w w₁ → Pass w₁ w₂ → History w w₂
    schedule :
        {w₁ : World S} (job : ScheduledJob)
        → History w w₁
        → History w (with_object job schedule_job env w₁).1
