-- ===== src/Scheduler/Minutes.antt =====
-- The minute of a scheduled job.
use dahlia.Common.{ℕ, ◌+◌, ◌≤◌, ◌<◌, ◌≡◌, ◌⊎◌, arith}
use dahlia.Scheduler.{truncate_minute, adjusted}

-- Whatever time is asked for, the job waits in the list of a minute that begins after the clock
-- reading, so the pass of the current minute cannot have missed it; a time in such a minute is kept,
-- any other becomes the start of the next minute.
pub adjusted_bounds :
    (current execute_at : ℕ)
    → (current < truncate_minute (adjusted current execute_at))
      × (truncate_minute (adjusted current execute_at) ≤ adjusted current execute_at)
      × (((truncate_minute current < truncate_minute execute_at)
            × (adjusted current execute_at ≡ execute_at))
          ⊎ ((truncate_minute execute_at ≤ truncate_minute current)
              × (adjusted current execute_at ≡ truncate_minute current + 60000)))
unfolding adjusted
adjusted_bounds current execute_at = (ground arith, ground arith, ground arith)
