-- ===== src/Scheduler/Cron.antt =====
-- internal/service/scheduler.go, Start and Stop: what the scheduler tells its cron. AddFunc is a call
-- of the cron library, which refuses a specification that it cannot parse.
use dahlia.Common.{
  Bool-cases, String, Bool, true, Option, none, some, List, [], ◌∷◌, ◌≡◌, refl, ◌⊎◌, inl, inr,
  if◌then◌else◌,
}
use dahlia.Errors.{Error, wrap}
use dahlia.Runtime.{
  Env, World, Go, raise, panic, get, modify, wrapping, returned, errored, panicked, ◌>>=◌, ◌>>◌,
}

-- the method that an entry of the cron runs
pub data Pass : Type 0 where
  process_current_minute_bucket process_late_arrivals cleanup_missed_jobs : Pass

pub data CronCall : Type 0 where
  add_func : String → Pass → CronCall
  start_cron stop_cron : CronCall

-- What the scheduler has told its cron, the newest first, and whether stopCh is closed.
pub record Control : Type 0 where
  pub calls : List CronCall
  pub stopped : Bool

tell : CronCall → Go Control (Unit {0})
tell c = modify (λ s. record s { calls = c ∷ s.calls })

-- Stop waits for the passes that run; closing a channel that is closed panics.
stopping : Control → Go Control (Unit {0})
stopping s =
    if s.stopped
    then panic
    else modify (λ s. record s { calls = stop_cron ∷ s.calls; stopped = true })

unfoldable pub stop : Go Control (Unit {0})
unfolding stopping
stop = do s ← get; stopping s

entry : String → Pass → Option Error → Go Control (Unit {0})
unfolding tell
entry spec pass none = tell (add_func spec pass)
entry spec pass (some e) = raise e

started : (main late cleanup : Option Error) → Go Control (Unit {0})
unfolding entry tell
started main late cleanup = do
  wrapping "failed to add main cron" (entry "0 * * * * *" process_current_minute_bucket main)
  wrapping "failed to add late arrivals cron" (entry "10 * * * * *" process_late_arrivals late)
  wrapping "failed to add cleanup cron" (entry "30 * * * * *" cleanup_missed_jobs cleanup)
  tell start_cron

-- the call of AddFunc with the specification fails
unfoldable pub start : (String → Option Error) → Go Control (Unit {0})
unfolding started
start refuses = started (refuses "0 * * * * *") (refuses "10 * * * * *") (refuses "30 * * * * *")

-- all three passes are added, and the cron is started
abbrev Started : Control → Control → Type 0
Started s s' =
    s'.calls
    ≡ start_cron
      ∷ add_func "30 * * * * *" cleanup_missed_jobs
      ∷ add_func "10 * * * * *" process_late_arrivals
      ∷ add_func "0 * * * * *" process_current_minute_bucket
      ∷ s.calls

-- the cron is as it was, or its last call added an entry
abbrev NotStarted : Control → Control → Type 0
NotStarted s s' =
    (s'.calls ≡ s.calls)
    ⊎ ((spec : String) × (pass : Pass) × (rest : List CronCall) × (s'.calls
          ≡ add_func spec pass ∷ rest))

-- Start adds the three passes, at the seconds 0, 10 and 30 of each minute, and starts the cron; if the
-- cron refuses one of them, it returns a wrapped error and does not start the cron.
start_lem :
    (refuses : String → Option Error) (env : Env) (w : World Control)
    → let (r, w') = start refuses env w in
      ((r ≡ returned tt) × Started w.local w'.local)
      ⊎ ((context : String) × (e : Error) × (r ≡ errored (wrap context [] e))
          × NotStarted w.local w'.local)
unfolding start ◌>>=◌ wrapping
start_lem refuses env w =
    cases (refuses "0 * * * * *") (refuses "10 * * * * *") (refuses "30 * * * * *")
  where
    cases :
        (main late cleanup : Option Error)
        → let (r, w') = started main late cleanup env w in
          ((r ≡ returned tt) × Started w.local w'.local)
          ⊎ ((context : String) × (e : Error) × (r ≡ errored (wrap context [] e))
              × NotStarted w.local w'.local)
    cases (some e) late cleanup = inr (_, e, refl, inl refl)
    cases none (some e) cleanup = inr (_, e, refl, inr (_, _, _, refl))
    cases none none (some e) = inr (_, e, refl, inr (_, _, _, refl))
    cases none none none = inl (refl, refl)

-- The second Stop of a scheduler panics.
stop-twice : (env : Env) (w : World Control) → ((stop >> stop) env w).0 ≡ panicked
unfolding stop ◌>>=◌
stop-twice env w = elim (Bool-cases w.local.stopped) [
  | inl stopped ↦ rw stopped refl
  | inr running ↦ rw running refl
]
