-- ===== src/Scheduler/History/Stranded.antt =====
-- The lists of a minute that the passes no longer look at.
use mathlib.Core.Path.{subst}
use dahlia.Common.{
  ℕ, ◌+◌, ◌-◌, ◌≤◌, ◌<◌, Bool, false, Bool-cases, List, ◌∷◌, Text, length, text_eq, Option, ◌≡◌,
  ◌≢◌, refl, sym, ap, ◌∙◌, ◌⊎◌, inl, inr, arith,
}
use dahlia.Errors.{Error}
use dahlia.Domain.{ScheduledJob}
use dahlia.Runtime.{Env, Trace, World, Exit, read_clock, pushed, with_object, ◌>>=◌}
use dahlia.Clock.{now}
use dahlia.Scheduler.{
  get_bucket_key, get_temp_key, truncate_minute, adjusted, schedule_job, process_bucket,
  process_temp, process_current_minute_bucket, process_late_arrivals, cleanup_missed_jobs,
}
use dahlia.Scheduler.Minutes.{adjusted_bounds}
use dahlia.Scheduler.Order.{IsInOrder, schedule_job_lem}
use dahlia.Scheduler.Lists.{lists, reads}
use dahlia.Scheduler.Lists.Keys.{AreApart, temp_not_bucket, stamps_apart}
use dahlia.Scheduler.Lists.Apart.{process_bucket-Same, process_temp-Same}
use dahlia.Scheduler.History.{Pass, current, late, missed, History, here, pass, schedule}

-- The list of a minute that is two minutes old, or its TEMP list once it is six minutes old; time
-- does not go back.
abbrev pub IsPast : Env → ℕ → Text → Type 0
IsPast env t key =
    ((key ≡ get_bucket_key env t) × ((tr : Trace) → truncate_minute t + 120000 ≤ env.now tr))
    ⊎ ((key ≡ get_temp_key env t) × ((tr : Trace) → truncate_minute t + 360000 ≤ env.now tr))

abbrev Same : (Text → List Text) → (Trace → Bool) → (ℕ → Bool) → Text → Trace → Trace → Type 0
Same initial ran unpacks key before after =
    (lists initial ran unpacks after key ≡ lists initial ran unpacks before key)
    × (reads key after ≡ reads key before)

not_pushed :
    (initial : Text → List Text) (ran : Trace → Bool) (unpacks : ℕ → Bool) (key k value : Text)
    (o : Option Error) (tr : Trace)
    → text_eq k key ≡ false
    → lists initial ran unpacks (pushed k value o ∷ tr) key ≡ lists initial ran unpacks tr key
unfolding lists
not_pushed initial ran unpacks key k value o tr other = elim (Bool-cases (ran tr)) [
  | inl r ↦ rw (r, other) refl
  | inr r ↦ rw r refl
]

later_now :
    (m t now back : ℕ)
    → m ≡ truncate_minute t
    → m + 60000 + back ≤ now
    → m < truncate_minute (truncate_minute (now - back))
unfolding truncate_minute
later_now m t now back e late' = omega (arith, e, late')

after_now :
    (t now : ℕ)
    → truncate_minute t + 60000 ≤ now
    → truncate_minute t < truncate_minute (truncate_minute now)
unfolding truncate_minute
after_now t now late' = omega (arith, late')

module _ (env : Env) (width : (t u : ℕ) → length (env.minute_stamp t) ≡ length (env.minute_stamp u))
    (stamps : (t u : ℕ)
      → truncate_minute t ≢ truncate_minute u
      → env.minute_stamp t ≢ env.minute_stamp u)
    (t : ℕ) where
  later_apart :
      (u : ℕ)
      → truncate_minute t < truncate_minute u
      → AreApart
          (get_bucket_key env u)
          (get_temp_key env u)
          (get_bucket_key env t)
          (get_temp_key env t)
  later_apart u later =
      stamps_apart env width u t (stamps u t (λ e. absurd (omega (arith, e, later))))

  abbrev IsOne : Text → Type 0
  IsOne key = (key ≡ get_bucket_key env t) ⊎ (key ≡ get_temp_key env t)

  one : (key : Text) → IsPast env t key → IsOne key
  one key (inl (e, past)) = inl e
  one key (inr (e, past)) = inr e

  two_minutes :
      (key : Text) → IsPast env t key → (tr : Trace) → truncate_minute t + 120000 ≤ env.now tr
  two_minutes key (inl (e, past)) tr = past tr
  two_minutes key (inr (e, past)) tr = omega (arith, past tr)

  temp_apart :
      (key : Text) (tr : Trace)
      → IsPast env t key
      → text_eq (get_temp_key env (truncate_minute (env.now tr - 300000))) key ≡ false
  temp_apart key tr (inl (e, past)) =
      subst (λ k. text_eq (get_temp_key env (truncate_minute (env.now tr - 300000))) k ≡ false)
        (sym e) (temp_not_bucket env width _ t)
  temp_apart key tr (inr (e, past)) =
      let (bb, bt, tb, tt') =
        later_apart (truncate_minute (env.now tr - 300000))
          (later_now _ t (env.now tr) 300000 refl (omega (arith, past tr))) in
      subst (λ k. text_eq (get_temp_key env (truncate_minute (env.now tr - 300000))) k ≡ false)
        (sym e) tt'

  pushed_apart :
      (key : Text) (u : ℕ)
      → IsOne key
      → truncate_minute t < truncate_minute u
      → text_eq (get_bucket_key env u) key ≡ false
  pushed_apart key u (inl e) later =
      let (bb, bt, tb, tt') = later_apart u later in
      subst (λ k. text_eq (get_bucket_key env u) k ≡ false) (sym e) bb
  pushed_apart key u (inr e) later =
      let (bb, bt, tb, tt') = later_apart u later in
      subst (λ k. text_eq (get_bucket_key env u) k ≡ false) (sym e) bt

  pushed-Same :
      (initial : Text → List Text) (ran : Trace → Bool) (unpacks : ℕ → Bool) (key : Text)
      (job : ScheduledJob) (now' : ℕ) (before after : Trace) (r : Exit (Unit {0}))
      → IsPast env t key
      → truncate_minute t < truncate_minute job.execute_at
      → IsInOrder env job (read_clock now' ∷ before) r after
      → Same initial ran unpacks key before after
  unfolding lists reads
  pushed-Same initial ran unpacks key job now' before after r past later (inl (e, exit, same)) =
      (ap (λ tr. lists initial ran unpacks tr key) same, ap (reads key) same)
  pushed-Same initial ran unpacks key job now' before after r past later
        (inr (inl (e, s, exit, same))) =
      (ap (λ tr. lists initial ran unpacks tr key) same, ap (reads key) same)
  pushed-Same initial ran unpacks key job now' before after r past later
        (inr (inr (o, k, same, ends))) =
      (
        ap (λ tr. lists initial ran unpacks tr key) same
            ∙ not_pushed initial ran unpacks key _ _ o _
                (pushed_apart key job.execute_at (one key past) later),
        ap (reads key) same,
      )

  module _ {S : Type 0} (initial : Text → List Text) (ran : Trace → Bool) (unpacks : ℕ → Bool) where
    bucket-Same :
        (key : Text) (u : ℕ) (w : World S)
        → ((key ≡ get_bucket_key env t) ⊎ (key ≡ get_temp_key env t))
        → truncate_minute t < truncate_minute u
        → Same initial ran unpacks key w.trace
            (process_bucket (get_bucket_key env u) (get_temp_key env u) env w).1.trace
    bucket-Same key u w (inl e) later =
        let (bb, bt, tb, tt') = later_apart u later in
        subst
          (λ k.
            Same initial ran unpacks k w.trace
              (process_bucket (get_bucket_key env u) (get_temp_key env u) env w).1.trace)
          (sym e) ((process_bucket-Same initial ran unpacks _ _ _ _ tb _ bb).at env w (refl, refl))
    bucket-Same key u w (inr e) later =
        let (bb, bt, tb, tt') = later_apart u later in
        subst
          (λ k.
            Same initial ran unpacks k w.trace
              (process_bucket (get_bucket_key env u) (get_temp_key env u) env w).1.trace)
          (sym e) ((process_bucket-Same initial ran unpacks _ _ _ _ tt' _ bt).at env w (refl, refl))

    temp-Same :
        (key temp_key : Text) (w : World S)
        → text_eq temp_key key ≡ false
        → Same initial ran unpacks key w.trace (process_temp temp_key env w).1.trace
    temp-Same key temp_key w other =
        (process_temp-Same initial ran unpacks key _ _ temp_key other).at env w (refl, refl)

    Pass-Same :
        (key : Text) {w w' : World S}
        → IsPast env t key
        → Pass env w w'
        → Same initial ran unpacks key w.trace w'.trace
    unfolding process_current_minute_bucket process_late_arrivals cleanup_missed_jobs now ◌>>=◌
        lists reads
    Pass-Same key {w} past current =
        bucket-Same key _ (record w { trace = read_clock (env.now w.trace) ∷ w.trace })
          (one key past)
          (after_now t (env.now w.trace) (omega (arith, two_minutes key past w.trace)))
    Pass-Same key {w} past late =
        bucket-Same key _ (record w { trace = read_clock (env.now w.trace) ∷ w.trace })
          (one key past)
          (later_now _ t (env.now w.trace) 60000 refl (omega (arith, two_minutes key past w.trace)))
    Pass-Same key {w} past missed =
        temp-Same key _ (record w { trace = read_clock (env.now w.trace) ∷ w.trace })
          (temp_apart key w.trace past)

    schedule-Same :
        (key : Text) (job : ScheduledJob) (w : World S)
        → IsPast env t key
        → Same initial ran unpacks key w.trace (with_object job schedule_job env w).1.trace
    unfolding with_object
    schedule-Same key job w past =
        let w₀ : World ScheduledJob = record { local = job; cache = w.cache; trace = w.trace } in
        let moved : ScheduledJob = record job {
          execute_at = adjusted (env.now w.trace) job.execute_at;
        } in
        let (same, order) = schedule_job_lem env w₀ in
        let (later, whole, which) = adjusted_bounds (env.now w.trace) job.execute_at in
        pushed-Same initial ran unpacks key moved (env.now w.trace) w.trace
          (schedule_job env w₀).1.trace (schedule_job env w₀).0 past
          (omega (arith, two_minutes key past w.trace, later)) order

    stays :
        (key : Text) {w w' : World S}
        → IsPast env t key
        → History env w w'
        → Same initial ran unpacks key w.trace w'.trace
    stays key past here = (refl, refl)
    stays key past (pass h p) =
        let (same, quiet) = stays key past h in
        let (same', quiet') = Pass-Same key past p in (same' ∙ same, quiet' ∙ quiet)
    stays key past (schedule job h) =
        let (same, quiet) = stays key past h in
        let (same', quiet') = schedule-Same key job _ past in (same' ∙ same, quiet' ∙ quiet)

-- If the texts of different minutes differ and are as long as each other, and time does not go back:
-- the list of a minute that is two minutes old, and the TEMP list of one that is six minutes old, stay
-- as they are in every history of the scheduler, and no pass of it asks for their content, by LRANGE or
-- by the script that moves a list.
pub past_list_stays :
    {S : Type 0} (initial : Text → List Text) (ran : Trace → Bool) (unpacks : ℕ → Bool) (env : Env)
    (t : ℕ) (key : Text) (w w' : World S)
    → ((t u : ℕ) → length (env.minute_stamp t) ≡ length (env.minute_stamp u))
    → ((t u : ℕ) → truncate_minute t ≢ truncate_minute u → env.minute_stamp t ≢ env.minute_stamp u)
    → IsPast env t key
    → History env w w'
    → (lists initial ran unpacks w'.trace key ≡ lists initial ran unpacks w.trace key)
      × (reads key w'.trace ≡ reads key w.trace)
past_list_stays initial ran unpacks env t key w w' width stamps past h =
    stays env width stamps t initial ran unpacks key past h
