-- ===== src/Scheduler/Lists/Kept.antt =====
-- A job stays in its TEMP list as long as nothing asks for its removal from there.
use dahlia.Common.{
  ℕ, suc, ◌≤◌, ◌<◌, Bool, false, ◌&&◌, Bool-cases, Option, List, [], ◌∷◌, ◌++◌, Text, text_eq,
  text_eq_iff, ◌≡◌, ◌≢◌, sym, ◌∙◌, ◌⊎◌, inl, inr, if◌then◌else◌, arith,
}
use mathlib.Core.List.{Memᴰ}
use dahlia.Errors.{Error, ok, err, Result}
use dahlia.Domain.{ScheduledJob}
use dahlia.Runtime.{Trace, removed, pushed}
use dahlia.Runtime.Keeps.{Keeps, Keeps-bind, Keeps-call, Ignores, keeps_rules}
use dahlia.Repository.Frames
use dahlia.Cache.{lrem}
use dahlia.Scheduler.{process_job, run_job, complete_job, after_send, send_to_queue, sqs_send}
use dahlia.Scheduler.Frames.{IgnoresJobs, update_job-Keeps}
use dahlia.Scheduler.Sending.{removals}
use dahlia.Scheduler.Lists.{remove_first, lists}

-- how often the removal of a job from a list is asked for
unfoldable pub count : Text → Text → List (Text × Text) → ℕ
count key job_id [] = 0
count key job_id ((k, value) ∷ rest) =
    let n = count key job_id rest in if text_eq k key && text_eq value job_id then suc n else n

Memᴰ-remove_first :
    (job_id value : Text) (xs : List Text)
    → value ≢ job_id
    → Memᴰ job_id xs
    → Memᴰ job_id (remove_first value xs)
unfolding remove_first
Memᴰ-remove_first job_id value [] other m = elim m [ ]
Memᴰ-remove_first job_id value (x ∷ xs) other (Memᴰ.head e) = elim (Bool-cases (text_eq x value)) [
  | inl same ↦ absurd (other (sym ((text_eq_iff x value).0 same) ∙ sym e))
  | inr differ ↦ rw differ (Memᴰ.head e)
]
Memᴰ-remove_first job_id value (x ∷ xs) other (Memᴰ.tail m) = elim (Bool-cases (text_eq x value)) [
  | inl same ↦ rw same m
  | inr differ ↦ rw differ (Memᴰ.tail (Memᴰ-remove_first job_id value xs other m))
]

pub Memᴰ-append : {A : Type 0} (a : A) (xs ys : List A) → Memᴰ a xs → Memᴰ a (xs ++ ys)
Memᴰ-append a [] ys m = elim m [ ]
Memᴰ-append a (x ∷ xs) ys (Memᴰ.head e) = Memᴰ.head e
Memᴰ-append a (x ∷ xs) ys (Memᴰ.tail m) = Memᴰ.tail (Memᴰ-append a xs ys m)

pub Memᴰ-append_right : {A : Type 0} (a : A) (xs ys : List A) → Memᴰ a ys → Memᴰ a (xs ++ ys)
Memᴰ-append_right a [] ys m = m
Memᴰ-append_right a (x ∷ xs) ys m = Memᴰ.tail (Memᴰ-append_right a xs ys m)

module _ (initial : Text → List Text) (ran : Trace → Bool) (unpacks : ℕ → Bool)
    (temp_key job_id : Text) (n : ℕ) where
  abbrev pub Kept : Trace → Type 0
  Kept t =
      (n ≤ count temp_key job_id (removals t))
      × (Memᴰ job_id (lists initial ran unpacks t temp_key)
          ⊎ (n < count temp_key job_id (removals t)))

  removed-Kept :
      (key value : Text) (outcome : Option Error) (t : Trace)
      → Kept t
      → Kept (removed key value outcome ∷ t)
  unfolding count lists
  removed-Kept key value outcome t (more, kept) = elim (Bool-cases (text_eq key temp_key)) [
    | inr elsewhere ↦ elim (Bool-cases (ran t)) [
      | inl r ↦ rw (elsewhere, r) (more, kept)
      | inr r ↦ rw (elsewhere, r) (more, kept)
    ]
    | inl here ↦ elim (Bool-cases (text_eq value job_id)) [
      | inl asked ↦ rw (here, asked) (omega arith, inr (omega arith))
      | inr other ↦ elim (Bool-cases (ran t)) [
        | inr r ↦ rw (here, other, r) (more, kept)
        | inl r ↦ rw (here, other, r) (more, still other kept)
      ]
    ]
  ]
    where
      still :
          text_eq value job_id ≡ false
          → Memᴰ job_id (lists initial ran unpacks t temp_key)
            ⊎ (n < count temp_key job_id (removals t))
          → Memᴰ job_id (remove_first value (lists initial ran unpacks t temp_key))
            ⊎ (n < count temp_key job_id (removals t))
      still other (inl m) =
          inl (Memᴰ-remove_first job_id value _ (λ e. ground (arith, text_eq_iff value job_id)) m)
      still other (inr asked) = inr asked

  Kept-Ignores : Ignores Kept
  unfolding count lists
  Kept-Ignores = record {
    clock = λ now t h. h;
    uuid = λ id t h. h;
    run_put = λ item guard outcome t h. h;
    log_put = λ item guard outcome t h. h;
    get = λ table key t h. h;
    query = λ table key limit start t h. h;
  }

  pushed-Kept :
      (key value : Text) (outcome : Option Error) (t : Trace)
      → Kept t
      → Kept (pushed key value outcome ∷ t)
  unfolding lists
  pushed-Kept key value outcome t (more, inr asked) = (more, inr asked)
  pushed-Kept key value outcome t (more, inl m) =
      elim (Bool-cases (ran t && text_eq key temp_key)) [
        | inl grown ↦ rw grown (more, inl (Memᴰ-append job_id _ _ m))
        | inr same ↦ rw same (more, inl m)
      ]

  Kept-IgnoresJobs : IgnoresJobs Kept
  unfolding count lists
  Kept-IgnoresJobs = record { job_put = λ item guard outcome t h. h; push = pushed-Kept }

  module _ {S : Type 0} where
    lrem-Keeps : (key value : Text) → Keeps Kept (lrem {S = S} key value)
    unfolding lrem
    lrem-Keeps key value =
        Keeps-bind _ _ (Keeps-call _ _ (removed-Kept key value)) (λ a. search keeps_rules)

    sqs_send-Keeps : (url body : Text) → Keeps Kept (sqs_send {S = S} url body)
    unfolding sqs_send lists count
    sqs_send-Keeps url body =
        Keeps-bind _ _ (Keeps-call _ _ (λ outcome t h. h)) (λ a. search keeps_rules)

    send_to_queue-Keeps : (job : ScheduledJob) → Keeps Kept (send_to_queue {S = S} job)
    unfolding send_to_queue
    send_to_queue-Keeps job = search (keeps_rules, sqs_send-Keeps) depth 20

    after_send-Keeps :
        (sent : Result (Unit {0})) (job : ScheduledJob) (id : Text)
        → Keeps Kept (after_send {S = S} sent job id temp_key)
    unfolding after_send complete_job
    after_send-Keeps (ok _) job id =
        search
          (
            keeps_rules,
            Frames.now-Keeps Kept-Ignores,
            update_job-Keeps Kept-Ignores Kept-IgnoresJobs,
            lrem-Keeps,
          )
          depth 20
    after_send-Keeps (err e) job id = search keeps_rules

    run_job-Keeps :
        (found : Result ScheduledJob) (id : Text) → Keeps Kept (run_job {S = S} found id temp_key)
    unfolding run_job
    run_job-Keeps (err e) id = search (keeps_rules, lrem-Keeps)
    run_job-Keeps (ok job) id =
        search
          (
            keeps_rules,
            Frames.now-Keeps Kept-Ignores,
            update_job-Keeps Kept-Ignores Kept-IgnoresJobs,
            send_to_queue-Keeps,
            after_send-Keeps,
          )
          depth 30

    pub process_job-Keeps : (id : Text) → Keeps Kept (process_job {S = S} id temp_key)
    unfolding process_job
    process_job-Keeps id =
        search (keeps_rules, Frames.get_job-Keeps Kept-Ignores, run_job-Keeps) depth 20
