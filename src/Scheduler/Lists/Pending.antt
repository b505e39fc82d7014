-- ===== src/Scheduler/Lists/Pending.antt =====
-- A pass over jobs of a TEMP list takes out of it only what has been dealt with.
use mathlib.Core.Path.{subst}
use mathlib.Core.List.{Memᴰ}
use dahlia.Common.{
  ℕ, ◌<◌, Bool, Bool-cases, List, [], ◌∷◌, Text, text_eq, text_eq_iff, text_eq_refl, ◌≡◌, refl, sym,
  ap, ◌⊎◌, inl, inr, arith,
}
use dahlia.Domain.{ScheduledJob}
use dahlia.Runtime.{Env, Trace, World, Exit, returned, pure}
use dahlia.Runtime.Steps.{bind-returned}
use dahlia.Repository.Jobs
use dahlia.Scheduler.{process_job, process_jobs}
use dahlia.Scheduler.Delivery.{IsHandled, process_job_lem}
use dahlia.Scheduler.Passes.{IsPass, ended, next}
use dahlia.Scheduler.Sending.{removals}
use dahlia.Scheduler.Lists.{lists}
use dahlia.Scheduler.Lists.Kept.{count, process_job-Keeps}

-- The job has been taken out of the TEMP list: SQS had accepted its message, or it could not be read.
abbrev pub Out :
    (env : Env) (job_id temp_key : Text) (found : Exit ScheduledJob) (before after : Trace)
    → IsHandled env job_id temp_key found before after
    → Type 0
Out env job_id temp_key found before after (inl (job, h, inl left)) = ⊥
Out env job_id temp_key found before after (inl (job, h, inr sent)) = Unit
Out env job_id temp_key found before after (inr unreadable) = Unit

module _ {S : Type 0} (env : Env) (temp_key : Text) where
  -- the job is one that the pass has taken out
  abbrev pub Taken :
      (job_ids : List Text) (w w' : World S) → IsPass env temp_key job_ids w w' → Text → Type 0
  Taken [] w w' ended job_id = ⊥
  Taken (id ∷ job_ids) w w' (next {w₁} h pass) job_id =
      ((id ≡ job_id) × Out env id temp_key (Jobs.get_by_id id env w).0 w.trace w₁.trace h)
      ⊎ Taken job_ids w₁ w' pass job_id

counted :
    (temp_key id job_id : Text) (before after : List (Text × Text))
    → after ≡ (temp_key, id) ∷ before
    → count temp_key job_id before < count temp_key job_id after
    → id ≡ job_id
unfolding count
counted temp_key id job_id before after h more = elim (Bool-cases (text_eq id job_id)) [
  | inl same ↦ (text_eq_iff id job_id).0 same
  | inr other ↦ absurd (ground (arith, text_eq_refl temp_key))
]

count-Out :
    (env : Env) (temp_key id job_id : Text) (found : Exit ScheduledJob) (before after : Trace)
    (h : IsHandled env id temp_key found before after)
    → count temp_key job_id (removals before) < count temp_key job_id (removals after)
    → (id ≡ job_id) × Out env id temp_key found before after h
count-Out env temp_key id job_id found before after (inl (job, f, inl (left, quiet, why))) more =
    absurd (ground arith)
count-Out env temp_key id job_id found before after (inl (job, f, inr (message, m, left, sent)))
      more =
    (counted temp_key id job_id _ _ left more, tt)
count-Out env temp_key id job_id found before after (inr (e, f, left, quiet)) more =
    (counted temp_key id job_id _ _ left more, tt)

module _ {S : Type 0} (initial : Text → List Text) (ran : Trace → Bool) (unpacks : ℕ → Bool)
    (env : Env) (temp_key : Text) where
  abbrev pub Waits : Text → World S → Type 0
  Waits job_id w = Memᴰ job_id (lists initial ran unpacks w.trace temp_key)

  process_job-Waits :
      (id job_id : Text) (w : World S)
      (h : IsHandled env id temp_key
        (Jobs.get_by_id id env w).0
        w.trace
        (process_job id temp_key env w).1.trace)
      → Waits job_id w
      → Waits job_id (process_job id temp_key env w).1
        ⊎ ((id ≡ job_id)
            × Out env id temp_key
                (Jobs.get_by_id id env w).0
                w.trace
                (process_job id temp_key env w).1.trace
                h)
  process_job-Waits id job_id w h m =
      kept_or_out
        ((process_job-Keeps initial ran unpacks temp_key job_id
            (count temp_key job_id (removals w.trace)) id).at
          env w (omega arith, inl m)).1
    where
      kept_or_out :
          Waits job_id (process_job id temp_key env w).1
            ⊎ (count temp_key job_id (removals w.trace)
                < count temp_key job_id (removals (process_job id temp_key env w).1.trace))
          → Waits job_id (process_job id temp_key env w).1
            ⊎ ((id ≡ job_id)
                × Out env id temp_key
                    (Jobs.get_by_id id env w).0
                    w.trace
                    (process_job id temp_key env w).1.trace
                    h)
      kept_or_out (inl m) = inl m
      kept_or_out (inr more) = inr (
          count-Out env temp_key id job_id (Jobs.get_by_id id env w).0 w.trace
            (process_job id temp_key env w).1.trace h more)

  -- a pass over a list, in which each waiting job goes on waiting or is taken out
  abbrev pub Passes : List Text → World S → Exit (Unit {0}) × World S → Type 0
  Passes job_ids w (r, w') =
      (r ≡ returned tt)
      × (pass : IsPass env temp_key job_ids w w') × ((job_id : Text)
          → Waits job_id w
          → Waits job_id w' ⊎ Taken env temp_key job_ids w w' pass job_id)

  pub process_jobs-Passes :
      (job_ids : List Text) (w : World S) → Passes job_ids w (process_jobs job_ids temp_key env w)
  unfolding process_jobs pure
  process_jobs-Passes [] w = (refl, ended, λ job_id m. inl m)
  process_jobs-Passes (id ∷ job_ids) w =
      let w₁ = (process_job id temp_key env w).1 in
      let (exit, handled) = process_job_lem id temp_key env w in
      let (exits, pass, keeps) = process_jobs-Passes job_ids w₁ in
      subst (Passes (id ∷ job_ids) w)
        (sym (
          bind-returned (process_job id temp_key) (λ _. process_jobs job_ids temp_key) env w w₁ tt
            (ap (λ r. (r, w₁)) exit)))
        (
          exits,
          next handled pass,
          λ job_id m. elim (process_job-Waits id job_id w handled m) [
            | inr out ↦ inr (inl out)
            | inl m₁ ↦ elim (keeps job_id m₁) [ inl m' ↦ inl m' | inr taken ↦ inr (inr taken) ]
          ],
        )
