-- ===== src/Scheduler/Lists/Temps.antt =====
-- The cleanup of a TEMP list loses no job.
use mathlib.Core.Path.{subst}
use mathlib.Core.List.{Memᴰ}
use dahlia.Common.{
  ℕ, Bool, false, Bool-cases, List, [], ◌∷◌, Text, text_eq, ◌==◌, ◌≡◌, refl, sym, ◌⊎◌, inl, inr,
}
use dahlia.Errors.{ok, err, Result}
use dahlia.Runtime.{Env, Trace, World, Exit, measured, ranged, ◌>>=◌}
use dahlia.Cache.{llen, lrange}
use dahlia.Scheduler.{process_jobs, process_temp, missed_jobs}
use dahlia.Scheduler.Passes.{IsPass}
use dahlia.Scheduler.Lists.{lists}
use dahlia.Scheduler.Lists.Apart.{process_jobs-Same}
use dahlia.Scheduler.Lists.Pending.{Taken, process_jobs-Passes}
use dahlia.Scheduler.Lists.Buckets.{IsPending}

-- the traces of a cleanup before and when the handling of its jobs begins
abbrev pub BeginsTemp : Text → Trace → Trace → Type 0
BeginsTemp temp_key t t₁ =
    (t₁ ≡ measured temp_key ∷ t) ⊎ (t₁ ≡ ranged temp_key ∷ measured temp_key ∷ t)

module _ (initial : Text → List Text) (ran : Trace → Bool) (unpacks : ℕ → Bool)
    (bucket_key temp_key job_id : Text) where
  at_start :
      (t t₁ : Trace)
      → BeginsTemp temp_key t t₁
      → IsPending initial ran unpacks bucket_key temp_key job_id t
      → IsPending initial ran unpacks bucket_key temp_key job_id t₁
  unfolding lists
  at_start t t₁ (inl e) m =
      subst (IsPending initial ran unpacks bucket_key temp_key job_id) (sym e) m
  at_start t t₁ (inr e) m =
      subst (IsPending initial ran unpacks bucket_key temp_key job_id) (sym e) m

module _ {S : Type 0} (initial : Text → List Text) (ran : Trace → Bool) (unpacks : ℕ → Bool)
    (env : Env) (bucket_key temp_key : Text) (apart : text_eq temp_key bucket_key ≡ false) where
  abbrev pub KeepsPending : World S → Exit (Unit {0}) × World S → Type 0
  KeepsPending w (r, w') =
      (job_ids : List Text) × (w₁ : World S) × BeginsTemp temp_key w.trace w₁.trace
      × (pass : IsPass env temp_key job_ids w₁ w') × ((job_id : Text)
          → IsPending initial ran unpacks bucket_key temp_key job_id w.trace
          → IsPending initial ran unpacks bucket_key temp_key job_id w'.trace
            ⊎ Taken env temp_key job_ids w₁ w' pass job_id)

  handled :
      (job_ids : List Text) (w w₁ : World S)
      → BeginsTemp temp_key w.trace w₁.trace
      → KeepsPending w (process_jobs job_ids temp_key env w₁)
  handled job_ids w w₁ begins =
      let (exit, pass, keeps) = process_jobs-Passes initial ran unpacks env temp_key job_ids w₁ in
      (
        job_ids,
        w₁,
        begins,
        pass,
        λ job_id m.
            elim (at_start initial ran unpacks bucket_key temp_key job_id w.trace w₁.trace begins
              m) [
                | inl waits ↦ inl (
                    inl (
                      subst (Memᴰ job_id)
                        (sym (
                          ((process_jobs-Same initial ran unpacks bucket_key _ _ temp_key apart
                              job_ids).at
                            env w₁ (refl, refl)).0))
                        waits))
                | inr moved ↦ elim (keeps job_id moved) [
                  | inl m' ↦ inl (inr m')
                  | inr taken ↦ inr taken
                ]
              ],
      )

  cleanup-KeepsPending :
      (length : Result ℕ) (listed : Result (List Text)) (w : World S)
      → env.llen w.trace temp_key ≡ length
      → env.lrange (measured temp_key ∷ w.trace) temp_key ≡ listed
      → KeepsPending w (process_temp temp_key env w)
  unfolding process_temp missed_jobs llen lrange ◌>>=◌
  cleanup-KeepsPending (err e) listed w h k = rw h (handled [] w _ (inl refl))
  cleanup-KeepsPending (ok n) (err e) w h k = elim (Bool-cases (n == 0)) [
    | inl z ↦ rw (h, z) (handled [] w _ (inl refl))
    | inr z ↦ rw (h, z, k) (handled [] w _ (inr refl))
  ]
  cleanup-KeepsPending (ok n) (ok ids) w h k = elim (Bool-cases (n == 0)) [
    | inl z ↦ rw (h, z) (handled [] w _ (inl refl))
    | inr z ↦ rw (h, z, k) (handled ids w _ (inr refl))
  ]

  pub process_temp-KeepsPending : (w : World S) → KeepsPending w (process_temp temp_key env w)
  process_temp-KeepsPending w = cleanup-KeepsPending _ _ w refl refl
