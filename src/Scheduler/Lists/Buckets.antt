-- ===== src/Scheduler/Lists/Buckets.antt =====
-- What a pass over the lists of a minute loses: nothing, unless the list is too long for the script.
use mathlib.Core.Path.{subst}
use mathlib.Core.List.{Memᴰ}
use dahlia.Common.{
  ℕ, Bool, true, false, Bool-cases, Option, some, List, [], ◌∷◌, map, Text, text_eq, text_eq_iff,
  text_eq_refl, length, ◌==◌, ◌≡◌, refl, sym, ap, ◌∙◌, ◌⊎◌, inl, inr,
}
use dahlia.Errors.{Error, ok, err, Result}
use dahlia.Domain.{Value, string}
use dahlia.Runtime.{Env, Trace, World, Exit, returned, measured, transferred, ◌>>=◌}
use dahlia.Scheduler.{process_jobs, process_bucket, take_jobs, extract_job_ids, strings}
use dahlia.Cache.{llen, transfer}
use dahlia.Scheduler.Passes.{IsPass, ended}
use dahlia.Scheduler.Lists.{atomic_transfer, lists, IsRedis}
use dahlia.Scheduler.Lists.Kept.{Memᴰ-append, Memᴰ-append_right}
use dahlia.Scheduler.Lists.Pending.{Taken, process_jobs-Passes}

pub strings-map : (ids : List Text) → extract_job_ids (some (map string ids)) ≡ ids
unfolding extract_job_ids strings
strings-map [] = refl
strings-map (id ∷ ids) = ap (λ rest. id ∷ rest) (strings-map ids)

module _ (initial : Text → List Text) (ran : Trace → Bool) (unpacks : ℕ → Bool) where
  -- in one of the two lists of a minute
  abbrev pub IsPending : Text → Text → Text → Trace → Type 0
  IsPending bucket_key temp_key job_id t =
      Memᴰ job_id (lists initial ran unpacks t bucket_key)
      ⊎ Memᴰ job_id (lists initial ran unpacks t temp_key)

  -- a list that unpack takes
  abbrev pub Fits : Text → Trace → Bool → Type 0
  Fits bucket_key t fits = unpacks (length (lists initial ran unpacks t bucket_key)) ≡ fits

  -- The script has failed on a list that is too long, after it has deleted the list.
  abbrev pub IsDropped : Text → Text → Trace → Trace → Type 0
  IsDropped bucket_key temp_key t t' =
      Fits bucket_key t false
      × (t' ≡ transferred bucket_key temp_key ∷ measured bucket_key ∷ t)
      × (lists initial ran unpacks t' bucket_key ≡ [])

  transferred-ran :
      (bucket_key temp_key job_id : Text) (t : Trace)
      → ran t ≡ true
      → Fits bucket_key t true
      → IsPending bucket_key temp_key job_id t
      → Memᴰ job_id (lists initial ran unpacks (transferred bucket_key temp_key ∷ t) temp_key)
  unfolding lists atomic_transfer
  transferred-ran bucket_key temp_key job_id t r fits (inl m) =
      rw (r, text_eq_refl temp_key, fits) (Memᴰ-append_right job_id _ _ m)
  transferred-ran bucket_key temp_key job_id t r fits (inr m) =
      elim (Bool-cases (text_eq bucket_key temp_key)) [
        | inl same ↦
            rw (r, text_eq_refl temp_key, fits, same)
              (subst (λ k. Memᴰ job_id (lists initial ran unpacks t k))
                (sym ((text_eq_iff bucket_key temp_key).0 same)) m)
        | inr differ ↦ rw (r, text_eq_refl temp_key, fits, differ) (Memᴰ-append job_id _ _ m)
      ]

  dropped :
      (bucket_key temp_key : Text) (t : Trace)
      → ran (measured bucket_key ∷ t) ≡ true
      → Fits bucket_key t false
      → IsDropped bucket_key temp_key t (transferred bucket_key temp_key ∷ measured bucket_key ∷ t)
  unfolding lists atomic_transfer
  dropped bucket_key temp_key t r long = (long, refl, rw (r, long, text_eq_refl bucket_key) refl)

  transferred-IsPending :
      (bucket_key temp_key job_id : Text) (t : Trace)
      → IsPending bucket_key temp_key job_id t
      → IsPending bucket_key temp_key job_id
          (transferred bucket_key temp_key ∷ measured bucket_key ∷ t)
        ⊎ IsDropped bucket_key temp_key t
            (transferred bucket_key temp_key ∷ measured bucket_key ∷ t)
  unfolding lists
  transferred-IsPending bucket_key temp_key job_id t m =
      elim (Bool-cases (ran (measured bucket_key ∷ t))) [
        | inr r ↦ inl (rw r m)
        | inl r ↦ elim (Bool-cases (unpacks (length (lists initial ran unpacks t bucket_key)))) [
          | inl fits ↦
              inl (
                inr (transferred-ran bucket_key temp_key job_id (measured bucket_key ∷ t) r fits m))
          | inr long ↦ inr (dropped bucket_key temp_key t r long)
        ]
      ]

-- the traces of a pass before and when the handling of its jobs begins
abbrev pub Begins : (bucket_key temp_key : Text) → Trace → Trace → Type 0
Begins bucket_key temp_key t t₁ =
    (t₁ ≡ measured bucket_key ∷ t)
    ⊎ (t₁ ≡ transferred bucket_key temp_key ∷ measured bucket_key ∷ t)

module _ {S : Type 0} (initial : Text → List Text) (ran : Trace → Bool) (unpacks : ℕ → Bool)
    (env : Env) (bucket_key temp_key : Text) where
  abbrev measured_world : World S → World S
  measured_world w = record w { trace = measured bucket_key ∷ w.trace }

  abbrev moved_world : World S → World S
  moved_world w = record w {
    trace = transferred bucket_key temp_key ∷ measured bucket_key ∷ w.trace;
  }

  -- a pass over no job, or over the jobs of the minute, in which no pending job is lost
  abbrev pub LosesNone : World S → Exit (Unit {0}) × World S → Type 0
  LosesNone w (r, w') =
      (r ≡ returned tt)
      × (job_ids : List Text) × ((job_ids ≡ [])
          ⊎ (job_ids ≡ lists initial ran unpacks w.trace bucket_key))
      × (w₁ : World S) × Begins bucket_key temp_key w.trace w₁.trace
      × (pass : IsPass env temp_key job_ids w₁ w') × ((job_id : Text)
          → IsPending initial ran unpacks bucket_key temp_key job_id w.trace
          → IsPending initial ran unpacks bucket_key temp_key job_id w'.trace
            ⊎ Taken env temp_key job_ids w₁ w' pass job_id
            ⊎ IsDropped initial ran unpacks bucket_key temp_key w.trace w'.trace)

  unmeasured-LosesNone :
      (e : Error) (w : World S)
      → env.llen w.trace bucket_key ≡ err e
      → LosesNone w (process_bucket bucket_key temp_key env w)
  unfolding process_bucket take_jobs llen process_jobs lists ◌>>=◌
  unmeasured-LosesNone e w h =
      rw h (refl, [], inl refl, measured_world w, inl refl, ended, λ job_id m. inl m)

  empty-LosesNone :
      (n : ℕ) (w : World S)
      → env.llen w.trace bucket_key ≡ ok n
      → (n == 0) ≡ true
      → LosesNone w (process_bucket bucket_key temp_key env w)
  unfolding process_bucket take_jobs llen process_jobs lists ◌>>=◌
  empty-LosesNone n w h z =
      rw (h, z) (refl, [], inl refl, measured_world w, inl refl, ended, λ job_id m. inl m)

  failed-LosesNone :
      (n : ℕ) (e : Error) (w : World S)
      → env.llen w.trace bucket_key ≡ ok n
      → (n == 0) ≡ false
      → env.transfer (measured bucket_key ∷ w.trace) bucket_key temp_key ≡ err e
      → LosesNone w (process_bucket bucket_key temp_key env w)
  unfolding process_bucket take_jobs llen transfer process_jobs ◌>>=◌
  failed-LosesNone n e w h z k =
      rw (h, z, k)
        (
          refl,
          [],
          inl refl,
          moved_world w,
          inr refl,
          ended,
          λ job_id m.
              elim (transferred-IsPending initial ran unpacks bucket_key temp_key job_id w.trace
                m) [ inl m' ↦ inl m' | inr lost ↦ inr (inr lost) ],
        )

  moved-LosesNone :
      (n : ℕ) (values : Option (List Value)) (w : World S)
      → IsRedis initial ran unpacks env
      → env.llen w.trace bucket_key ≡ ok n
      → (n == 0) ≡ false
      → env.transfer (measured bucket_key ∷ w.trace) bucket_key temp_key ≡ ok values
      → LosesNone w (process_bucket bucket_key temp_key env w)
  unfolding process_bucket take_jobs llen transfer ◌>>=◌
  moved-LosesNone n values w redis h z k =
      let (r, fits, listed) = redis.transfer_ran _ bucket_key temp_key values k in
      let (exit, pass, keeps) =
        process_jobs-Passes initial ran unpacks env temp_key (extract_job_ids values)
          (moved_world w) in
      rw (h, z, k)
        (
          exit,
          extract_job_ids values,
          inr (ap extract_job_ids listed ∙ strings-map _ ∙ (unfold lists in refl)),
          moved_world w,
          inr refl,
          pass,
          λ job_id m.
              elim (keeps job_id (
                transferred-ran initial ran unpacks bucket_key temp_key job_id
                  (measured bucket_key ∷ w.trace) r fits (unfold lists in m))) [
                    | inl m' ↦ inl (inr m')
                    | inr taken ↦ inr (inl taken)
                  ],
        )

  bucket-LosesNone :
      (length : Result ℕ) (values : Result (Option (List Value))) (w : World S)
      → IsRedis initial ran unpacks env
      → env.llen w.trace bucket_key ≡ length
      → env.transfer (measured bucket_key ∷ w.trace) bucket_key temp_key ≡ values
      → LosesNone w (process_bucket bucket_key temp_key env w)
  bucket-LosesNone (err e) values w redis h k = unmeasured-LosesNone e w h
  bucket-LosesNone (ok n) (err e) w redis h k = elim (Bool-cases (n == 0)) [
    | inl z ↦ empty-LosesNone n w h z
    | inr z ↦ failed-LosesNone n e w h z k
  ]
  bucket-LosesNone (ok n) (ok values) w redis h k = elim (Bool-cases (n == 0)) [
    | inl z ↦ empty-LosesNone n w h z
    | inr z ↦ moved-LosesNone n values w redis h z k
  ]

-- If Redis answers from its lists and carries out what it does not refuse, a pass over the lists
-- of a minute loses a job only if the list of the minute is too long for the script: after it has
-- measured the list, or moved it as well, it handles no job or all those that waited for the minute,
-- one after the other, and a job that was in one of the two lists is still in one of them, or the
-- pass has taken it out because SQS accepted its message or it could not be read, or the script has
-- deleted the list and failed to unpack it.
pub process_bucket_lem :
    {S : Type 0} (initial : Text → List Text) (ran : Trace → Bool) (unpacks : ℕ → Bool) (env : Env)
    (bucket_key temp_key job_id : Text) (w : World S)
    → IsRedis initial ran unpacks env
    → IsPending initial ran unpacks bucket_key temp_key job_id w.trace
    → let (r, w') = process_bucket bucket_key temp_key env w in
      (r ≡ returned tt)
      × (job_ids : List Text) × ((job_ids ≡ [])
          ⊎ (job_ids ≡ lists initial ran unpacks w.trace bucket_key))
      × (w₁ : World S) × Begins bucket_key temp_key w.trace w₁.trace
      × (pass : IsPass env temp_key job_ids w₁ w') × (IsPending initial ran unpacks bucket_key
            temp_key job_id w'.trace
          ⊎ Taken env temp_key job_ids w₁ w' pass job_id
          ⊎ IsDropped initial ran unpacks bucket_key temp_key w.trace w'.trace)
process_bucket_lem initial ran unpacks env bucket_key temp_key job_id w redis pending =
    let (exit, job_ids, which, w₁, begins, pass, keeps) =
      bucket-LosesNone initial ran unpacks env bucket_key temp_key _ _ w redis refl refl in
    (exit, job_ids, which, w₁, begins, pass, keeps job_id pending)
