-- ===== src/Scheduler/History/Kept.antt =====
-- A scheduled job stays in the lists of its minute until a pass takes it out, or its script fails.
use mathlib.Core.Path.{subst}
use mathlib.Core.List.{Memᴰ}
use dahlia.Common.{ℕ, Bool, List, ◌∷◌, Text, length, ◌≡◌, refl, sym, ◌⊎◌, inl, inr}
use dahlia.Runtime.{Env, Trace, World, read_clock}
use dahlia.Scheduler.{get_bucket_key, get_temp_key, process_bucket, process_temp}
use dahlia.Scheduler.Passes.{IsPass}
use dahlia.Scheduler.Lists.{IsRedis}
use dahlia.Scheduler.Lists.Keys.{AreApart, temp_not_bucket, same_or_apart}
use dahlia.Scheduler.Lists.Apart.{process_bucket-Same, process_temp-Same}
use dahlia.Scheduler.Lists.Pending.{Taken}
use dahlia.Scheduler.Lists.Buckets.{Begins, IsDropped, IsPending, process_bucket_lem}
use dahlia.Scheduler.Lists.Temps.{BeginsTemp, process_temp-KeepsPending}
use dahlia.Scheduler.History.{History, here, pass, schedule}

module _ {S : Type 0} (initial : Text → List Text) (ran : Trace → Bool) (unpacks : ℕ → Bool)
    (env : Env) (bucket_key temp_key job_id : Text) where
  -- the pass that ends in this world has taken the job out, or its script has failed on the list
  abbrev pub IsTakenOrDropped : Trace → World S → Type 0
  IsTakenOrDropped t w' =
      ((job_ids : List Text) × (w₁ : World S) × (Begins bucket_key temp_key t w₁.trace
          ⊎ BeginsTemp temp_key t w₁.trace)
        × (p : IsPass env temp_key job_ids w₁ w') × Taken env temp_key job_ids w₁ w' p job_id)
      ⊎ IsDropped initial ran unpacks bucket_key temp_key t w'.trace

  -- a pass of the history has
  abbrev pub WasTakenOrDropped : (w w' : World S) → History env w w' → Type 0
  WasTakenOrDropped w w' here = ⊥
  WasTakenOrDropped w w' (pass {w₁} h p) =
      WasTakenOrDropped w w₁ h ⊎ IsTakenOrDropped (read_clock (env.now w₁.trace) ∷ w₁.trace) w'
  WasTakenOrDropped w w' (schedule {w₁} job h) = WasTakenOrDropped w w₁ h

-- the job is in one of the two lists of the minute of `t`
abbrev pub WaitsIn :
    (Text → List Text) → (Trace → Bool) → (ℕ → Bool) → Env → ℕ → Text → Trace → Type 0
WaitsIn initial ran unpacks env t job_id tr =
    IsPending initial ran unpacks (get_bucket_key env t) (get_temp_key env t) job_id tr

abbrev pub StillOrTaken :
    {S : Type 0}
    → (Text → List Text)
    → (Trace → Bool)
    → (ℕ → Bool)
    → Env
    → ℕ
    → Text
    → Trace
    → World S
    → Type 0
StillOrTaken initial ran unpacks env t job_id before w' =
    WaitsIn initial ran unpacks env t job_id w'.trace
    ⊎ IsTakenOrDropped initial ran unpacks env (get_bucket_key env t) (get_temp_key env t) job_id
        before w'

module _ {S : Type 0} (initial : Text → List Text) (ran : Trace → Bool) (unpacks : ℕ → Bool)
    (env : Env) (redis : IsRedis initial ran unpacks env)
    (width : (t u : ℕ) → length (env.minute_stamp t) ≡ length (env.minute_stamp u)) (t : ℕ)
    (job_id : Text) where
  pub bucket_pass :
      (u : ℕ) (w : World S)
      → WaitsIn initial ran unpacks env t job_id w.trace
      → StillOrTaken initial ran unpacks env t job_id w.trace
          (process_bucket (get_bucket_key env u) (get_temp_key env u) env w).1
  bucket_pass u w m = elim (same_or_apart env width u t) [
    | inl (b, k) ↦
        subst
          (λ key.
            StillOrTaken initial ran unpacks env t job_id w.trace
              (process_bucket key (get_temp_key env u) env w).1)
          (sym b)
          (subst
            (λ key.
              StillOrTaken initial ran unpacks env t job_id w.trace
                (process_bucket (get_bucket_key env t) key env w).1)
            (sym k) own)
    | inr apart ↦ inl (others apart m)
  ]
    where
      own :
          StillOrTaken initial ran unpacks env t job_id w.trace
            (process_bucket (get_bucket_key env t) (get_temp_key env t) env w).1
      own =
          let (exit, job_ids, which, w₁, begins, p, kept) =
            process_bucket_lem initial ran unpacks env (get_bucket_key env t) (get_temp_key env t)
              job_id w redis m in
          elim kept [
            | inl m' ↦ inl m'
            | inr (inl taken) ↦ inr (inl (job_ids, w₁, inl begins, p, taken))
            | inr (inr lost) ↦ inr (inr lost)
          ]

      others :
          AreApart
            (get_bucket_key env u)
            (get_temp_key env u)
            (get_bucket_key env t)
            (get_temp_key env t)
          → WaitsIn initial ran unpacks env t job_id w.trace
          → WaitsIn initial ran unpacks env t job_id
              (process_bucket (get_bucket_key env u) (get_temp_key env u) env w).1.trace
      others (bb, bt, tb, tt') (inl waits) = inl (
          subst (Memᴰ job_id)
            (sym
              (((process_bucket-Same initial ran unpacks _ _ _ _ tb _ bb).at env w (refl, refl)).0))
            waits)
      others (bb, bt, tb, tt') (inr moved) = inr (
          subst (Memᴰ job_id)
            (sym (
              ((process_bucket-Same initial ran unpacks _ _ _ _ tt' _ bt).at env w (refl, refl)).0))
            moved)

  pub temp_pass :
      (u : ℕ) (w : World S)
      → WaitsIn initial ran unpacks env t job_id w.trace
      → StillOrTaken initial ran unpacks env t job_id w.trace
          (process_temp (get_temp_key env u) env w).1
  temp_pass u w m = elim (same_or_apart env width u t) [
    | inl (b, k) ↦
        subst
          (λ key. StillOrTaken initial ran unpacks env t job_id w.trace (process_temp key env w).1)
          (sym k) own
    | inr apart ↦ inl (others apart m)
  ]
    where
      own :
          StillOrTaken initial ran unpacks env t job_id w.trace
            (process_temp (get_temp_key env t) env w).1
      own =
          let (job_ids, w₁, begins, p, kept) =
            process_temp-KeepsPending initial ran unpacks env (get_bucket_key env t)
              (get_temp_key env t) (temp_not_bucket env width t t) w in
          elim (kept job_id m) [
            | inl m' ↦ inl m'
            | inr taken ↦ inr (inl (job_ids, w₁, inr begins, p, taken))
          ]

      others :
          AreApart
            (get_bucket_key env u)
            (get_temp_key env u)
            (get_bucket_key env t)
            (get_temp_key env t)
          → WaitsIn initial ran unpacks env t job_id w.trace
          → WaitsIn initial ran unpacks env t job_id
              (process_temp (get_temp_key env u) env w).1.trace
      others (bb, bt, tb, tt') (inl waits) = inl (
          subst (Memᴰ job_id)
            (sym (((process_temp-Same initial ran unpacks _ _ _ _ tb).at env w (refl, refl)).0))
            waits)
      others (bb, bt, tb, tt') (inr moved) = inr (
          subst (Memᴰ job_id)
            (sym (((process_temp-Same initial ran unpacks _ _ _ _ tt').at env w (refl, refl)).0))
            moved)
