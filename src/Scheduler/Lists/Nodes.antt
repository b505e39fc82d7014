-- ===== src/Scheduler/Lists/Nodes.antt =====
-- The lists of schedulers with different node ids, as internal/config/ingestion_providers.go and
-- internal/config/scheduler_providers.go give them to the two processes.
use dahlia.Common.{
  ℕ, Bool, false, List, ◌++◌, Text, codes, length, text_eq, ◌≡◌, ◌≢◌, refl, sym, ◌∙◌, ◌⊎◌, inl, inr,
}
use dahlia.Runtime.{Env, World, Trace}
use dahlia.Scheduler.{
  get_bucket_key, get_temp_key, process_current_minute_bucket, process_late_arrivals,
  cleanup_missed_jobs,
}
use dahlia.Scheduler.Lists.{lists}
use dahlia.Scheduler.Lists.Keys.{
  right_cancel, prefix, key_split, bucket_key, temp_key, text_eq-false,
}
use dahlia.Scheduler.Lists.Apart.{current-Same, late-Same, missed-Same}

-- the two node ids, as the providers of the processes have them
unfoldable pub provide_scheduler : Env → Env
provide_scheduler env = record env { node_id = codes "NODE1" }

unfoldable pub provide_ingestion_scheduler : Env → Env
provide_ingestion_scheduler env = record env { node_id = codes "INGESTION-NODE-1" }

-- one of the lists of a scheduler
abbrev pub IsListOf : Env → Text → Type 0
IsListOf env key = (t : ℕ) × ((key ≡ get_bucket_key env t) ⊎ (key ≡ get_temp_key env t))

module _ (env other : Env)
    (width : (t u : ℕ) → length (env.minute_stamp t) ≡ length (other.minute_stamp u))
    (differ : env.node_id ≢ other.node_id) (not_temp : env.node_id ++ codes "_TEMP" ≢ other.node_id)
    (no_temp : env.node_id ≢ other.node_id ++ codes "_TEMP") where
  nodes_same :
      (t u : ℕ) (k l node node' : Text)
      → k ≡ prefix (env.minute_stamp t) ++ node
      → l ≡ prefix (other.minute_stamp u) ++ node'
      → k ≡ l
      → node ≡ node'
  nodes_same t u k l node node' hk hl e = (key_split _ _ node node' (width t u) (sym hk ∙ e ∙ hl)).1

  bucket_apart :
      (t : ℕ) (key : Text) → IsListOf other key → text_eq (get_bucket_key env t) key ≡ false
  bucket_apart t key (u, inl e) =
      text_eq-false _ _
        λ same. differ (nodes_same t u _ _ _ _ (bucket_key env t) (bucket_key other u) (same ∙ e))
  bucket_apart t key (u, inr e) =
      text_eq-false _ _
        λ same. no_temp (nodes_same t u _ _ _ _ (bucket_key env t) (temp_key other u) (same ∙ e))

  temp_apart : (t : ℕ) (key : Text) → IsListOf other key → text_eq (get_temp_key env t) key ≡ false
  temp_apart t key (u, inl e) =
      text_eq-false _ _
        λ same. not_temp (nodes_same t u _ _ _ _ (temp_key env t) (bucket_key other u) (same ∙ e))
  temp_apart t key (u, inr e) = text_eq-false _ _ λ same. differ (
      right_cancel _ _ (codes "_TEMP")
        (nodes_same t u _ _ _ _ (temp_key env t) (temp_key other u) (same ∙ e)))

-- If the texts of all minutes are as long as each other, and neither node id is the other one nor the
-- other one followed by _TEMP, then the passes of a scheduler over the current minute, the minute
-- before it and the one of five minutes ago leave each list of the scheduler with the other node id
-- as it is.
pub passes-others :
    {S : Type 0} (initial : Text → List Text) (ran : Trace → Bool) (unpacks : ℕ → Bool)
    (env other : Env) (key : Text) (w : World S)
    → ((t u : ℕ) → length (env.minute_stamp t) ≡ length (other.minute_stamp u))
    → env.node_id ≢ other.node_id
    → env.node_id ++ codes "_TEMP" ≢ other.node_id
    → env.node_id ≢ other.node_id ++ codes "_TEMP"
    → IsListOf other key
    → (lists initial ran unpacks (process_current_minute_bucket env w).1.trace key
        ≡ lists initial ran unpacks w.trace key)
      × (lists initial ran unpacks (process_late_arrivals env w).1.trace key
          ≡ lists initial ran unpacks w.trace key)
      × (lists initial ran unpacks (cleanup_missed_jobs env w).1.trace key
          ≡ lists initial ran unpacks w.trace key)
passes-others initial ran unpacks env other key w width differ not_temp no_temp listed =
    let buckets = λ (t : ℕ). bucket_apart env other width differ not_temp no_temp t key listed in
    let temps = λ (t : ℕ). temp_apart env other width differ not_temp no_temp t key listed in
    (
      (current-Same initial ran unpacks key _ _ env buckets temps w (refl, refl)).0,
      (late-Same initial ran unpacks key _ _ env buckets temps w (refl, refl)).0,
      (missed-Same initial ran unpacks key _ _ env buckets temps w (refl, refl)).0,
    )
