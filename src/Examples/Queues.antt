-- ===== src/Examples/Queues.antt =====
-- The queue, the lists of Redis and the cache of workflows.
use dahlia.Common.{
  Bool, true, false, none, some, List, [], ◌∷◌, Text, codes, ◌≡◌, ◌≢◌, refl, ◌⊎◌, inl, pos, text_eq,
  length, if◌then◌else◌, arith, lookup,
}
use mathlib.Core.List.{Memᴰ}
use dahlia.Errors.{errorf, ok}
use dahlia.Domain.{Workflow}
use dahlia.Runtime.{Env, World, QueueMessage, returned, errored, panicked, Go, pure, ◌>>◌}
use dahlia.Runtime.Returns.{Returns-pure}
use dahlia.Queue.{QueueConfig, Consumer, start_consumer, stop_consumer, process_batch}
use dahlia.Queue.Handled.{IsBatch, process_batch_lem}
use dahlia.Queue.Restarts.{start_stop_lem}
use dahlia.Coordinator.{Coordinator}
use dahlia.Scheduler.{process_bucket}
use dahlia.Scheduler.Passes.{IsPass}
use dahlia.Scheduler.Lists.{lists, IsRedis}
use dahlia.Scheduler.Lists.Pending.{Taken}
use dahlia.Scheduler.Lists.Buckets.{Begins, IsDropped, IsPending, process_bucket_lem}
use dahlia.WorkflowManager.{
  cached_workflows, refresh_cache, get_workflow, get_workflows_by_signal_type,
}
use dahlia.WorkflowManager.Index.{IsCoherent}
use dahlia.WorkflowManager.Index.Kept.{IsCoherent_lem, get_workflows_by_signal_type_lem}
use dahlia.Examples.Setting.{takes, moved, moved-ok, workflow, accepting, start}
use dahlia.Examples.Coordinators.{fresh}

abbrev config : QueueConfig
config = record {
  queue_url = codes "q";
  worker_count = pos 1;
  max_messages = pos 10;
  wait_time_seconds = pos 20;
}

abbrev message : QueueMessage
message = record {
  message_id = some (codes "m");
  receipt_handle = some (codes "h");
  body = some (codes "{}");
}

abbrev accept_text : Text → Go Coordinator Bool
accept_text s = pure true

has_body : message.body ≢ none
has_body h = ground arith

process_batch_lem_example :
    let (r, w') = process_batch config ok accept_text (message ∷ []) accepting (start fresh) in
    (r ≡ returned tt) × IsBatch config ok accept_text accepting (message ∷ []) (start fresh) w'
process_batch_lem_example =
    process_batch_lem config ok accept_text accepting (message ∷ []) (start fresh) (has_body, tt)
      (λ s. Returns-pure true)

abbrev consumer : World Consumer
consumer = start (record { running = false; workers = pos 0; stopped = false })

start_stop_lem_example :
    (((start_consumer config >> start_consumer config) accepting consumer).0
      ≡ errored (errorf "consumer already running" []))
    × (((start_consumer config >> stop_consumer) accepting consumer).0 ≡ returned tt)
    × (((start_consumer config >> stop_consumer >> start_consumer config) accepting consumer).0
        ≡ returned tt)
    × (((start_consumer config >> stop_consumer >> start_consumer config >> stop_consumer) accepting
          consumer).0
        ≡ panicked)
start_stop_lem_example = start_stop_lem config accepting consumer refl refl

-- one job waits in the list `B`, and Redis carries out every call
abbrev waiting : Text → List Text
waiting key = if text_eq key (codes "B") then codes "j" ∷ [] else []

abbrev redis : Env
redis = record accepting {
  llen = λ t key. ok (length (lists waiting (λ _. true) takes t key));
  transfer = λ t bucket temp. moved (lists waiting (λ _. true) takes t bucket);
  lrange = λ t key. ok (lists waiting (λ _. true) takes t key);
}

redis-IsRedis : IsRedis waiting (λ _. true) takes redis
redis-IsRedis = record {
  rpush_ran = λ t key value h. refl;
  transfer_ran =
      λ t bucket temp values h. let (fits, same) = moved-ok _ values h in (refl, fits, same);
  lrange_reads = λ t key values h. ground arith;
  llen_reads = λ t key n h. ground arith;
}

process_bucket_lem_example :
    let (r, w') = process_bucket (codes "B") (codes "T") redis (start fresh) in
    (r ≡ returned tt)
    × (job_ids : List Text) × ((job_ids ≡ [])
        ⊎ (job_ids ≡ lists waiting (λ _. true) takes [] (codes "B")))
    × (w₁ : World Coordinator) × Begins (codes "B") (codes "T") [] w₁.trace
    × (pass : IsPass redis (codes "T") job_ids w₁ w') × (IsPending waiting
          (λ _. true)
          takes
          (codes "B")
          (codes "T")
          (codes "j")
          w'.trace
        ⊎ Taken redis (codes "T") job_ids w₁ w' pass (codes "j")
        ⊎ IsDropped waiting (λ _. true) takes (codes "B") (codes "T") [] w'.trace)
unfolding text_eq
process_bucket_lem_example =
    process_bucket_lem waiting (λ _. true) takes redis (codes "B") (codes "T") (codes "j")
      (start fresh) redis-IsRedis (inl (unfold lists in Memᴰ.head refl))

abbrev one_cached : World Coordinator
one_cached = record (start fresh) {
  cache = record {
    workflow_cache = (codes "w:1", workflow (codes "w") (pos 1)) ∷ [];
    signal_type_index = (codes "order", codes "w:1" ∷ []) ∷ [];
  };
}

one_cached-IsCoherent : IsCoherent one_cached.cache
unfolding lookup text_eq
one_cached-IsCoherent = (((workflow (codes "w") (pos 1), refl), tt), tt)

IsCoherent_lem_example :
    IsCoherent (refresh_cache accepting one_cached).1.cache
    × IsCoherent (get_workflow (codes "v") (pos 1) accepting one_cached).1.cache
    × IsCoherent (get_workflows_by_signal_type (codes "payment") accepting one_cached).1.cache
IsCoherent_lem_example =
    IsCoherent_lem (codes "payment") (codes "v") (pos 1) accepting one_cached one_cached-IsCoherent

get_workflows_by_signal_type_lem_example :
    (found : List Workflow) × (cached_workflows one_cached.cache (codes "w:1" ∷ []) ≡ some found)
    × (get_workflows_by_signal_type (codes "order") accepting one_cached
        ≡ (returned found, one_cached))
unfolding lookup text_eq
get_workflows_by_signal_type_lem_example =
    get_workflows_by_signal_type_lem (codes "order") (codes "w:1" ∷ []) accepting one_cached
      one_cached-IsCoherent refl
