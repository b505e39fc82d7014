-- ===== src/Examples/Nodes.antt =====
-- The two processes with their node ids: a pass of the scheduler and a job of the ingestion.
use dahlia.Common.{true, List, [], ◌∷◌, Text, codes, text_eq, if◌then◌else◌, ◌≡◌, refl, inl, arith}
use dahlia.Errors.{ok}
use dahlia.Runtime.{Env}
use dahlia.Scheduler.{
  get_bucket_key, process_current_minute_bucket, process_late_arrivals, cleanup_missed_jobs,
}
use dahlia.Scheduler.Lists.{lists}
use dahlia.Scheduler.Lists.Nodes.{provide_scheduler, provide_ingestion_scheduler, passes-others}
use dahlia.Examples.Setting.{accepting, start}
use dahlia.Examples.Coordinators.{fresh}

abbrev ingestion_key : Text
ingestion_key = codes "schedule:2024:01:01:00:01:INGESTION-NODE-1"

-- the ingestion process has one job waiting
abbrev waiting : Text → List Text
waiting key = if text_eq key ingestion_key then codes "j" ∷ [] else codes "i" ∷ []

abbrev redis : Env
redis = record accepting { llen = λ t key. ok 1; lrange = λ t key. ok (waiting key) }

passes-others_example :
    (lists waiting
        (λ _. true)
        (λ n. true)
        (process_current_minute_bucket (provide_scheduler redis) (start fresh)).1.trace
        ingestion_key
      ≡ lists waiting (λ _. true) (λ n. true) (start fresh).trace ingestion_key)
    × (lists waiting
          (λ _. true)
          (λ n. true)
          (process_late_arrivals (provide_scheduler redis) (start fresh)).1.trace
          ingestion_key
        ≡ lists waiting (λ _. true) (λ n. true) (start fresh).trace ingestion_key)
    × (lists waiting
          (λ _. true)
          (λ n. true)
          (cleanup_missed_jobs (provide_scheduler redis) (start fresh)).1.trace
          ingestion_key
        ≡ lists waiting (λ _. true) (λ n. true) (start fresh).trace ingestion_key)
unfolding get_bucket_key provide_scheduler provide_ingestion_scheduler
passes-others_example =
    passes-others waiting (λ _. true) (λ n. true) (provide_scheduler redis)
      (provide_ingestion_scheduler redis) ingestion_key (start fresh) (λ t u. refl)
      (λ e. ground arith) (λ e. ground arith) (λ e. ground arith) (0, inl refl)
