-- ===== src/Repository/Jobs.antt =====
-- internal/repository/dynamodb/job_repo.go
use dahlia.Common.{ℕ, none, some, Option, List, [], ◌∷◌, Text}
use dahlia.Errors.{errorf}
use dahlia.Domain.{ScheduledJob, JobStatus}
use dahlia.Runtime.{
  scheduled_jobs, Item, of_job, always, by_id, by_job_status, Go, pure, raise, ask, lift, wrapping,
  ◌>>=◌, ◌>>◌,
}
use dahlia.Repository.Calls.{marshal_map, put_item, get_item, query, int32, unmarshal_all}

module _ {S : Type 0} where
  unfoldable pub create : ScheduledJob → Go S (Unit {0})
  unfolding marshal_map put_item
  create job = do
    marshal_map "failed to marshal job" (of_job job)
    wrapping "failed to create job" (put_item scheduled_jobs (of_job job) always)

  unfoldable pub update : ScheduledJob → Go S (Unit {0})
  unfolding marshal_map put_item
  update job = do
    marshal_map "failed to marshal job" (of_job job)
    wrapping "failed to update job" (put_item scheduled_jobs (of_job job) always)

  found_job : Text → Option Item → Go S ScheduledJob
  found_job job_id none = raise (errorf "job not found: %s" (job_id ∷ []))
  found_job job_id (some item) =
      wrapping "failed to unmarshal job" (ask (λ env. lift (env.unmarshal_job item)))

  unfoldable pub get_by_id : Text → Go S ScheduledJob
  unfolding get_item found_job
  get_by_id job_id = do
    found ← wrapping "failed to get job" (get_item scheduled_jobs (by_id job_id))
    found_job job_id found

  unfoldable pub get_by_status : JobStatus → ℕ → Go S (List ScheduledJob)
  unfolding query unmarshal_all
  get_by_status status limit = do
    page ←
        wrapping "failed to query jobs"
          (query scheduled_jobs (by_job_status status) (some (int32 limit)) none)
    ask (λ env. pure (unmarshal_all env.unmarshal_job page.items))
