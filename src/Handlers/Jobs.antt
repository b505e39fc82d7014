-- ===== src/Handlers/Jobs.antt =====
-- internal/handler/scheduler_handler.go and health_handler.go, with their requests and responses.
pub mod Scheduled
use dahlia.Common.{ℕ, Option, none, [], Text, codes}
use dahlia.Domain.{Fields, ScheduledJob}
use dahlia.ErrorCollection.{ErrorCollection, code_internal_server_error}
use dahlia.Runtime.{Exit, returned, errored, panicked, Go, pure, panic, with_object, ◌>>=◌}
use dahlia.Jobs.{new_scheduled_job, job_status_text}
use dahlia.Scheduler.{schedule_job}
use dahlia.Requests.{RequestIo}
use dahlia.Handlers.Limits.{refuse}

-- ExecuteAt in milliseconds
pub record ScheduleJobRequest : Type 0 where
  pub job_type : Text
  pub payload : Fields
  pub queue_name : Text
  pub execute_at : ℕ

pub record ScheduleJobResponse : Type 0 where
  pub job_id : Text
  pub job_type : Text
  pub execute_at : ℕ
  pub status : Text

abbrev pub no_job : ScheduleJobResponse
no_job = record { job_id = []; job_type = []; execute_at = 0; status = [] }

module _ {S : Type 0} where
  schedule_answer :
      Exit (Unit {0}) × ScheduledJob → Go S (ScheduleJobResponse × Option ErrorCollection)
  schedule_answer (returned _, job) = pure (
    record {
      job_id = job.job_id;
      job_type = job.job_name;
      execute_at = job.execute_at;
      status = job_status_text job.status;
    },
    none,
  )
  schedule_answer (errored e, job) =
      pure (refuse no_job code_internal_server_error "Failed to schedule job")
  schedule_answer (panicked, job) = panic

  unfoldable pub schedule_service :
      RequestIo ScheduleJobRequest → Go S (ScheduleJobResponse × Option ErrorCollection)
  unfolding schedule_answer
  schedule_service ioutil = do
    let req = ioutil.body
    job ← new_scheduled_job req.job_type req.queue_name req.execute_at req.payload
    outcome ← with_object job schedule_job
    schedule_answer outcome

pub record HealthCheckResponse : Type 0 where
  pub status : Text
  pub service : Text

unfoldable pub health_service :
    {S : Type 0} → Text → RequestIo (Unit {0}) → Go S (HealthCheckResponse × Option ErrorCollection)
health_service service_name ioutil =
    pure (record { status = codes "healthy"; service = service_name }, none)
