-- ===== src/Jobs.antt =====
-- internal/domain/scheduled_job.go: the constructor of a job, and the texts of its states.
use dahlia.Common.{ℕ, Text, codes}
use dahlia.Domain.{Fields, ScheduledJob, JobStatus, scheduled, running, completed}
use dahlia.Runtime.{Go, pure, ◌>>=◌}
use dahlia.Clock.{now, new_uuid}

-- string(JobStatus…)
unfoldable pub job_status_text : JobStatus → Text
job_status_text scheduled = codes "SCHEDULED"
job_status_text running = codes "RUNNING"
job_status_text completed = codes "COMPLETED"

unfoldable pub new_scheduled_job : {S : Type 0} → Text → Text → ℕ → Fields → Go S ScheduledJob
unfolding now new_uuid
new_scheduled_job job_name queue_name execute_at job_details = do
  now' ← now
  job_id ← new_uuid
  pure (record {
    job_id = job_id;
    execute_at = execute_at;
    created_at = now';
    updated_at = now';
    job_name = job_name;
    job_details = job_details;
    queue_name = queue_name;
    status = scheduled;
  })
