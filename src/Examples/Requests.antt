-- ===== src/Examples/Requests.antt =====
-- The handlers and what stands around them.
use dahlia.Common.{◌≤◌, Option, none, [], ◌∷◌, Text, codes, ◌≡◌, ◌≢◌, String, ◌⊎◌, inl, pos, arith}
use dahlia.Errors.{Error, ok}
use dahlia.Domain.{ScheduledJob}
use dahlia.Runtime.{World, returned, errored, AttributeMap, read_clock, made_uuid, Go, pure}
use dahlia.ErrorCollection.{ErrorCollection, code_internal_server_error}
use dahlia.Repository.Tokens.{decode_next_token}
use dahlia.Repository.Workflows as WorkflowRepo
use dahlia.Coordinator.{Coordinator}
use dahlia.Requests.{RequestIo, Request, handle_func}
use dahlia.Requests.Middleware.{Answer, new_router}
use dahlia.Requests.Middleware.Answered.{status, handle_func_lem}
use dahlia.Handlers.Jobs.{
  HealthCheckResponse, health_service, ScheduleJobRequest, no_job, schedule_service,
}
use dahlia.Handlers.Jobs.Scheduled.{IsRequested, IsListed, response, schedule_service_lem}
use dahlia.Handlers.Limits.{parse_limit, value_of, refuse}
use dahlia.Handlers.Limits.Bounds.{parse_limit_bounds}
use dahlia.Handlers.Runs.{no_runs, list_runs_service}
use dahlia.Handlers.Runs.Listed.{Asked, Lists, list_runs_service_lem}
use dahlia.Handlers.Workflows.{
  CreateWorkflowRequest, no_workflow, workflow_response, workflow_path, refresh_path,
  create_workflow_service,
}
use dahlia.Handlers.Workflows.Created.{requested, create_workflow_service_lem}
use dahlia.Examples.Setting.{job, accepting, start}
use dahlia.Examples.Coordinators.{fresh, accepting-Stays}

parse_limit_bounds_example : (1 ≤ parse_limit (codes "-7")) × (parse_limit (codes "-7") ≤ 100)
parse_limit_bounds_example = parse_limit_bounds (codes "-7")

abbrev request : {A : Type 0} → A → RequestIo A
request body = record {
  body = body;
  raw_body = [];
  path_params = [];
  query_params = (codes "limit", codes "20") ∷ [];
  headers = [];
}

list_runs_service_lem_example :
    let (r, w') = list_runs_service (request tt) accepting (start job) in
    ((w' ≡ start job)
      × (r ≡ returned (refuse no_runs code_internal_server_error "failed to list runs")))
    ⊎ ((start' : Option AttributeMap) × (decode_next_token accepting
            (value_of (codes "next_token") (request tt).query_params)
          ≡ ok start')
        × Asked (request tt) accepting (start job) start' w'
        × Lists (request tt) accepting (start job) start' r)
list_runs_service_lem_example = list_runs_service_lem (request tt) accepting (start job)

abbrev creation : CreateWorkflowRequest
creation = record {
  workflow_id = codes "w";
  version = pos 1;
  name = [];
  signal_type = codes "order";
  conditions = [];
  actions = [];
}

create_workflow_service_lem_example :
    let w = start fresh in
    let workflow = requested creation 60500 in
    let (saved, w₁) =
      WorkflowRepo.create workflow accepting (record w { trace = read_clock 60500 ∷ [] }) in
    let (r, w') = create_workflow_service 1 (request creation) accepting w in
    ((saved ≡ returned tt) × (r ≡ returned (workflow_response workflow, none)))
    ⊎ ((e : Error) × (saved ≡ errored e)
        × (r ≡ returned (refuse no_workflow code_internal_server_error "failed to save workflow"))
        × (w' ≡ w₁))
create_workflow_service_lem_example =
    create_workflow_service_lem (request creation) 0 accepting (start fresh)
      (accepting-Stays (workflow_path (codes "w"))) (accepting-Stays refresh_path)

abbrev no_binding : Text → String ⊎ Unit {0}
no_binding s = inl "EOF"

abbrev health : RequestIo (Unit {0}) → Go Coordinator (HealthCheckResponse × Option ErrorCollection)
health = health_service (codes "dahlia")

abbrev unhealthy : HealthCheckResponse
unhealthy = record { status = []; service = [] }

abbrev probe : Request
probe = record { method = codes "GET"; body = ok []; params = []; query = []; headers = [] }

health_never :
    (io : RequestIo (Unit {0})) (w : World Coordinator) (e : Error)
    → (health io accepting w).0 ≢ errored e
unfolding health_service pure
health_never io w e h = ground arith

handle_func_lem_example :
    let route = handle_func no_binding tt unhealthy health probe in
    (a : Answer HealthCheckResponse) × ((new_router (codes "GET") route accepting (start fresh)).0
      ≡ returned a)
    × ((status a ≡ 200) ⊎ (status a ≡ 204) ⊎ (status a ≡ 400) ⊎ (status a ≡ 500))
handle_func_lem_example =
    handle_func_lem no_binding tt unhealthy health probe accepting (start fresh) health_never

abbrev wanted : ScheduleJobRequest
wanted = record {
  job_type = codes "reminder";
  payload = [];
  queue_name = codes "executor-queue";
  execute_at = 70000;
}

schedule_service_lem_example :
    let (r, w') = schedule_service (request wanted) accepting (start fresh) in
    let first = read_clock 60500 ∷ [] in
    let made = made_uuid (codes "u") ∷ first in
    (r ≡ returned (refuse no_job code_internal_server_error "Failed to schedule job"))
    ⊎ ((job : ScheduledJob) × IsRequested wanted 60500 job
        × (job.job_id ≡ codes "u")
        × (r ≡ returned (response job, none))
        × IsListed accepting job (read_clock 60500 ∷ made) w'.trace)
schedule_service_lem_example = schedule_service_lem (request wanted) accepting (start fresh)
