-- ===== src/Handlers/Runs.antt =====
-- internal/handler/run_handler.go and internal/dto/run_dto.go.
pub mod Listed
use dahlia.Common.{
  ℕ, ℤ, pos, Option, none, some, List, [], ◌∷◌, Text, codes, is_empty, length, map, if◌then◌else◌,
}
use dahlia.Errors.{Result, ok, err}
use dahlia.Domain.{Fields, WorkflowRun}
use dahlia.ErrorCollection.{
  ErrorCollection, code_validation_error, code_not_found, code_internal_server_error,
}
use dahlia.Runtime.{Go, pure, attempt, ◌>>=◌}
use dahlia.Run.{status_text}
use dahlia.Repository.{PaginationResult}
use dahlia.Repository.Runs
use dahlia.Requests.{RequestIo}
use dahlia.Handlers.Limits.{value_of, parse_limit, PaginationResponse, refuse}

-- GetRunResponse and RunResponse, which have the same fields
pub record RunResponse : Type 0 where
  pub run_id : Text
  pub workflow_id : Text
  pub workflow_version : ℤ
  pub signal_id : Text
  pub status : Text
  pub current_state : Text
  pub current_eval_index : ℤ
  pub current_action_index : ℤ
  pub context : Fields
  pub triggered_at : ℕ
  pub completed_at : ℕ
  pub created_at : ℕ
  pub updated_at : ℕ

pub record ListRunsResponse : Type 0 where
  pub runs : List RunResponse
  pub pagination : PaginationResponse

abbrev no_run : RunResponse
no_run = record {
  run_id = [];
  workflow_id = [];
  workflow_version = pos 0;
  signal_id = [];
  status = [];
  current_state = [];
  current_eval_index = pos 0;
  current_action_index = pos 0;
  context = [];
  triggered_at = 0;
  completed_at = 0;
  created_at = 0;
  updated_at = 0;
}

abbrev pub no_runs : ListRunsResponse
no_runs = record { runs = []; pagination = record { count = 0; next_token = [] } }

unfoldable pub run_response : WorkflowRun → RunResponse
run_response run = record {
  run_id = run.run_id;
  workflow_id = run.workflow_id;
  workflow_version = run.workflow_version;
  signal_id = run.signal_id;
  status = status_text run.status;
  current_state = run.current_state;
  current_eval_index = run.current_eval_index;
  current_action_index = run.current_action_index;
  context = run.context;
  triggered_at = run.triggered_at;
  completed_at = run.completed_at;
  created_at = run.created_at;
  updated_at = run.updated_at;
}

run_answer : Result WorkflowRun → RunResponse × Option ErrorCollection
run_answer (err e) = refuse no_run code_not_found "run not found"
run_answer (ok run) = (run_response run, none)

list_answer : Result (PaginationResult WorkflowRun) → ListRunsResponse × Option ErrorCollection
list_answer (err e) = refuse no_runs code_internal_server_error "failed to list runs"
list_answer (ok result) =
    let responses = map run_response result.rows in
    (
      record {
        runs = responses;
        pagination = record { count = length responses; next_token = result.next_token };
      },
      none,
    )

module _ {S : Type 0} where
  found_run : Text → Go S (RunResponse × Option ErrorCollection)
  unfolding run_answer
  found_run run_id = do found ← attempt (Runs.get_by_id run_id); pure (run_answer found)

  unfoldable pub get_run_service :
      RequestIo (Unit {0}) → Go S (RunResponse × Option ErrorCollection)
  unfolding found_run
  get_run_service ioutil =
      let run_id = value_of (codes "id") ioutil.path_params in
      if is_empty run_id
      then pure (refuse no_run code_validation_error "run_id is required")
      else found_run run_id

  -- workflow_id and status of the query are read for the log only
  unfoldable pub list_runs_service :
      RequestIo (Unit {0}) → Go S (ListRunsResponse × Option ErrorCollection)
  unfolding list_answer
  list_runs_service ioutil = do
    result ← attempt (
        Runs.get_running_workflows (parse_limit (value_of (codes "limit") ioutil.query_params))
          (value_of (codes "next_token") ioutil.query_params))
    pure (list_answer result)
