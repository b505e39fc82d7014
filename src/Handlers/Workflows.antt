-- ===== src/Handlers/Workflows.antt =====
-- internal/handler/workflow_handler.go and internal/dto/workflow_dto.go, with NewWorkflow of
-- internal/domain/workflow.go. The handler shares the coordinator of the process.
pub mod Created
use dahlia.Common.{
  ℕ, ◌/◌, ℤ, pos, Option, none, some, List, [], ◌∷◌, ◌++◌, Text, codes, is_empty, length, map,
  if◌then◌else◌,
}
use dahlia.Decimal.{format_nat, format_int}
use dahlia.Errors.{Result, ok, err}
use dahlia.Domain.{Condition, Action, Workflow}
use dahlia.ErrorCollection.{ErrorCollection, code_not_found, code_internal_server_error}
use dahlia.Runtime.{Go, pure, attempt, ignore, ◌>>=◌, ◌>>◌}
use dahlia.Clock.{now}
use dahlia.Coordinator.{Coordinator, upsert_node, update_node}
use dahlia.Repository.{PaginationResult}
use dahlia.Repository.Workflows
use dahlia.Requests.{RequestIo}
use dahlia.Handlers.Limits.{value_of, parse_limit, PaginationResponse, refuse}

pub record CreateWorkflowRequest : Type 0 where
  pub workflow_id : Text
  pub version : ℤ
  pub name : Text
  pub signal_type : Text
  pub conditions : List Condition
  pub actions : List Action

-- CreateWorkflowResponse, GetWorkflowResponse and WorkflowResponse, which have the same fields
pub record WorkflowResponse : Type 0 where
  pub workflow_id : Text
  pub version : ℤ
  pub name : Text
  pub signal_type : Text
  pub conditions : List Condition
  pub actions : List Action
  pub created_at : ℕ
  pub updated_at : ℕ

pub record ListWorkflowsResponse : Type 0 where
  pub workflows : List WorkflowResponse
  pub pagination : PaginationResponse

abbrev pub no_workflow : WorkflowResponse
no_workflow = record {
  workflow_id = [];
  version = pos 0;
  name = [];
  signal_type = [];
  conditions = [];
  actions = [];
  created_at = 0;
  updated_at = 0;
}

abbrev no_workflows : ListWorkflowsResponse
no_workflows = record { workflows = []; pagination = record { count = 0; next_token = [] } }

unfoldable pub workflow_response : Workflow → WorkflowResponse
workflow_response workflow = record {
  workflow_id = workflow.workflow_id;
  version = workflow.version;
  name = workflow.name;
  signal_type = workflow.signal_type;
  conditions = workflow.conditions;
  actions = workflow.actions;
  created_at = workflow.created_at;
  updated_at = workflow.updated_at;
}

-- nil conditions and actions are empty lists
unfoldable pub new_workflow :
    {S : Type 0} → Text → Text → Text → List Condition → List Action → ℤ → Go S Workflow
unfolding now
new_workflow workflow_id name signal_type conditions actions version = do
  now' ← now
  pure (record {
    workflow_id = workflow_id;
    version = version;
    name = name;
    signal_type = signal_type;
    conditions = conditions;
    actions = actions;
    created_at = now';
    updated_at = now';
  })

unfoldable pub workflow_path : Text → Text
workflow_path workflow_id = codes "/workflows/" ++ workflow_id

abbrev pub refresh_path : Text
refresh_path = codes "/workflows/refresh"

abbrev pub WorkflowAnswer : Type 0
WorkflowAnswer = WorkflowResponse × Option ErrorCollection

-- the nodes of ZooKeeper: their failures are logged
unfoldable pub publish : (rounds : ℕ) → Workflow → Go Coordinator (Unit {0})
unfolding now workflow_path
publish rounds workflow = do
  ignore (upsert_node rounds (workflow_path workflow.workflow_id) (format_int workflow.version))
  updated_at ← now
  ignore (update_node rounds refresh_path (format_nat (updated_at / 1000)))

unfoldable pub after_create :
    (rounds : ℕ) → Workflow → Result (Unit {0}) → Go Coordinator WorkflowAnswer
unfolding publish workflow_response
after_create rounds workflow (err e) =
    pure (refuse no_workflow code_internal_server_error "failed to save workflow")
after_create rounds workflow (ok _) = do
  publish rounds workflow
  pure (workflow_response workflow, none)

unfoldable pub create_workflow_service :
    (rounds : ℕ) → RequestIo CreateWorkflowRequest → Go Coordinator WorkflowAnswer
unfolding new_workflow after_create
create_workflow_service rounds ioutil = do
  let req = ioutil.body
  workflow ←
      new_workflow req.workflow_id req.name req.signal_type req.conditions req.actions req.version
  saved ← attempt (Workflows.create workflow)
  after_create rounds workflow saved

workflow_answer : Result Workflow → WorkflowAnswer
workflow_answer (err e) = refuse no_workflow code_not_found "workflow not found"
workflow_answer (ok workflow) = (workflow_response workflow, none)

list_answer : Result (PaginationResult Workflow) → ListWorkflowsResponse × Option ErrorCollection
list_answer (err e) = refuse no_workflows code_internal_server_error "failed to list workflows"
list_answer (ok result) =
    let responses = map workflow_response result.rows in
    (
      record {
        workflows = responses;
        pagination = record { count = length responses; next_token = result.next_token };
      },
      none,
    )

module _ {S : Type 0} where
  -- always version 1
  unfoldable pub get_workflow_service : RequestIo (Unit {0}) → Go S WorkflowAnswer
  unfolding workflow_answer
  get_workflow_service ioutil = do
    found ← attempt (Workflows.get_by_id (value_of (codes "id") ioutil.path_params) (pos 1))
    pure (workflow_answer found)

  unfoldable pub list_pages : Text → ℕ → Text → Go S (PaginationResult Workflow)
  list_pages signal_type limit next_token =
      if is_empty signal_type
      then Workflows.list limit next_token
      else Workflows.list_by_signal_type signal_type limit next_token

  unfoldable pub list_workflows_service :
      RequestIo (Unit {0}) → Go S (ListWorkflowsResponse × Option ErrorCollection)
  unfolding list_pages list_answer
  list_workflows_service ioutil = do
    result ← attempt (
        list_pages (value_of (codes "signal_type") ioutil.query_params)
          (parse_limit (value_of (codes "limit") ioutil.query_params))
          (value_of (codes "next_token") ioutil.query_params))
    pure (list_answer result)
