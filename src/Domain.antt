-- ===== src/Domain.antt =====
-- internal/domain: the records that the services exchange and store. The operations on them that
-- read the clock or make an identifier are in Run, ActionLog, Job and Signal.
-- Times are milliseconds since the Unix epoch, from 0 on.

use dahlia.Common.{ℕ, ℤ, Option, List, Text}
use dahlia.Errors.{Error}

-- A value of Go's `interface{}`; the types that no code of the program tells apart are `other`.
pub data Value : Type 0 where
  nil : Value
  string : Text → Value
  int : ℤ → Value
  other : ℕ → Value

-- map[string]interface{}
abbrev pub Fields : Type 0
Fields = List (Text × Value)

-- signal.go
pub record Signal : Type 0 where
  pub signal_id : Text
  pub timestamp : Text
  pub signal_type : Text
  pub org_id : Text
  pub value : Fields
  pub metadata : Fields
  pub created_at : ℕ
  pub signal_type_org_id : Text

-- workflow.go: the two constants, and any other string
pub data ConditionType : Type 0 where
  absence numeric : ConditionType
  unknown : Text → ConditionType

pub record Condition : Type 0 where
  pub type : ConditionType
  pub field : Text
  pub operator : Text
  pub value : Value
  pub duration : Text

pub data ActionType : Type 0 where
  slack webhook delay : ActionType
  unknown : Text → ActionType

pub record Action : Type 0 where
  pub type : ActionType
  pub target : Text
  pub message : Text
  pub duration : Text

pub record Workflow : Type 0 where
  pub workflow_id : Text
  pub version : ℤ
  pub name : Text
  pub signal_type : Text
  pub conditions : List Condition
  pub actions : List Action
  pub created_at : ℕ
  pub updated_at : ℕ

-- workflow_run.go
pub data RunStatus : Type 0 where
  triggered completed failed : RunStatus

pub record WorkflowRun : Type 0 where
  pub run_id : Text
  pub created_at : ℕ
  pub workflow_id : Text
  pub workflow_version : ℤ
  pub signal_id : Text
  pub status : RunStatus
  pub current_state : Text
  pub current_eval_index : ℤ
  pub current_action_index : ℤ
  pub context : Fields
  pub triggered_at : ℕ
  pub completed_at : ℕ
  pub updated_at : ℕ

-- action.go
pub data ActionStatus : Type 0 where
  pending running completed failed scheduled : ActionStatus

-- `error_message` holds the error whose text the source stores.
pub record ActionLog : Type 0 where
  pub run_id_action_index : Text
  pub executed_at : ℕ
  pub log_id : Text
  pub run_id : Text
  pub action_index : ℤ
  pub action_type : ActionType
  pub status : ActionStatus
  pub result : Fields
  pub error_message : Option Error
  pub duration_ms : ℕ

-- scheduled_job.go
pub data JobStatus : Type 0 where
  scheduled running completed : JobStatus

pub record ScheduledJob : Type 0 where
  pub job_id : Text
  pub execute_at : ℕ
  pub created_at : ℕ
  pub updated_at : ℕ
  pub job_name : Text
  pub job_details : Fields
  pub queue_name : Text
  pub status : JobStatus
