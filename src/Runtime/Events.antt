-- ===== src/Runtime/Events.antt =====
-- The outside calls and the environment that answers them.
use dahlia.Common.{ℕ, ℤ, Option, Bool, List, Text}
use dahlia.Errors.{Error, Result}
use dahlia.Domain.{
  Value, Fields, Signal, Workflow, WorkflowRun, ActionLog, ScheduledJob, RunStatus, JobStatus,
}

-- The table names of the repositories.
pub data Table : Type 0 where
  workflow_runs action_logs scheduled_jobs signals workflows : Table

-- An attribute map: what attributevalue.MarshalMap makes of a record, or any other stored item.
pub data Item : Type 0 where
  of_run : WorkflowRun → Item
  of_log : ActionLog → Item
  of_job : ScheduledJob → Item
  of_signal : Signal → Item
  of_workflow : Workflow → Item
  stored : ℕ → Item

-- ConditionExpression of a PutItem.
pub data Guard : Type 0 where
  always : Guard
  -- updated_at = :expected_updated_at OR attribute_not_exists(updated_at)
  unchanged_since : ℕ → Guard
  -- attribute_not_exists of the key attributes
  is_new : Guard

-- The primary keys that GetItem and Query are called with, and the indexes that are queried.
pub data Key : Type 0 where
  by_id : Text → Key
  by_version : Text → ℤ → Key
  by_signal_type : Text → Key
  -- signal_type_index with org_id, between two RFC 3339 texts
  since_until : (signal_type org_id since until : Text) → Key
  -- signal_type_org_id_index, before a RFC 3339 text, newest first
  before : Text → Text → Key
  -- signal_type_index between two RFC 3339 texts
  by_type_between : (signal_type start end : Text) → Key
  by_status : RunStatus → Key
  by_job_status : JobStatus → Key
  by_workflow : Text → Key
  -- begins_with(run_id_action_index, :prefix)
  by_prefix : Text → Key

-- types.AttributeValue: a string, a number as its text, bytes, and the other member types.
pub data AttributeValue : Type 0 where
  member_s member_n member_b : Text → AttributeValue
  member_other : ℕ → AttributeValue

-- A LastEvaluatedKey or ExclusiveStartKey.
abbrev pub AttributeMap : Type 0
AttributeMap = List (Text × AttributeValue)

-- The answer of a Query or Scan.
pub record Page : Type 0 where
  pub items : List Item
  pub last_evaluated_key : Option AttributeMap

-- types.Message of SQS
pub record QueueMessage : Type 0 where
  pub message_id : Option Text
  pub receipt_handle : Option Text
  pub body : Option Text

-- How the wait for an event of a ZooKeeper watch ends: the context is cancelled, the channel is closed,
-- or an event comes, with its path and whether its type is EventNodeDataChanged.
pub data Waited : Type 0 where
  done channel_closed : Waited
  event : Text → Bool → Waited

pub data Event : Type 0 where
  read_clock : ℕ → Event
  made_uuid : Text → Event
  put : Table → Item → Guard → Option Error → Event
  got : Table → Key → Event
  -- with the limit and the start key of the call
  queried : Table → Key → Option ℤ → Option AttributeMap → Event
  scanned : Table → ℤ → Option AttributeMap → Event
  slack_sent : Text → Text → Option Error → Event
  webhook_called : Text → Text → Event
  slept : ℤ → Event
  -- queue URL and body
  sqs_sent : Text → Text → Option Error → Event
  -- ReceiveMessage with MaxNumberOfMessages and WaitTimeSeconds, and DeleteMessage with a receipt
  sqs_received : Text → (max_messages wait_seconds : ℤ) → Event
  sqs_deleted : Text → Option Text → Option Error → Event
  -- a look at the stop channel of the consumer: whether it is closed
  looked_at_stop : Bool → Event
  measured : Text → Event
  -- KEYS[1] and KEYS[2] of the transfer script
  transferred : Text → Text → Event
  pushed : Text → Text → Option Error → Event
  ranged : Text → Event
  removed : Text → Text → Option Error → Event
  -- ZooKeeper: Exists, Create and Set with a path (and the data, and the version), and Get
  zk_asked : Text → Event
  zk_created : Text → Text → Option Error → Event
  zk_got : Text → Event
  zk_set : Text → Text → ℕ → Option Error → Event
  -- GetW with a path, and the wait for its event
  zk_watched : Text → Event
  zk_waited : Event
  -- SET with a key, a text and a time to live, GET and DEL
  redis_set : Text → Text → ℤ → Option Error → Event
  redis_got : Text → Event
  redis_deleted : Text → Option Error → Event

-- A time.Time: the instant, and the offset of its zone in seconds, which Format writes.
pub record Time : Type 0 where
  pub unix_milli : ℕ
  pub offset : ℤ

abbrev pub Trace : Type 0
Trace = List Event

pub record Env : Type 0 where
  -- the configuration: nodeID of the scheduler
  pub node_id : Text
  -- QueueURL of the executor queue
  pub executor_queue_url : Text
  pub now : Trace → ℕ
  pub new_uuid : Trace → Text
  -- DynamoDB, and the conversion of its attribute maps
  pub marshal : Item → Option Error
  pub put_item : Trace → Table → Item → Guard → Option Error
  pub get_item : Trace → Table → Key → Result (Option Item)
  pub query : Trace → Table → Key → Option ℤ → Option AttributeMap → Result Page
  pub scan : Trace → Table → ℤ → Option AttributeMap → Result Page
  pub unmarshal_run : Item → Result WorkflowRun
  pub unmarshal_log : Item → Result ActionLog
  pub unmarshal_job : Item → Result ScheduledJob
  pub unmarshal_signal : Item → Result Signal
  pub unmarshal_workflow : Item → Result Workflow
  -- Slack, SQS, Redis
  pub slack_send : Trace → Text → Text → Option Error
  pub sqs_send : Trace → Text → Text → Option Error
  pub sqs_receive : Trace → Text → ℤ → ℤ → Result (List QueueMessage)
  pub sqs_delete : Trace → Text → Option Text → Option Error
  pub stop_closed : Trace → Bool
  pub llen : Trace → Text → Result ℕ
  -- the transfer script; `none` is a result that is no array
  pub transfer : Trace → Text → Text → Result (Option (List Value))
  pub rpush : Trace → Text → Text → Option Error
  pub lrange : Trace → Text → Result (List Text)
  pub lrem : Trace → Text → Text → Option Error
  -- ZooKeeper; Get gives the data and the version
  pub zk_exists : Trace → Text → Result Bool
  pub zk_create : Trace → Text → Text → Option Error
  pub zk_get : Trace → Text → Result (Text × ℕ)
  pub zk_get_w : Trace → Text → Result (Unit {0})
  pub zk_wait : Trace → Text → Waited
  pub set : Trace → Text → Text → ℤ → Option Error
  pub get : Trace → Text → Result (Option Text)
  pub del : Trace → Text → Option Error
  pub zk_set : Trace → Text → Text → ℕ → Option Error
  -- the order in which `range` visits the values of a map
  pub range_workflows : Trace → List Workflow → List Workflow
  -- encoding/json, encoding/base64, time and fmt, as far as the program uses them
  pub marshal_json : Fields → Result Text
  pub marshal_map : List (Text × Text) → Result Text
  pub unmarshal_map : Text → Result (List (Text × Text))
  pub base64_encode : Text → Text
  pub base64_decode : Text → Result Text
  pub parse_duration : Text → Result ℤ
  pub whole_seconds : ℤ → ℤ
  pub parse_rfc3339 : Text → Result Time
  pub format_rfc3339 : Time → Text
  -- a time with the offset of the local zone, which time.Now has
  pub local_time : ℕ → Time
  pub sprint : Value → Text
  -- year, month, day, hour and minute as %04d:%02d:%02d:%02d:%02d
  pub minute_stamp : ℕ → Text
  -- expr.Compile and expr.Run of an expression over an environment of fields: the result of the
  -- two calls, and whether it is a Boolean
  -- a map as a value of the environment of an expression
  pub nested : Fields → Value
  pub compile_expr : Text → Fields → Option Error
  pub run_expr : Text → Fields → Result (Option Bool)
