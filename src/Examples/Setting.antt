-- ===== src/Examples/Setting.antt =====
-- The environments and the data of the examples.
use dahlia.Common.{
  ℕ, Bool, Bool-cases, inl, inr, ltb, length, map, ℤ, pos, Option, none, some, true, false, List,
  [], ◌∷◌, Text, codes, ◌≡◌, refl, if◌then◌else◌, arith,
}
use dahlia.Errors.{Error, external, conditional_check_failed, Result, ok, err}
use dahlia.Domain.{
  string, Value, nil, Signal, Workflow, WorkflowRun, triggered, ScheduledJob, JobStatus,
}
use dahlia.Runtime.{of_workflow, event, Guard, always, unchanged_since, is_new, Env, World}
use mathlib.Core.Path.{subst}
use dahlia.Examples.Codec.{entries_to_text, read_text, read_text-entries_to_text}
use dahlia.Repository.Tokens.RoundTrip.{DecodesWhatItEncodes}

abbrev pub signal : Signal
signal = record {
  signal_id = codes "order#acme#5";
  timestamp = codes "5";
  signal_type = codes "order";
  org_id = codes "acme";
  value = [];
  metadata = [];
  created_at = 5;
  signal_type_org_id = codes "order#acme";
}

abbrev pub workflow : Text → ℤ → Workflow
workflow id version = record {
  workflow_id = id;
  version = version;
  name = [];
  signal_type = codes "order";
  conditions = [];
  actions = [];
  created_at = 0;
  updated_at = 0;
}

abbrev pub job : ScheduledJob
job = record {
  job_id = codes "j";
  execute_at = 70000;
  created_at = 0;
  updated_at = 0;
  job_name = [];
  job_details = [];
  queue_name = codes "executor-queue";
  status = JobStatus.scheduled;
}

abbrev pub run : WorkflowRun
run = record {
  run_id = codes "r";
  created_at = 0;
  workflow_id = codes "w";
  workflow_version = pos 1;
  signal_id = codes "order#acme#5";
  status = triggered;
  current_state = [];
  current_eval_index = pos 0;
  current_action_index = pos 0;
  context = [];
  triggered_at = 0;
  completed_at = 0;
  updated_at = 0;
}

abbrev pub strip : Text → Result Text
strip [] = err (external 2)
strip (c ∷ s) = ok s

abbrev pub accepting : Env
accepting = record {
  node_id = codes "node";
  executor_queue_url = codes "q";
  now = λ t. 60500;
  new_uuid = λ t. codes "u";
  marshal = λ item. none;
  put_item = λ t table item guard. none;
  get_item = λ t table key. ok (some (of_workflow (workflow (codes "w") (pos 1))));
  query = λ t table key limit start. ok (record { items = []; last_evaluated_key = none });
  scan = λ t table limit start. ok (record { items = []; last_evaluated_key = none });
  unmarshal_run = λ item. ok run;
  unmarshal_log = λ item. err (external 3);
  unmarshal_job = λ item. ok job;
  unmarshal_signal = λ item. ok signal;
  unmarshal_workflow = λ item. ok (workflow (codes "w") (pos 1));
  slack_send = λ t channel message. none;
  sqs_send = λ t url body. none;
  sqs_receive = λ t url max_messages wait_seconds. ok [];
  sqs_delete = λ t url receipt. none;
  stop_closed = λ t. false;
  llen = λ t key. ok 0;
  transfer = λ t bucket temp. ok none;
  rpush = λ t key value. none;
  lrange = λ t key. ok [];
  lrem = λ t key value. none;
  zk_exists = λ t path. ok false;
  zk_create = λ t path bytes. none;
  zk_get = λ t path. ok ([], 3);
  zk_get_w = λ t path. ok tt;
  zk_wait = λ t path. event path true;
  set = λ t key value ttl. none;
  get = λ t key. ok none;
  del = λ t key. none;
  zk_set = λ t path bytes version. none;
  range_workflows = λ t workflows. workflows;
  marshal_json = λ fields. ok (codes "{}");
  marshal_map = λ m. ok (entries_to_text m);
  unmarshal_map = read_text;
  base64_encode = λ s. b'=' ∷ s;
  base64_decode = strip;
  parse_duration = λ s. ok (pos 5000000000);
  whole_seconds = λ duration. pos 5;
  parse_rfc3339 = λ s. ok (record { unix_milli = 5; offset = pos 0 });
  format_rfc3339 = λ t. codes "5";
  local_time = λ t. record { unix_milli = t; offset = pos 3600 };
  sprint = λ v. [];
  minute_stamp = λ t. codes "2024:01:01:00:01";
  nested = λ fields. nil;
  compile_expr = λ expression fields. none;
  run_expr = λ expression fields. ok (some true);
}

abbrev pub refuse : Guard → Option Error
refuse (unchanged_since _) = some conditional_check_failed
refuse always = none
refuse is_new = none

abbrev pub refusing : Env
refusing = record accepting { put_item = λ t table item guard. refuse guard }

abbrev pub start : {S : Type 0} → S → World S
start local = record {
  local = local;
  cache = record { workflow_cache = []; signal_type_index = [] };
  trace = [];
}

-- every list of numbers is a text of the codec
abbrev pub IsAnyText : Text → Type 0
IsAnyText s = Unit {0}

pub accepting-DecodesWhatItEncodes : DecodesWhatItEncodes accepting IsAnyText
accepting-DecodesWhatItEncodes = record {
  base64 = λ s. refl;
  not_empty = λ m s h e. ground arith;
  json = λ m s distinct utf8 h.
      let (m', u, p) = read_text-entries_to_text m in
      (m', subst (λ t. read_text t ≡ ok m') (ground arith) u, p);
}

-- a limit for unpack, and the answer of the script to a list that it has deleted
abbrev pub takes : ℕ → Bool
takes n = ltb n 8000

abbrev pub moved : List Text → Result (Option (List Value))
moved ids = if takes (length ids) then ok (some (map string ids)) else err (external 9)

pub moved-ok :
    (ids : List Text) (values : Option (List Value))
    → moved ids ≡ ok values
    → (takes (length ids) ≡ true) × (values ≡ some (map string ids))
moved-ok ids values h = elim (Bool-cases (takes (length ids))) [
  | inl fits ↦ (fits, ground (arith, fits))
  | inr long ↦ ground (arith, long)
]
