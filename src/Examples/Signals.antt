-- ===== src/Examples/Signals.antt =====
-- A signal that the database refuses as a duplicate, with one workflow for its type.
use dahlia.Common.{ℕ, ◌+◌, pos, Option, some, [], ◌∷◌, codes, text_eq, lookup, length, ◌≡◌, refl}
use dahlia.Errors.{Result, conditional_check_failed}
use dahlia.ErrorCollection.{ErrorCollection}
use dahlia.Runtime.{Env, World, returned, attempt, ◌>>=◌}
use dahlia.Repository.Signals
use dahlia.Coordinator.{Coordinator}
use dahlia.WorkflowManager.{get_workflows_by_signal_type}
use dahlia.Scheduler.Sending.{accepted}
use dahlia.SignalHandler.{CreateSignalRequest, CreateSignalResponse, create_signal_service}
use dahlia.SignalHandler.Saved.{IsReply}
use dahlia.SignalHandler.Created.{clocked, made, queued, create_signal_service_lem}
use dahlia.Examples.Setting.{accepting, start, workflow}
use dahlia.Examples.Coordinators.{fresh}

abbrev request : CreateSignalRequest
request = record {
  signal_type = codes "order";
  org_id = codes "acme";
  value = [];
  metadata = [];
  timestamp = record { unix_milli = 7; offset = pos 0 };
}

abbrev one_workflow : World Coordinator
one_workflow = record (start fresh) {
  cache = record {
    workflow_cache = (codes "w:1", workflow (codes "w") (pos 1)) ∷ [];
    signal_type_index = (codes "order", codes "w:1" ∷ []) ∷ [];
  };
}

abbrev duplicated : Env
duplicated = record accepting {
  put_item = λ t table item guard. some conditional_check_failed;
  range_workflows = λ t workflows. workflows;
}

finds_one :
    get_workflows_by_signal_type (codes "order") duplicated (clocked duplicated one_workflow)
    ≡ (returned (workflow (codes "w") (pos 1) ∷ []), clocked duplicated one_workflow)
unfolding get_workflows_by_signal_type lookup text_eq ◌>>=◌
finds_one = refl

create_signal_service_lem_example :
    let (r, w') = create_signal_service request duplicated one_workflow in
    let w₂ =
      queued request
        (workflow (codes "w") (pos 1) ∷ [])
        duplicated
        one_workflow
        (clocked duplicated one_workflow) in
    (n : ℕ) × (n + 0 ≡ length (accepted w₂.trace))
    × (saved : Result (Unit {0})) × ((attempt
          (Signals.create (made request duplicated one_workflow))
          duplicated
          w₂).0
        ≡ returned saved)
    × (response : CreateSignalResponse) × (errors : Option ErrorCollection) × (r
        ≡ returned (response, errors))
    × IsReply saved n response errors
    × (accepted w'.trace ≡ accepted w₂.trace)
create_signal_service_lem_example =
    create_signal_service_lem request duplicated one_workflow (clocked duplicated one_workflow)
      (workflow (codes "w") (pos 1) ∷ []) finds_one
