-- ===== src/Repository/Runs.antt =====
-- internal/repository/dynamodb/run_repo.go
pub mod Refused
use dahlia.Common.{ℕ, none, some, List, [], ◌∷◌, Text, if◌then◌else◌}
use dahlia.Errors.{Error, errorf, wrap, optimistic_lock_failed, as_conditional_check_failed}
use dahlia.Domain.{WorkflowRun, RunStatus, triggered}
use dahlia.Runtime.{
  workflow_runs, Item, of_run, always, unchanged_since, by_id, by_workflow, by_status, Go, raise,
  ask, lift, catch, wrapping, ◌>>=◌, ◌>>◌,
}
use dahlia.Repository.Calls.{marshal_map, put_item, query, int32, PaginationResult}
use dahlia.Repository.Tokens.{read_page}

module _ {S : Type 0} where
  unfoldable pub create : WorkflowRun → Go S (Unit {0})
  unfolding marshal_map put_item
  create run = do
    marshal_map "failed to marshal run" (of_run run)
    wrapping "failed to create run" (put_item workflow_runs (of_run run) always)

  -- the error of a refused write names the run
  unfoldable pub update_failed : WorkflowRun → Error → Go S (Unit {0})
  unfolding as_conditional_check_failed
  update_failed run e =
      if as_conditional_check_failed e
      then raise (wrap "%w: run_id=%s" (run.run_id ∷ []) optimistic_lock_failed)
      else raise (wrap "failed to update run" [] e)

  unfoldable pub update : WorkflowRun → ℕ → Go S (Unit {0})
  unfolding marshal_map put_item update_failed
  update run expected_updated_at = do
    marshal_map "failed to marshal run" (of_run run)
    catch (update_failed run)
        (put_item workflow_runs (of_run run) (unchanged_since expected_updated_at))

  unfoldable pub first_run : Text → List Item → Go S WorkflowRun
  first_run run_id [] = raise (errorf "run not found: %s" (run_id ∷ []))
  first_run run_id (item ∷ _) =
      wrapping "failed to unmarshal run" (ask (λ env. lift (env.unmarshal_run item)))

  unfoldable pub get_by_id : Text → Go S WorkflowRun
  unfolding query first_run
  get_by_id run_id = do
    page ← wrapping "failed to get run" (query workflow_runs (by_id run_id) (some (int32 1)) none)
    first_run run_id page.items

  unfoldable pub get_by_workflow_id : Text → ℕ → Text → Go S (PaginationResult WorkflowRun)
  unfolding query read_page
  get_by_workflow_id workflow_id limit next_token =
      read_page "failed to query runs" (λ env. env.unmarshal_run)
        (query workflow_runs (by_workflow workflow_id) (some (int32 limit))) next_token

  unfoldable pub get_by_status : RunStatus → ℕ → Text → Go S (PaginationResult WorkflowRun)
  unfolding query read_page
  get_by_status status limit next_token =
      read_page "failed to query runs" (λ env. env.unmarshal_run)
        (query workflow_runs (by_status status) (some (int32 limit))) next_token

  unfoldable pub get_running_workflows : ℕ → Text → Go S (PaginationResult WorkflowRun)
  unfolding query read_page
  get_running_workflows limit next_token =
      read_page "failed to query running workflows" (λ env. env.unmarshal_run)
        (query workflow_runs (by_status triggered) (some (int32 limit))) next_token
