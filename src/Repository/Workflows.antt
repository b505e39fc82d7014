-- ===== src/Repository/Workflows.antt =====
-- internal/repository/dynamodb/workflow_repo.go
use dahlia.Common.{ℕ, ℤ, none, some, Option, List, [], ◌∷◌, Text}
use dahlia.Decimal.{format_int}
use dahlia.Errors.{errorf}
use dahlia.Domain.{Workflow}
use dahlia.Runtime.{
  workflows, Item, of_workflow, always, is_new, by_version, by_signal_type, Go, pure, raise, ask,
  lift, wrapping, ◌>>=◌, ◌>>◌,
}
use dahlia.Repository.Calls.{
  marshal_map, put_item, get_item, query, scan, unmarshal_all, int32, PaginationResult,
}
use dahlia.Repository.Tokens.{read_page}

module _ {S : Type 0} where
  unfoldable pub create : Workflow → Go S (Unit {0})
  unfolding marshal_map put_item
  create workflow = do
    marshal_map "failed to marshal workflow" (of_workflow workflow)
    wrapping "failed to create workflow" (put_item workflows (of_workflow workflow) is_new)

  unfoldable pub update : Workflow → Go S (Unit {0})
  unfolding marshal_map put_item
  update workflow = do
    marshal_map "failed to marshal workflow" (of_workflow workflow)
    wrapping "failed to update workflow" (put_item workflows (of_workflow workflow) always)

  found_workflow : Text → ℤ → Option Item → Go S Workflow
  found_workflow workflow_id version none =
      raise (errorf "workflow not found: %s (version %d)" (workflow_id ∷ format_int version ∷ []))
  found_workflow workflow_id version (some item) =
      wrapping "failed to unmarshal workflow" (ask (λ env. lift (env.unmarshal_workflow item)))

  unfoldable pub get_by_id : Text → ℤ → Go S Workflow
  unfolding get_item found_workflow
  get_by_id workflow_id version = do
    found ← wrapping "failed to get workflow" (get_item workflows (by_version workflow_id version))
    found_workflow workflow_id version found

  unfoldable pub get_by_signal_type : Text → Go S (List Workflow)
  unfolding query unmarshal_all
  get_by_signal_type signal_type = do
    page ←
        wrapping "failed to query workflows"
          (query workflows (by_signal_type signal_type) none none)
    ask (λ env. pure (unmarshal_all env.unmarshal_workflow page.items))

  unfoldable pub list : ℕ → Text → Go S (PaginationResult Workflow)
  unfolding scan read_page
  list limit next_token =
      read_page "failed to list workflows" (λ env. env.unmarshal_workflow)
        (scan workflows (int32 limit)) next_token

  unfoldable pub list_by_signal_type : Text → ℕ → Text → Go S (PaginationResult Workflow)
  unfolding query read_page
  list_by_signal_type signal_type limit next_token =
      read_page "failed to query workflows" (λ env. env.unmarshal_workflow)
        (query workflows (by_signal_type signal_type) (some (int32 limit))) next_token
