-- ===== src/Repository/ActionLogs.antt =====
-- internal/repository/dynamodb/action_log_repo.go: both writes put the whole entry.
use dahlia.Common.{ℤ, none, some, List, [], ◌∷◌, ◌++◌, Text}
use dahlia.Errors.{errorf}
use dahlia.Decimal.{format_int}
use dahlia.Domain.{ActionLog}
use dahlia.Runtime.{
  action_logs, Item, of_log, always, by_prefix, by_id, Go, pure, raise, ask, lift, wrapping, ◌>>=◌,
  ◌>>◌,
}
use dahlia.Repository.Calls.{marshal_map, put_item, query, unmarshal_all, int32}

module _ {S : Type 0} where
  unfoldable pub create : ActionLog → Go S (Unit {0})
  unfolding marshal_map put_item
  create log = do
    marshal_map "failed to marshal action log" (of_log log)
    wrapping "failed to create action log" (put_item action_logs (of_log log) always)

  unfoldable pub update : ActionLog → Go S (Unit {0})
  unfolding marshal_map put_item
  update log = do
    marshal_map "failed to marshal action log" (of_log log)
    wrapping "failed to update action log" (put_item action_logs (of_log log) always)

  unfoldable pub get_by_run_id : Text → Go S (List ActionLog)
  unfolding query unmarshal_all
  get_by_run_id run_id = do
    page ←
        wrapping "failed to query action logs"
          (query action_logs (by_prefix (run_id ++ b'#' ∷ [])) none none)
    ask (λ env. pure (unmarshal_all env.unmarshal_log page.items))

  unfoldable pub first_log : Text → ℤ → List Item → Go S ActionLog
  first_log run_id action_index [] =
      raise (errorf "action log not found: %s#%d" (run_id ∷ format_int action_index ∷ []))
  first_log run_id action_index (item ∷ _) =
      wrapping "failed to unmarshal action log" (ask (λ env. lift (env.unmarshal_log item)))

  unfoldable pub get_by_run_id_and_action : Text → ℤ → Go S ActionLog
  unfolding query first_log
  get_by_run_id_and_action run_id action_index = do
    page ←
        wrapping "failed to get action log" (
          query action_logs (by_id (run_id ++ b'#' ∷ format_int action_index)) (some (int32 1))
            none)
    first_log run_id action_index page.items
