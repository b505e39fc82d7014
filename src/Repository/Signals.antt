-- ===== src/Repository/Signals.antt =====
-- internal/repository/dynamodb/signal_repo.go
use dahlia.Common.{none, some, Option, pos, List, [], ◌∷◌, ◌++◌, Text, codes}
use dahlia.Errors.{Error, errorf, wrap, duplicate_signal, conditional_check_failed}
use dahlia.Domain.{Signal}
use dahlia.Runtime.{
  Time, signals, Item, of_signal, is_new, by_id, since_until, before, by_type_between, Go, pure,
  raise, ask, lift, catch, wrapping, ◌>>=◌, ◌>>◌,
}
use dahlia.Repository.Calls.{marshal_map, put_item, get_item, query, unmarshal_all}

module _ {S : Type 0} where
  -- the type assertion of the source fits the bare exception alone, not one that is wrapped
  unfoldable pub create_failed : Error → Go S (Unit {0})
  create_failed conditional_check_failed = raise duplicate_signal
  create_failed e = raise (wrap "failed to create signal" [] e)

  unfoldable pub create : Signal → Go S (Unit {0})
  unfolding marshal_map put_item create_failed
  create signal = do
    marshal_map "failed to marshal signal" (of_signal signal)
    catch create_failed (put_item signals (of_signal signal) is_new)

  found_signal : Text → Option Item → Go S Signal
  found_signal signal_id none = raise (errorf "signal not found: %s" (signal_id ∷ []))
  found_signal signal_id (some item) =
      wrapping "failed to unmarshal signal" (ask (λ env. lift (env.unmarshal_signal item)))

  unfoldable pub get_by_id : Text → Go S Signal
  unfolding get_item found_signal
  get_by_id signal_id = do
    found ← wrapping "failed to get signal" (get_item signals (by_id signal_id))
    found_signal signal_id found

  last_signal : List Item → Go S (Option Signal)
  last_signal [] = pure none
  last_signal (item ∷ _) = do
    signal ← wrapping "failed to unmarshal signal" (ask (λ env. lift (env.unmarshal_signal item)))
    pure (some signal)

  unfoldable pub get_last_signal : Text → Text → Time → Go S (Option Signal)
  unfolding query last_signal
  get_last_signal signal_type org_id time = do
    page ← wrapping "failed to query last signal" (
        ask (λ env.
          query signals (before (signal_type ++ codes "#" ++ org_id) (env.format_rfc3339 time))
            (some (pos 1)) none))
    last_signal page.items

  unfoldable pub query_by_signal_type : Text → Time → Time → Go S (List Signal)
  unfolding query unmarshal_all
  query_by_signal_type signal_type start_time end_time = do
    page ← wrapping "failed to query signals" (
        ask (λ env.
          query signals
            (by_type_between signal_type (env.format_rfc3339 start_time)
              (env.format_rfc3339 end_time))
            none none))
    ask (λ env. pure (unmarshal_all env.unmarshal_signal page.items))

  unfoldable pub get_signals_since : Text → Text → Time → Time → Go S (List Signal)
  unfolding query unmarshal_all
  get_signals_since signal_type org_id since until = do
    page ←
        catch
          (λ e. ask (λ env.
            raise (wrap "failed to query signals since %s" (env.format_rfc3339 since ∷ []) e)))
          (ask (λ env.
            query signals
              (since_until signal_type org_id (env.format_rfc3339 since) (env.format_rfc3339 until))
              none none))
    ask (λ env. pure (unmarshal_all env.unmarshal_signal page.items))
