-- ===== src/ConditionEvaluator.antt =====
-- internal/service/condition_evaluator.go
pub mod Frames
pub mod Absence
use dahlia.Common.{
  ℕ, suc, ◌*◌, ◌^◌, ℤ, pos, Bool, true, false, ◌||◌, Option, none, some, List, [], ◌∷◌, ◌++◌, Text,
  codes, text_eq, insert, ◌==◌, if◌then◌else◌,
}
use dahlia.Errors.{errorf, wrap, Result, ok, err}
use dahlia.Domain.{Value, string, Fields, Signal, Condition, ConditionType, absence, numeric}
use dahlia.Runtime.{Env, Go, pure, raise, lift, ask, of_option, wrapping, catch, ◌>>=◌, ◌>>◌}
use dahlia.Clock.{now}
use dahlia.Repository.Signals.{get_signals_since}

-- Nanoseconds in a minute.
abbrev minute : ℕ
minute = 60 * 10 ^ 9

-- The texts of one case of the switch: `5m`, `5min`, `5minutes`.
one_of : Text → Text → Text → Text → Bool
one_of s a b c = text_eq s a || text_eq s b || text_eq s c

-- The formats that time.ParseDuration does not take, in nanoseconds.
unfoldable pub common_duration : Text → Result ℤ
unfolding one_of
common_duration s =
    if one_of s (codes "1m") (codes "1min") (codes "1minute")
    then ok (pos minute)
    else if one_of s (codes "2m") (codes "2min") (codes "2minutes")
    then ok (pos (2 * minute))
    else if one_of s (codes "5m") (codes "5min") (codes "5minutes")
    then ok (pos (5 * minute))
    else if one_of s (codes "10m") (codes "10min") (codes "10minutes")
    then ok (pos (10 * minute))
    else if one_of s (codes "15m") (codes "15min") (codes "15minutes")
    then ok (pos (15 * minute))
    else if one_of s (codes "30m") (codes "30min") (codes "30minutes")
    then ok (pos (30 * minute))
    else if one_of s (codes "40m") (codes "40min") (codes "40minutes")
    then ok (pos (40 * minute))
    else if one_of s (codes "45m") (codes "45min") (codes "45minutes")
    then ok (pos (45 * minute))
    else if one_of s (codes "1h") (codes "1hr") (codes "1hour")
    then ok (pos (60 * minute))
    else if one_of s (codes "2h") (codes "2hr") (codes "2hours")
    then ok (pos (120 * minute))
    else err
        (errorf "unsupported duration format: %s (try formats like '5m', '10m', '1h')" (s ∷ []))

or_common : Result ℤ → Text → Result ℤ
unfolding common_duration
or_common (ok duration) s = ok duration
or_common (err e) s = common_duration s

unfoldable pub parse_duration : Env → Text → Result ℤ
unfolding or_common
parse_duration env duration_str = or_common (env.parse_duration duration_str) duration_str

-- The signals that are not the one that started the run.
unfoldable pub count_new : Text → List Signal → ℕ
count_new signal_id [] = 0
count_new signal_id (s ∷ signals) =
    let rest = count_new signal_id signals in
    if text_eq s.signal_id signal_id then rest else suc rest

unfoldable pub add_values : Fields → Fields → Fields
add_values [] env = env
add_values ((k, v) ∷ values) env = add_values values (insert k v env)

-- `nested` makes a value of a map.
unfoldable pub build_environment : (Fields → Value) → Signal → Fields
unfolding add_values
build_environment nested signal =
    let base : Fields =
      (codes "signal_type", string signal.signal_type)
      ∷ (codes "org_id", string signal.org_id)
      ∷ (codes "timestamp", string signal.timestamp)
      ∷ (codes "value", nested signal.value)
      ∷ (codes "metadata", nested signal.metadata)
      ∷ [] in
    add_values signal.value base

boolean : Option Bool → Result Bool
boolean none = err (errorf "expression did not return boolean: %T" [])
boolean (some b) = ok b

module _ {S : Type 0} where
  pub evaluate_absence : Condition → Signal → Go S Bool
  evaluate_absence condition signal = do
    duration ←
        catch (λ e. raise (wrap "invalid duration '%s'" (condition.duration ∷ []) e))
          (ask (λ env. lift (parse_duration env condition.duration)))
    window_start_time ←
        wrapping "invalid signal timestamp" (ask (λ env. lift (env.parse_rfc3339 signal.timestamp)))
    current_time ← now
    signals ← wrapping "failed to check for signals since window start" (
        ask (λ env.
          get_signals_since signal.signal_type signal.org_id window_start_time
            (env.local_time current_time)))
    pure (count_new signal.signal_id signals == 0)

  pub evaluate_numeric : Condition → Signal → Go S Bool
  evaluate_numeric condition signal = do
    expression ← ask (λ env.
        pure (condition.field ++ b' ' ∷ (condition.operator ++ b' ' ∷ env.sprint condition.value)))
    env ← ask (λ env. pure (build_environment env.nested signal))
    wrapping "invalid expression" (ask (λ e. of_option (e.compile_expr expression env)))
    result ← wrapping "expression evaluation failed" (ask (λ e. lift (e.run_expr expression env)))
    lift (boolean result)

  evaluate_type : ConditionType → Condition → Signal → Go S Bool
  evaluate_type absence condition signal = evaluate_absence condition signal
  evaluate_type numeric condition signal = evaluate_numeric condition signal
  evaluate_type (ConditionType.unknown name) condition signal =
      raise (errorf "unknown condition type: %s" (name ∷ []))

  pub evaluate : Condition → Signal → Go S Bool
  evaluate condition signal = evaluate_type condition.type condition signal

  pub evaluate_all : List Condition → Signal → Go S Bool
  evaluate_all [] signal = pure true
  evaluate_all (condition ∷ conditions) signal = do
    passed ← evaluate condition signal
    elim passed [ true ↦ evaluate_all conditions signal | false ↦ pure false ]
