-- ===== src/ConditionEvaluator/Frames.antt =====
-- The evaluation of a condition reads the clock and the database, and nothing else.
use dahlia.Domain.{Signal, Condition, ConditionType, absence, numeric}
use dahlia.Runtime.{Trace}
use dahlia.Runtime.Keeps.{Keeps, Ignores, keeps_rules}
use dahlia.Repository.Frames.{now-Keeps, get_signals_since-Keeps}
use dahlia.ConditionEvaluator.{evaluate_absence, evaluate_numeric, evaluate_type, evaluate}

module _ {P : Trace → Type 0} (ign : Ignores P) {S : Type 0} where
  evaluate_absence-Keeps :
      (condition : Condition) (signal : Signal)
      → Keeps P (evaluate_absence {S = S} condition signal)
  unfolding evaluate_absence
  evaluate_absence-Keeps condition signal =
      search (keeps_rules, now-Keeps ign, get_signals_since-Keeps ign) depth 20

  evaluate_numeric-Keeps :
      (condition : Condition) (signal : Signal)
      → Keeps P (evaluate_numeric {S = S} condition signal)
  unfolding evaluate_numeric
  evaluate_numeric-Keeps condition signal = search keeps_rules depth 20

  evaluate_type-Keeps :
      (type : ConditionType) (condition : Condition) (signal : Signal)
      → Keeps P (evaluate_type {S = S} type condition signal)
  unfolding evaluate_type
  evaluate_type-Keeps absence condition signal = evaluate_absence-Keeps condition signal
  evaluate_type-Keeps numeric condition signal = evaluate_numeric-Keeps condition signal
  evaluate_type-Keeps (ConditionType.unknown name) condition signal = search keeps_rules

  pub evaluate-Keeps :
      (condition : Condition) (signal : Signal) → Keeps P (evaluate {S = S} condition signal)
  unfolding evaluate
  evaluate-Keeps condition signal = evaluate_type-Keeps condition.type condition signal
