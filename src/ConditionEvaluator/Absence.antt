-- ===== src/ConditionEvaluator/Absence.antt =====
-- When an absence condition holds.
use dahlia.Common.{
  ◌≡◌, ◌≢◌, refl, ap, ◌∙◌, ◌⊎◌, inl, inr, List, [], ◌∷◌, Text, text_eq, text_eq_iff, Bool-cases,
  ◌==◌, true, false, All, ℤ, arith,
}
use mathlib.Core.List.{Memᴰ}
use dahlia.Errors.{ok}
use dahlia.Domain.{Signal, Condition}
use dahlia.Runtime.{Time, read_clock, Env, World, returned, ◌>>=◌}
use dahlia.Clock.{now}
use dahlia.Repository.Signals.{get_signals_since}
use dahlia.ConditionEvaluator.{parse_duration, count_new, evaluate_absence}

count_new_cases :
    (id : Text) (signals : List Signal)
    → (((count_new id signals == 0) ≡ true) × All (λ s. s.signal_id ≡ id) signals)
      ⊎ (((count_new id signals == 0) ≡ false) × (s : Signal) × Memᴰ s signals × (s.signal_id ≢ id))
unfolding count_new
count_new_cases id [] = inl (refl, tt)
count_new_cases id (s ∷ signals) = elim (Bool-cases (text_eq s.signal_id id)) [
  | inr other ↦
      inr (
        ground arith,
        s,
        Memᴰ.head refl,
        λ same. absurd (ground (arith, text_eq_iff s.signal_id id)),
      )
  | inl same ↦ elim (count_new_cases id signals) [
    | inl (zero_new, all) ↦ inl (ground arith, ((text_eq_iff s.signal_id id).0 same, all))
    | inr (some_new, other, there, differs) ↦ inr (ground arith, other, Memᴰ.tail there, differs)
  ]
]

absence_of_count :
    (condition : Condition) (signal : Signal) (duration : ℤ) (since : Time) (signals : List Signal)
    {S : Type 0} (env : Env) (w w' : World S)
    → parse_duration env condition.duration ≡ ok duration
    → env.parse_rfc3339 signal.timestamp ≡ ok since
    → get_signals_since signal.signal_type signal.org_id since
        (env.local_time (env.now w.trace))
        env
        (record w { trace = read_clock (env.now w.trace) ∷ w.trace })
      ≡ (returned signals, w')
    → evaluate_absence condition signal env w
      ≡ (returned (count_new signal.signal_id signals == 0), w')
unfolding evaluate_absence now ◌>>=◌
absence_of_count condition signal duration since signals env w w' parses times found =
    rw (parses, times, found)

-- If the duration and the time of the signal are read, and the signals of its type and organisation
-- from that time to the clock's are found, an absence condition returns after these calls: it holds
-- exactly if each of them has the identifier of the signal, whatever the duration is.
pub evaluate_absence_lem :
    {S : Type 0} (condition : Condition) (signal : Signal) (duration : ℤ) (since : Time)
    (signals : List Signal) (env : Env) (w w' : World S)
    → parse_duration env condition.duration ≡ ok duration
    → env.parse_rfc3339 signal.timestamp ≡ ok since
    → get_signals_since signal.signal_type signal.org_id since
        (env.local_time (env.now w.trace))
        env
        (record w { trace = read_clock (env.now w.trace) ∷ w.trace })
      ≡ (returned signals, w')
    → ((evaluate_absence condition signal env w ≡ (returned true, w'))
        × All (λ s. s.signal_id ≡ signal.signal_id) signals)
      ⊎ ((evaluate_absence condition signal env w ≡ (returned false, w'))
          × (s : Signal) × Memᴰ s signals
          × (s.signal_id ≢ signal.signal_id))
evaluate_absence_lem condition signal duration since signals env w w' parses times found =
    let counted =
      absence_of_count condition signal duration since signals env w w' parses times found in
    elim (count_new_cases signal.signal_id signals) [
      | inl (zero_new, all) ↦ inl (counted ∙ ap (λ b. (returned b, w')) zero_new, all)
      | inr (some_new, other, there, differs) ↦
          inr (counted ∙ ap (λ b. (returned b, w')) some_new, other, there, differs)
    ]
