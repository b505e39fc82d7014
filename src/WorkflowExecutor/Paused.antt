-- ===== src/WorkflowExecutor/Paused.antt =====
-- A run that pauses for a delay of less than a minute.
use dahlia.Common.{
  ℕ, suc, pos, ℤ, ltb_ℤ, ◌≡◌, refl, sym, List, [], ◌∷◌, Bool, true, false, Text, arith,
}
use mathlib.Core.Path.{subst}
use dahlia.Errors.{ok}
use dahlia.Domain.{
  Fields, Signal, Action, ActionType, slack, webhook, delay, WorkflowRun, ActionLog,
}
use dahlia.Runtime.{
  pushed, sqs_sent, Trace, Env, World, Exit, returned, errored, panicked, Go, continue, pure, raise,
  ◌>>=◌,
}
use dahlia.Runtime.Keeps.{Keeps-bind, Keeps-wrapping, bind-at, Ignores, keeps_rules}
use dahlia.Runtime.Steps.{bind-never}
use dahlia.Repository.Frames
use dahlia.ActionExecutor
use dahlia.ActionExecutor.Delays.{HasRunEntries, execute-short}
use dahlia.ActionExecutor.Messages.{sent}
use dahlia.WorkflowExecutor.{
  execute_delay_action, execute_by_type, execute_single_action, prepare_action,
  handle_action_failure, execute_actions,
}
use dahlia.WorkflowExecutor.Frames.{
  save_after-Keeps, prepare_action-Keeps, handle_action_failure-Keeps,
}
use dahlia.WorkflowExecutor.Messages.{at_index, handle_action_failure-exit}

-- What could make a run go on: the ids that were pushed to lists of jobs, and the bodies that were
-- sent to queues.
abbrev pub wakes : Trace → List Text
wakes [] = []
wakes (pushed key value outcome ∷ t) = value ∷ wakes t
wakes (sqs_sent queue body outcome ∷ t) = body ∷ wakes t
wakes (_ ∷ t) = wakes t

abbrev IsAsBefore : Trace → Trace → Type 0
IsAsBefore before t = (wakes t ≡ wakes before) × (sent t ≡ sent before)

unchanged-Ignores : (before : Trace) → Ignores (IsAsBefore before)
unchanged-Ignores before = record {
  clock = λ n t h. h;
  uuid = λ id t h. h;
  run_put = λ item guard outcome t h. h;
  log_put = λ item guard outcome t h. h;
  get = λ table key t h. h;
  query = λ table key limit start t h. h;
}

module _ (env : Env) (action : Action) (duration : ℤ) (is_delay : action.type ≡ delay)
    (parses : env.parse_duration action.duration ≡ ok duration)
    (short : ltb_ℤ (env.whole_seconds duration) (pos 60) ≡ true) where
  delay_action-IsAsBefore :
      (signal : Signal) (run_context : Fields) (i : ℕ) (log : ActionLog) (w : World WorkflowRun)
      (before : Trace)
      → HasRunEntries run_context
      → IsAsBefore before w.trace
      → IsAsBefore before (execute_delay_action action signal run_context i log env w).1.trace
  unfolding execute_delay_action
  delay_action-IsAsBefore signal run_context i log w before has h =
      let ign = unchanged-Ignores before in
      bind-at (ActionExecutor.execute action signal run_context) _ env w
        (subst (λ p. IsAsBefore before p.1.trace)
          (sym (execute-short action signal run_context duration env w is_delay has parses short))
          h)
        λ _.
          Keeps-bind _ _
            (Keeps-wrapping _ _
              (save_after-Keeps ign _ (Frames.set_action_scheduled_status-Keeps ign (pos i))))
            λ _.
              search
                (
                  keeps_rules,
                  Frames.now-Keeps ign,
                  Frames.mark_scheduled-Keeps ign,
                  Frames.update_log-Keeps ign,
                )
                depth 20

  delay_action-exit :
      (signal : Signal) (run_context : Fields) (i : ℕ) (log : ActionLog) (w : World WorkflowRun)
      → (execute_delay_action action signal run_context i log env w).0 ≡ returned false
      → ⊥
  unfolding execute_delay_action pure
  delay_action-exit signal run_context i log w = bind-never _ _ env w false λ _ w₁.
      bind-never _ _ env w₁ false λ _ w₂. bind-never _ _ env w₂ false λ _ w₃.
        bind-never _ _ env w₃ false λ _ w₄. bind-never _ _ env w₄ false λ _ w₅ h. ground arith

  -- how a call that runs the delay leaves things
  abbrev HasPaused : World WorkflowRun → Exit Bool × World WorkflowRun → Type 0
  HasPaused w (r, w') = (r ≡ returned false → ⊥) × IsAsBefore w.trace w'.trace

  by_type-HasPaused :
      (type : ActionType) (signal : Signal) (run_context : Fields) (i : ℕ) (log : ActionLog)
      (w w' : World WorkflowRun)
      → type ≡ delay
      → HasRunEntries run_context
      → IsAsBefore w.trace w'.trace
      → HasPaused w (execute_by_type type action signal run_context i log env w')
  unfolding execute_by_type
  by_type-HasPaused delay signal run_context i log w w' is has h = (
    delay_action-exit signal run_context i log w',
    delay_action-IsAsBefore signal run_context i log w' w.trace has h,
  )
  by_type-HasPaused slack signal run_context i log w w' is has h = absurd (ground arith)
  by_type-HasPaused webhook signal run_context i log w w' is has h = absurd (ground arith)
  by_type-HasPaused (ActionType.unknown name) signal run_context i log w w' is has h =
      absurd (ground arith)

  prepared-HasPaused :
      (r : Exit ActionLog) (signal : Signal) (run_context : Fields) (i : ℕ)
      (w w' : World WorkflowRun)
      → HasRunEntries run_context
      → IsAsBefore w.trace w'.trace
      → HasPaused w
          (continue r (execute_by_type action.type action signal run_context i) raise env w')
  unfolding raise
  prepared-HasPaused (returned log) signal run_context i w w' has h =
      by_type-HasPaused action.type signal run_context i log w w' is_delay has h
  prepared-HasPaused (errored e) signal run_context i w w' has h = ((λ k. ground arith), h)
  prepared-HasPaused panicked signal run_context i w w' has h = ((λ k. ground arith), h)

  single-HasPaused :
      (signal : Signal) (run_context : Fields) (i : ℕ) (w : World WorkflowRun)
      → HasRunEntries run_context
      → HasPaused w (execute_single_action action signal run_context i env w)
  unfolding execute_single_action ◌>>=◌
  single-HasPaused signal run_context i w has =
      prepared-HasPaused (prepare_action action i env w).0 signal run_context i w
        (prepare_action action i env w).1 has
        ((prepare_action-Keeps (unchanged-Ignores w.trace) action i).at env w (refl, refl))

  -- what the loop does then
  after-IsAsBefore :
      (r : Exit Bool) (rest : Go WorkflowRun (Unit {0})) (i : ℕ) (w w' : World WorkflowRun)
      → HasPaused w (r, w')
      → IsAsBefore w.trace
          (let (r', w₁) = continue r pure (handle_action_failure i) env w' in
            continue r' (elim [ true ↦ pure tt | false ↦ rest ]) raise env w₁).1.trace
  unfolding pure raise
  after-IsAsBefore (returned true) rest i w w' (_, h) = h
  after-IsAsBefore (returned false) rest i w w' (never, h) = absurd (never refl)
  after-IsAsBefore (errored e) rest i w w' (_, h) =
      let ign = unchanged-Ignores w.trace in
      let (_, same) =
        handle_action_failure-exit i e (elim [ true ↦ pure tt | false ↦ rest ]) env w' in
      subst (λ v. IsAsBefore w.trace v.trace) (sym same)
        ((handle_action_failure-Keeps ign i e).at env w' h)
  after-IsAsBefore panicked rest i w w' (_, h) = h

-- A loop whose first action is a delay of less than 60 seconds, by the durations that the environment
-- reads, and whose run context is complete, however it ends and whatever the outside answers, has sent
-- no Slack message, for the actions after the delay neither, has pushed no job to a list and has sent
-- nothing to a queue.
pub execute_actions-paused :
    (action : Action) (actions : List Action) (signal : Signal) (run_context : Fields) (i : ℕ)
    (duration : ℤ) (env : Env) (w : World WorkflowRun)
    → action.type ≡ delay
    → HasRunEntries (at_index i run_context)
    → env.parse_duration action.duration ≡ ok duration
    → ltb_ℤ (env.whole_seconds duration) (pos 60) ≡ true
    → let (r, w') = execute_actions signal run_context i (action ∷ actions) env w in
      (wakes w'.trace ≡ wakes w.trace) × (sent w'.trace ≡ sent w.trace)
unfolding execute_actions ◌>>=◌
execute_actions-paused action actions signal run_context i duration env w is_delay has parses
      short =
    let context = at_index i run_context in
    let single = execute_single_action action signal context i in
    after-IsAsBefore env action duration is_delay parses short (single env w).0
      (execute_actions signal context (suc i) actions) i w (single env w).1
      (single-HasPaused env action duration is_delay parses short signal context i w has)
