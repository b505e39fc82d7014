-- ===== src/WorkflowExecutor/Judged.antt =====
-- The conditions of a new run, and what a run does whose conditions do not hold.
use mathlib.Core.Path.{subst}
use dahlia.Common.{
  sym, ◌∙◌, ◌+◌, length, arith, ℕ, suc, pos, Bool, true, false, Bool-cases, Option-cases, List, [],
  ◌∷◌, ◌++◌, ◌≡◌, refl, ap, ◌⊎◌, inl, inr,
}
use dahlia.Errors.{Error, as_conditional_check_failed}
use dahlia.Domain.{Signal, Condition, Workflow, Fields, WorkflowRun, RunStatus, completed, failed}
use dahlia.Runtime.{
  Env, World, Exit, returned, errored, panicked, workflow_runs, of_run, unchanged_since, Go, ignore,
  ◌>>=◌,
}
use dahlia.Clock.{now}
use dahlia.Run
use dahlia.Repository.Runs
use dahlia.ConditionEvaluator
use dahlia.WorkflowExecutor.{
  save_after, stop_conditions, evaluate_conditions, run_workflow, execute_actions, start_actions,
}
use dahlia.ActionExecutor.Messages.{sent, sent-Ignores}
use dahlia.WorkflowExecutor.Frames.{evaluate_conditions-Keeps}

module _ (env : Env) where
  -- a write of the run whose error is dropped
  ignored_update :
      (run : WorkflowRun) (since : ℕ) (w : World WorkflowRun)
      → let (r, w') = ignore (Runs.update run since) env w in
        (r ≡ returned tt) × (w'.local ≡ w.local)
  unfolding Runs.update ◌>>=◌
  ignored_update run since w = elim (Option-cases (env.marshal (of_run run))) [
    | inr (e, h) ↦ rw h (refl, refl)
    | inl h ↦
        elim (Option-cases
          (env.put_item w.trace workflow_runs (of_run run) (unchanged_since since))) [
            | inl written ↦ rw (h, written) (refl, refl)
            | inr (e, refused) ↦ elim (Bool-cases (as_conditional_check_failed e)) [
              | inl lost ↦ rw (h, refused, lost) (refl, refl)
              | inr other ↦ rw (h, refused, other) (refl, refl)
            ]
          ]
  ]

  abbrev Stops : Go WorkflowRun (Unit {0}) → RunStatus → World WorkflowRun → Type 0
  Stops mark status w =
      let w' = (ignore (save_after mark) env w).1 in
      (stop_conditions mark env w ≡ (returned false, w')) × (w'.local.status ≡ status)

  completed-Stops : (w : World WorkflowRun) → Stops Run.mark_completed completed w
  unfolding stop_conditions save_after Run.mark_completed now ◌>>=◌
  completed-Stops w =
      let w' = (Run.mark_completed env w).1 in
      let (returns, same) = ignored_update w'.local w.local.updated_at w' in
      (rw returns refl, ap (λ run. run.status) same)

  failed-Stops : (w : World WorkflowRun) → Stops Run.mark_failed failed w
  unfolding stop_conditions save_after Run.mark_failed now ◌>>=◌
  failed-Stops w =
      let w' = (Run.mark_failed env w).1 in
      let (returns, same) = ignored_update w'.local w.local.updated_at w' in
      (rw returns refl, ap (λ run. run.status) same)

  Exit-cases :
      (r : Exit Bool)
      → (r ≡ returned true)
        ⊎ (r ≡ returned false)
        ⊎ ((e : Error) × (r ≡ errored e))
        ⊎ (r ≡ panicked)
  Exit-cases (returned true) = inl refl
  Exit-cases (returned false) = inr (inl refl)
  Exit-cases (errored e) = inr (inr (inl (e, refl)))
  Exit-cases panicked = inr (inr (inr refl))

  module _ (signal : Signal) where
    -- the turn of the condition with index `i`: its number has been written to the run
    abbrev pub turn : ℕ → World WorkflowRun → World WorkflowRun
    turn i w = (ignore (save_after (Run.set_condition_status (pos i))) env w).1

    -- Each condition of a row, the first at index `i`, is evaluated once and holds in its turn, which
    -- follows that of the condition before it.
    abbrev pub HoldInTurn : ℕ → List Condition → World WorkflowRun → World WorkflowRun → Type 0
    HoldInTurn i [] w w' = w ≡ w'
    HoldInTurn i (condition ∷ conditions) w w' =
        (w₁ : World WorkflowRun) × (ConditionEvaluator.evaluate condition signal env (turn i w)
          ≡ (returned true, w₁))
        × HoldInTurn (suc i) conditions w₁ w'

    -- What the evaluation of a condition in its turn is, if it does not hold, and how the run is left:
    -- marked as completed, or as failed after an error.
    abbrev pub Breaks : ℕ → Condition → World WorkflowRun → World WorkflowRun → Type 0
    Breaks i condition w w' =
        (w₁ : World WorkflowRun) × (((ConditionEvaluator.evaluate condition signal env (turn i w)
              ≡ (returned false, w₁))
            × (w' ≡ (ignore (save_after Run.mark_completed) env w₁).1)
            × (w'.local.status ≡ completed))
          ⊎ ((e : Error) × (ConditionEvaluator.evaluate condition signal env (turn i w)
                ≡ (errored e, w₁))
              × (w' ≡ (ignore (save_after Run.mark_failed) env w₁).1)
              × (w'.local.status ≡ failed)))

    abbrev Judged : ℕ → List Condition → World WorkflowRun → Exit Bool → World WorkflowRun → Type 0
    Judged i conditions w r w' =
        ((r ≡ returned true) × HoldInTurn i conditions w w')
        ⊎ ((r ≡ returned false)
            × (before : List Condition) × (condition : Condition) × (after : List Condition)
            × (w₁ : World WorkflowRun) × (conditions ≡ before ++ condition ∷ after)
            × HoldInTurn i before w w₁
            × (n : ℕ) × (n ≡ i + length before)
            × Breaks n condition w₁ w')
        ⊎ ((r ≡ panicked)
            × (before : List Condition) × (condition : Condition) × (after : List Condition)
            × (w₁ : World WorkflowRun) × (conditions ≡ before ++ condition ∷ after)
            × HoldInTurn i before w w₁
            × (n : ℕ) × (n ≡ i + length before)
            × (ConditionEvaluator.evaluate condition signal env (turn n w₁) ≡ (panicked, w')))

    goes_on :
        (i : ℕ) (condition : Condition) (conditions : List Condition) (w w₁ w' : World WorkflowRun)
        (r : Exit Bool)
        → ConditionEvaluator.evaluate condition signal env (turn i w) ≡ (returned true, w₁)
        → Judged (suc i) conditions w₁ r w'
        → Judged i (condition ∷ conditions) w r w'
    goes_on i condition conditions w w₁ w' r here (inl (h, all)) = inl (h, (w₁, here, all))
    goes_on i condition conditions w w₁ w' r here
          (inr (inl (h, before, c, after, w₂, e, all, n, at, breaks))) =
        inr (
          inl (
            h,
            condition ∷ before,
            c,
            after,
            w₂,
            ap (λ cs. condition ∷ cs) e,
            (w₁, here, all),
            n,
            omega (arith, at),
            breaks,
          ))
    goes_on i condition conditions w w₁ w' r here
          (inr (inr (h, before, c, after, w₂, e, all, n, at, p))) =
        inr (
          inr (
            h,
            condition ∷ before,
            c,
            after,
            w₂,
            ap (λ cs. condition ∷ cs) e,
            (w₁, here, all),
            n,
            omega (arith, at),
            p,
          ))

    module _ (i : ℕ) (condition : Condition) (conditions : List Condition)
        (w : World WorkflowRun) where
      turn_returns : (ignore (save_after (Run.set_condition_status (pos i))) env w).0 ≡ returned tt
      unfolding save_after Run.set_condition_status now ◌>>=◌
      turn_returns =
          let w₁ = (Run.set_condition_status (pos i) env w).1 in
          (ignored_update w₁.local w.local.updated_at w₁).0

      abbrev w₃ : World WorkflowRun
      w₃ = (ConditionEvaluator.evaluate condition signal env (turn i w)).1

      abbrev Next : Exit Bool → Exit Bool × World WorkflowRun → Type 0
      Next r next =
          (ConditionEvaluator.evaluate condition signal env (turn i w)).0 ≡ r
          → evaluate_conditions signal i (condition ∷ conditions) env w ≡ next

      held : Next (returned true) (evaluate_conditions signal (suc i) conditions env w₃)
      unfolding evaluate_conditions ◌>>=◌
      held h = rw (turn_returns, h) refl

      not_held : Next (returned false) (stop_conditions Run.mark_completed env w₃)
      unfolding evaluate_conditions ◌>>=◌
      not_held h = rw (turn_returns, h) refl

      in_error : (e : Error) → Next (errored e) (stop_conditions Run.mark_failed env w₃)
      unfolding evaluate_conditions ◌>>=◌
      in_error e h = rw (turn_returns, h) refl

      in_panic : Next panicked (panicked, w₃)
      unfolding evaluate_conditions ◌>>=◌
      in_panic h = rw (turn_returns, h) refl

    abbrev IsJudged :
        ℕ → List Condition → World WorkflowRun → Exit Bool × World WorkflowRun → Type 0
    IsJudged i conditions w (r, w') = Judged i conditions w r w'

    evaluate_conditions_lem :
        (i : ℕ) (conditions : List Condition) (w : World WorkflowRun)
        → IsJudged i conditions w (evaluate_conditions signal i conditions env w)
    unfolding evaluate_conditions dahlia.Runtime.pure
    evaluate_conditions_lem i [] w = inl (refl, refl)
    evaluate_conditions_lem i (condition ∷ conditions) w =
        let (r, w₃) = ConditionEvaluator.evaluate condition signal env (turn i w) in
        let to = IsJudged i (condition ∷ conditions) w in
        elim (Exit-cases r) [
          | inl h ↦ subst to (sym (held i condition conditions w h)) (
              goes_on i condition conditions w w₃ _ _ (ap (λ x. (x, w₃)) h)
                (evaluate_conditions_lem (suc i) conditions w₃))
          | inr (inl h) ↦
              let (stops, status) = completed-Stops w₃ in
              subst to (sym (not_held i condition conditions w h ∙ stops)) (
                inr (
                  inl (
                    refl,
                    [],
                    condition,
                    conditions,
                    w,
                    refl,
                    refl,
                    i,
                    omega arith,
                    (w₃, inl (ap (λ x. (x, w₃)) h, refl, status)),
                  )))
          | inr (inr (inl (e, h))) ↦
              let (stops, status) = failed-Stops w₃ in
              subst to (sym (in_error i condition conditions w e h ∙ stops)) (
                inr (
                  inl (
                    refl,
                    [],
                    condition,
                    conditions,
                    w,
                    refl,
                    refl,
                    i,
                    omega arith,
                    (w₃, inr (e, ap (λ x. (x, w₃)) h, refl, status)),
                  )))
          | inr (inr (inr h)) ↦ subst to (sym (in_panic i condition conditions w h)) (
              inr (
                inr (
                  refl,
                  [],
                  condition,
                  conditions,
                  w,
                  refl,
                  refl,
                  i,
                  omega arith,
                  ap (λ x. (x, w₃)) h,
                )))
        ]

-- A new run evaluates its conditions one after the other, each once and in the state that the one
-- before it has left. If each of them holds when its turn comes,
-- the run goes on with its actions. At the first that does not hold, or whose evaluation is an error,
-- it returns with no error and none of its actions executed, and the run in memory is marked as
-- completed, or as failed if it was an error. If the evaluation of a condition panics, so does the
-- run. In all cases no Slack message is sent before the actions.
pub run_workflow_lem :
    (signal : Signal) (workflow : Workflow) (run_context : Fields) (env : Env)
    (w : World WorkflowRun)
    → let w₁ = (evaluate_conditions signal 0 workflow.conditions env w).1 in
      let result = run_workflow signal workflow run_context env w in
      (sent w₁.trace ≡ sent w.trace)
      × (((result ≡ execute_actions signal run_context 0 workflow.actions env w₁)
            × HoldInTurn env signal 0 workflow.conditions w w₁)
          ⊎ ((result ≡ (returned tt, w₁))
              × (before : List Condition) × (condition : Condition) × (after : List Condition)
              × (w₂ : World WorkflowRun) × (workflow.conditions ≡ before ++ condition ∷ after)
              × HoldInTurn env signal 0 before w w₂
              × (n : ℕ) × (n ≡ length before)
              × Breaks env signal n condition w₂ w₁)
          ⊎ ((result ≡ (panicked, w₁))
              × (before : List Condition) × (condition : Condition) × (after : List Condition)
              × (w₂ : World WorkflowRun) × (workflow.conditions ≡ before ++ condition ∷ after)
              × HoldInTurn env signal 0 before w w₂
              × (n : ℕ) × (n ≡ length before)
              × (ConditionEvaluator.evaluate condition signal env (turn env signal n w₂)
                  ≡ (panicked, w₁))))
unfolding run_workflow start_actions ◌>>=◌
run_workflow_lem signal workflow run_context env w = (
  (evaluate_conditions-Keeps (sent-Ignores (sent w.trace)) signal 0 workflow.conditions).at env w
      refl,
  elim (evaluate_conditions_lem env signal 0 workflow.conditions w) [
    | inl (h, all) ↦ inl (rw h refl, all)
    | inr (inl (h, before, c, after, w₂, e, all, n, at, breaks)) ↦
        inr (inl (rw h refl, before, c, after, w₂, e, all, n, omega (arith, at), breaks))
    | inr (inr (h, before, c, after, w₂, e, all, n, at, p)) ↦
        inr (inr (rw h refl, before, c, after, w₂, e, all, n, omega (arith, at), p))
  ],
)
