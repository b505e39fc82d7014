-- ===== src/WorkflowExecutor/Messages.antt =====
-- The Slack messages of a run: the actions send theirs in order, and a failure or a delay ends them.
use dahlia.Common.{
  ℕ, suc, pos, ◌≡◌, refl, sym, ap, ◌∙◌, ◌⊎◌, inl, inr, Bool, true, false, List, [], ◌∷◌, ◌++◌,
  append-nil, append_assoc, Text, codes, insert, arith,
}
use dahlia.Errors.{Error}
use dahlia.Domain.{int, Fields, Signal, Action, delay, WorkflowRun}
use dahlia.Runtime.{Env, World, Exit, returned, errored, panicked, Go, continue, pure, raise, ◌>>=◌}
use dahlia.ActionExecutor.Messages.{sent, sent-Ignores, messages_of}
use dahlia.WorkflowExecutor.{handle_action_failure, execute_actions}
use dahlia.WorkflowExecutor.Frames.{handle_action_failure-Keeps, complete_workflow-Keeps}
use dahlia.WorkflowExecutor.ActionMessages.{HasRunOrNot, execute_single_action-HasRunOrNot}

-- The run context as the loop leaves it for the action with an index.
abbrev pub at_index : ℕ → Fields → Fields
at_index i run_context = insert (codes "current_action_index") (int (pos i)) run_context

-- What a row of actions sends, the first at index `i`, if each of them is executed.
abbrev pub messages_of_all : Env → Signal → Fields → ℕ → List Action → List (Text × Text)
messages_of_all env signal run_context i [] = []
messages_of_all env signal run_context i (action ∷ actions) =
    messages_of env signal (at_index i run_context) action
    ++ messages_of_all env signal (at_index i run_context) (suc i) actions

-- The last action of a row is a delay.
abbrev pub EndsInDelay : List Action → Type 0
EndsInDelay [] = ⊥
EndsInDelay (action ∷ []) = action.type ≡ delay
EndsInDelay (action ∷ next ∷ actions) = EndsInDelay (next ∷ actions)

-- the same with what a return means, as the induction has it
abbrev SendsInOrder :
    Env
    → Signal
    → Fields
    → ℕ
    → List Action
    → World WorkflowRun
    → Exit (Unit {0}) × World WorkflowRun
    → Type 0
SendsInOrder env signal run_context i actions w (r, w') =
    (done : List Action) × (rest : List Action) × (actions ≡ done ++ rest)
    × (sent w'.trace ≡ sent w.trace ++ messages_of_all env signal run_context i done)
    × (r ≡ returned tt → (rest ≡ []) ⊎ EndsInDelay done)

EndsInDelay-cons :
    (action : Action) (done : List Action) → EndsInDelay done → EndsInDelay (action ∷ done)
EndsInDelay-cons action [] ends = absurd ends
EndsInDelay-cons action (next ∷ done) ends = ends

module _ (env : Env) (signal : Signal) (run_context : Fields) (i : ℕ) (action : Action)
    (actions : List Action) (w : World WorkflowRun) where
  -- the run ends with this action
  ended :
      (r : Exit Bool) (w' : World WorkflowRun) (r'' : Exit (Unit {0})) (w'' : World WorkflowRun)
      → HasRunOrNot env signal (at_index i run_context) action w (r, w')
      → sent w''.trace ≡ sent w'.trace
      → (r'' ≡ returned tt → r ≡ returned true)
      → SendsInOrder env signal run_context i (action ∷ actions) w (r'', w'')
  ended r w' r'' w'' (inl (stopped, same)) quiet ends = (
    [],
    action ∷ actions,
    refl,
    quiet ∙ same ∙ sym (append-nil _),
    λ h. absurd (stopped true (ends h)),
  )
  ended r w' r'' w'' (inr (sends, pauses)) quiet ends = (
    action ∷ [],
    actions,
    refl,
    quiet ∙ sends ∙ ap (λ ms. sent w.trace ++ ms) (sym (append-nil _)),
    λ h. inr (pauses (ends h)),
  )

  went_on :
      (w' : World WorkflowRun) (result : Exit (Unit {0}) × World WorkflowRun)
      → HasRunOrNot env signal (at_index i run_context) action w (returned false, w')
      → SendsInOrder env signal (at_index i run_context) (suc i) actions w' result
      → SendsInOrder env signal run_context i (action ∷ actions) w result
  went_on w' result (inl (stopped, same)) _ = absurd (stopped false refl)
  went_on w' result (inr (sends, pauses)) (done, rest, splits, sends_rest, ends) = (
    action ∷ done,
    rest,
    ap (λ row. action ∷ row) splits,
    sends_rest
        ∙ ap (λ ms. ms ++ messages_of_all env signal (at_index i run_context) (suc i) done) sends
        ∙ append_assoc (sent w.trace) _ _,
    λ h. elim (ends h) [ inl all ↦ inl all | inr pause ↦ inr (EndsInDelay-cons action done pause) ],
  )

-- what follows an action that failed
fail_rest-exit :
    (r : Exit (Unit {0})) (e : Error) (f : Bool → Go WorkflowRun (Unit {0})) (env : Env)
    (w : World WorkflowRun)
    → let (r', w') = continue r (λ _. raise e) raise env w in
      (let (r'', w'') = continue r' f raise env w' in (r'' ≡ returned tt → ⊥) × (w'' ≡ w'))
unfolding raise
fail_rest-exit (returned tt) e f env w = ((λ h. ground arith), refl)
fail_rest-exit (errored e') e f env w = ((λ h. ground arith), refl)
fail_rest-exit panicked e f env w = ((λ h. ground arith), refl)

pub handle_action_failure-exit :
    (i : ℕ) (e : Error) (f : Bool → Go WorkflowRun (Unit {0})) (env : Env) (w : World WorkflowRun)
    → let (r', w') = handle_action_failure i e env w in
      (let (r'', w'') = continue r' f raise env w' in (r'' ≡ returned tt → ⊥) × (w'' ≡ w'))
unfolding handle_action_failure ◌>>=◌
handle_action_failure-exit i e f env w = fail_rest-exit _ _ f env _

-- what the loop does with the result of an action
abbrev after_action :
    Signal
    → Fields
    → ℕ
    → List Action
    → Env
    → Exit Bool
    → World WorkflowRun
    → Exit (Unit {0}) × World WorkflowRun
after_action signal run_context i actions env r w' =
    let (r', w'') = continue r pure (handle_action_failure i) env w' in
    continue r'
      (elim [
        | true ↦ pure tt
        | false ↦ execute_actions signal (at_index i run_context) (suc i) actions
      ])
      raise env w''

after_action-sent :
    (r : Exit Bool) (w' : World WorkflowRun) (action : Action) (actions : List Action)
    (signal : Signal) (run_context : Fields) (i : ℕ) (env : Env) (w : World WorkflowRun)
    → HasRunOrNot env signal (at_index i run_context) action w (r, w')
    → ((w₁ : World WorkflowRun)
        → SendsInOrder env signal
            (at_index i run_context)
            (suc i)
            actions
            w₁
            (execute_actions signal (at_index i run_context) (suc i) actions env w₁))
    → SendsInOrder env signal run_context i
        (action ∷ actions)
        w
        (after_action signal run_context i actions env r w')
unfolding pure raise
after_action-sent (returned true) w' action actions signal run_context i env w has rest =
    ended env signal run_context i action actions w (returned true) w' (returned tt) w' has refl
      λ _. refl
after_action-sent (returned false) w' action actions signal run_context i env w has rest =
    went_on env signal run_context i action actions w w'
      (execute_actions signal (at_index i run_context) (suc i) actions env w') has (rest w')
after_action-sent (errored e) w' action actions signal run_context i env w has rest =
    let (stopped, same) = handle_action_failure-exit i e _ env w' in
    ended env signal run_context i action actions w (errored e) w'
      (after_action signal run_context i actions env (errored e) w').0
      (after_action signal run_context i actions env (errored e) w').1 has
      (ap (λ v. sent v.trace) same
        ∙ (handle_action_failure-Keeps (sent-Ignores (sent w'.trace)) i e).at env w' refl)
      λ h. absurd (stopped h)
after_action-sent panicked w' action actions signal run_context i env w has rest =
    ended env signal run_context i action actions w panicked w' panicked w' has refl
      λ h. ground arith

execute_actions-SendsInOrder :
    (actions : List Action) (signal : Signal) (run_context : Fields) (i : ℕ) (env : Env)
    (w : World WorkflowRun)
    → SendsInOrder env signal run_context i actions w
        (execute_actions signal run_context i actions env w)
unfolding execute_actions ◌>>=◌
execute_actions-SendsInOrder [] signal run_context i env w = (
  [],
  [],
  refl,
  (complete_workflow-Keeps (sent-Ignores (sent w.trace))).at env w refl ∙ sym (append-nil _),
  λ _. inl refl,
)
execute_actions-SendsInOrder (action ∷ actions) signal run_context i env w =
    after_action-sent _ _ action actions signal run_context i env w
      (execute_single_action-HasRunOrNot action signal (at_index i run_context) i env w)
      (execute_actions-SendsInOrder actions signal (at_index i run_context) (suc i) env)

-- What the end of the loop says of the actions that were executed: a return means that they were all
-- of them, or that the last one was a delay.
abbrev pub Covers : Exit (Unit {0}) → List Action → List Action → Type 0
Covers (returned _) done rest = (rest ≡ []) ⊎ EndsInDelay done
Covers (errored _) done rest = Unit {0}
Covers panicked done rest = Unit {0}

to-Covers :
    (r : Exit (Unit {0})) (done rest : List Action)
    → (r ≡ returned tt → (rest ≡ []) ⊎ EndsInDelay done)
    → Covers r done rest
to-Covers (returned tt) done rest h = h refl
to-Covers (errored e) done rest h = tt
to-Covers panicked done rest h = tt

-- Whatever the outside answers and however the loop ends, the actions that were executed are a first
-- part of the row, Slack was asked for their messages, in their order, once each, and for nothing
-- else; and a loop that returns has executed all of the row or has stopped at a delay.
pub execute_actions-sent :
    (actions : List Action) (signal : Signal) (run_context : Fields) (i : ℕ) (env : Env)
    (w : World WorkflowRun)
    → let (r, w') = execute_actions signal run_context i actions env w in
      (done : List Action) × (rest : List Action) × (actions ≡ done ++ rest)
      × (sent w'.trace ≡ sent w.trace ++ messages_of_all env signal run_context i done)
      × Covers r done rest
execute_actions-sent actions signal run_context i env w =
    let (done, rest, splits, sends, ends) =
      execute_actions-SendsInOrder actions signal run_context i env w in
    (done, rest, splits, sends, to-Covers _ done rest ends)
