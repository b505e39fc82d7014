-- ===== src/WorkflowExecutor/ActionMessages.antt =====
-- The Slack messages of one action of a run: its own, once it has been prepared.
use dahlia.Common.{
  ℕ, pos, ◌≡◌, refl, ap, ◌∙◌, ◌⊎◌, inl, inr, Bool, true, false, List, ◌++◌, Text, arith,
}
use dahlia.Errors.{Error, Result, ok, err}
use dahlia.Domain.{
  Fields, Signal, Action, ActionType, slack, webhook, delay, WorkflowRun, ActionLog,
}
use dahlia.Runtime.{
  Env, World, Exit, returned, errored, panicked, Go, continue, follow, attempt, pure, raise, ◌>>=◌,
}
use dahlia.Runtime.Keeps.{Keeps-bind, Keeps-ignore, Keeps-pure, Keeps-wrapping, keeps_rules}
use dahlia.Clock.{now}
use dahlia.Repository.Frames
use dahlia.ActionExecutor.Messages.{sent, IsQuiet, sent-Ignores, messages_of, execute-sent}
use dahlia.WorkflowExecutor.{
  execute_delay_action, finish_regular_action, execute_regular_action, execute_by_type,
  execute_single_action, prepare_action,
}
use dahlia.WorkflowExecutor.Frames.{save_after-Keeps, prepare_action-Keeps}

finish-IsQuiet :
    (outcome : Result (Unit {0})) (i : ℕ) (log : ActionLog) (duration_ms : ℕ)
    → IsQuiet (finish_regular_action outcome i log duration_ms)
unfolding finish_regular_action
finish-IsQuiet (ok _) i log duration_ms messages =
    let ign = sent-Ignores messages in
    Keeps-bind _ _
      (Keeps-ignore _
        (save_after-Keeps ign _ (Frames.set_action_completed_status-Keeps ign (pos i))))
      λ _. search (keeps_rules, Frames.mark_log_completed-Keeps ign, Frames.update_log-Keeps ign)
finish-IsQuiet (err e) i log duration_ms messages =
    let ign = sent-Ignores messages in
    search (keeps_rules, Frames.mark_log_failed-Keeps ign, Frames.update_log-Keeps ign)

continue-sent :
    {A B : Type 0} (r : Exit A) (f : A → Go WorkflowRun B) (g : Error → Go WorkflowRun B)
    (env : Env) (w : World WorkflowRun)
    → ((a : A) → IsQuiet (f a))
    → ((e : Error) → IsQuiet (g e))
    → sent (continue r f g env w).1.trace ≡ sent w.trace
continue-sent (returned a) f g env w qf qg = (qf a (sent w.trace)).at env w refl
continue-sent (errored e) f g env w qf qg = (qg e (sent w.trace)).at env w refl
continue-sent panicked f g env w qf qg = refl

follow-sent :
    {A B : Type 0} (m : Go WorkflowRun A) (f : A → Go WorkflowRun B) (g : Error → Go WorkflowRun B)
    (env : Env) (w : World WorkflowRun)
    → ((a : A) → IsQuiet (f a))
    → ((e : Error) → IsQuiet (g e))
    → sent (follow m f g env w).1.trace ≡ sent (m env w).1.trace
unfolding follow
follow-sent m f g env w qf qg = continue-sent (m env w).0 f g env (m env w).1 qf qg

attempt-sent :
    {A : Type 0} (m : Go WorkflowRun A) (env : Env) (w : World WorkflowRun)
    → sent (attempt m env w).1.trace ≡ sent (m env w).1.trace
unfolding attempt
attempt-sent m env w =
    follow-sent m _ _ env w (λ a ms. search keeps_rules) (λ e ms. search keeps_rules)

bind-sent :
    {A B : Type 0} (m : Go WorkflowRun A) (f : A → Go WorkflowRun B) (env : Env)
    (w : World WorkflowRun)
    → ((a : A) → IsQuiet (f a))
    → sent ((m >>= f) env w).1.trace ≡ sent (m env w).1.trace
unfolding ◌>>=◌
bind-sent m f env w qf = follow-sent m f raise env w qf (λ e ms. search keeps_rules)

now-sent :
    {B : Type 0} (f : ℕ → Go WorkflowRun B) (messages : List (Text × Text)) (env : Env)
    (w : World WorkflowRun)
    → ((n : ℕ) (w' : World WorkflowRun) → sent (f n env w').1.trace ≡ sent w'.trace ++ messages)
    → sent ((now >>= f) env w).1.trace ≡ sent w.trace ++ messages
unfolding now ◌>>=◌
now-sent f messages env w sends = sends _ _

execute_regular_action-sent :
    (action : Action) (signal : Signal) (run_context : Fields) (i : ℕ) (log : ActionLog) (env : Env)
    (w : World WorkflowRun)
    → sent (execute_regular_action action signal run_context i log env w).1.trace
      ≡ sent w.trace ++ messages_of env signal run_context action
unfolding execute_regular_action
execute_regular_action-sent action signal run_context i log env w = now-sent _ _ env w λ _ w'.
    bind-sent _ _ env w' (λ outcome ms.
      Keeps-bind _ _ (Frames.now-Keeps (sent-Ignores ms)) λ _. finish-IsQuiet outcome i log _ ms)
    ∙ attempt-sent _ env w'
    ∙ execute-sent action signal run_context env w'

execute_delay_action-sent :
    (action : Action) (signal : Signal) (run_context : Fields) (i : ℕ) (log : ActionLog) (env : Env)
    (w : World WorkflowRun)
    → sent (execute_delay_action action signal run_context i log env w).1.trace
      ≡ sent w.trace ++ messages_of env signal run_context action
unfolding execute_delay_action
execute_delay_action-sent action signal run_context i log env w =
    bind-sent _ _ env w (λ _ ms.
      let ign = sent-Ignores ms in
      Keeps-bind _ _
        (Keeps-wrapping _ _
          (save_after-Keeps ign _ (Frames.set_action_scheduled_status-Keeps ign (pos i))))
        λ _.
          search
            (
              keeps_rules,
              Frames.now-Keeps ign,
              Frames.mark_scheduled-Keeps ign,
              Frames.update_log-Keeps ign,
            )
            depth 20)
    ∙ execute-sent action signal run_context env w

-- A call that has been reached sends the messages of its action, and pauses the run for a delay only.
abbrev pub HasRun :
    Env
    → Signal
    → Fields
    → Action
    → ActionType
    → World WorkflowRun
    → Exit Bool × World WorkflowRun
    → Type 0
HasRun env signal run_context action type w (r, w') =
    (sent w'.trace ≡ sent w.trace ++ messages_of env signal run_context action)
    × (r ≡ returned true → type ≡ delay)

bind_false-exit :
    (m : Go WorkflowRun (Unit {0})) (env : Env) (w : World WorkflowRun)
    → ((m >>= λ _. pure false) env w).0 ≡ returned true
    → ⊥
unfolding ◌>>=◌
bind_false-exit m env w h = ground arith

regular-HasRun :
    (action : Action) (signal : Signal) (run_context : Fields) (i : ℕ) (log : ActionLog) (env : Env)
    (w : World WorkflowRun) (type : ActionType)
    → HasRun env signal run_context action type w
        ((execute_regular_action action signal run_context i log >>= λ _. pure false) env w)
regular-HasRun action signal run_context i log env w type = (
  bind-sent _ _ env w (λ a ms. Keeps-pure _)
      ∙ execute_regular_action-sent action signal run_context i log env w,
  λ h. absurd (bind_false-exit _ env w h),
)

execute_by_type-HasRun :
    (action : Action) (signal : Signal) (run_context : Fields) (i : ℕ) (log : ActionLog) (env : Env)
    (w : World WorkflowRun) (type : ActionType)
    → HasRun env signal run_context action type w
        (execute_by_type type action signal run_context i log env w)
unfolding execute_by_type
execute_by_type-HasRun action signal run_context i log env w delay =
    (execute_delay_action-sent action signal run_context i log env w, λ _. refl)
execute_by_type-HasRun action signal run_context i log env w slack =
    regular-HasRun action signal run_context i log env w slack
execute_by_type-HasRun action signal run_context i log env w webhook =
    regular-HasRun action signal run_context i log env w webhook
execute_by_type-HasRun action signal run_context i log env w (ActionType.unknown name) =
    regular-HasRun action signal run_context i log env w (ActionType.unknown name)

-- How an action of a run ends: before its execution, with nothing sent, or after it.
abbrev pub HasRunOrNot :
    Env → Signal → Fields → Action → World WorkflowRun → Exit Bool × World WorkflowRun → Type 0
HasRunOrNot env signal run_context action w (r, w') =
    (((b : Bool) → r ≡ returned b → ⊥) × (sent w'.trace ≡ sent w.trace))
    ⊎ HasRun env signal run_context action action.type w (r, w')

prepared-HasRunOrNot :
    (r : Exit ActionLog) (action : Action) (signal : Signal) (run_context : Fields) (i : ℕ)
    (env : Env) (w w' : World WorkflowRun)
    → sent w'.trace ≡ sent w.trace
    → HasRunOrNot env signal run_context action w
        (continue r (execute_by_type action.type action signal run_context i) raise env w')
unfolding raise
prepared-HasRunOrNot (returned log) action signal run_context i env w w' same =
    let (sends, pauses) =
      execute_by_type-HasRun action signal run_context i log env w' action.type in
    inr (sends ∙ ap (λ s. s ++ messages_of env signal run_context action) same, pauses)
prepared-HasRunOrNot (errored e) action signal run_context i env w w' same =
    inl ((λ b h. ground arith), same)
prepared-HasRunOrNot panicked action signal run_context i env w w' same =
    inl ((λ b h. ground arith), same)

pub execute_single_action-HasRunOrNot :
    (action : Action) (signal : Signal) (run_context : Fields) (i : ℕ) (env : Env)
    (w : World WorkflowRun)
    → HasRunOrNot env signal run_context action w
        (execute_single_action action signal run_context i env w)
unfolding execute_single_action ◌>>=◌
execute_single_action-HasRunOrNot action signal run_context i env w =
    prepared-HasRunOrNot (prepare_action action i env w).0 action signal run_context i env w _
      ((prepare_action-Keeps (sent-Ignores (sent w.trace)) action i).at env w refl)
