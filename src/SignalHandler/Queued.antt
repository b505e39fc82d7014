-- ===== src/SignalHandler/Queued.antt =====
-- What a signal puts in the executor queue.
use dahlia.Common.{
  ℕ, suc, ◌+◌, ◌≤◌, ◌≡◌, refl, sym, ap, List, [], ◌∷◌, length, Option, none, some, Text, arith,
}
use dahlia.Errors.{Error, wrap, Result, ok, err}
use dahlia.Domain.{Workflow}
use dahlia.Runtime.{Env, World, Exit, returned, attempt, pure, ◌>>=◌}
use dahlia.Runtime.Steps.{bind-returned}
use mathlib.Core.Path.{subst}
use dahlia.Scheduler.{sqs_send}
use dahlia.Scheduler.Sending.{accepted}
use dahlia.Consumer.{ExecutorMessage, message_fields, send_message}
use dahlia.SignalHandler.{count_sent, queue_workflows}

-- the attempt to send a message, and the count after it
abbrev IsCounted : {S : Type 0} → ℕ → World S → Exit (Result (Unit {0})) × World S → Type 0
IsCounted count w (r, w') =
    (outcome : Result (Unit {0})) × (r ≡ returned outcome)
    × (count_sent outcome count + length (accepted w.trace) ≡ count + length (accepted w'.trace))
    × (count_sent outcome count ≤ suc count)

unmarshalled-IsCounted :
    {S : Type 0} (message : ExecutorMessage) (count : ℕ) (env : Env) (w : World S) (e : Error)
    → env.marshal_json (message_fields message) ≡ err e
    → IsCounted count w (attempt (send_message message) env w)
unfolding send_message count_sent ◌>>=◌
unmarshalled-IsCounted message count env w e h =
    (err (wrap "failed to marshal message" [] e), ground arith, ground arith, ground arith)

marshalled-IsCounted :
    {S : Type 0} (message : ExecutorMessage) (count : ℕ) (env : Env) (w : World S) (body : Text)
    (o : Option Error)
    → env.marshal_json (message_fields message) ≡ ok body
    → env.sqs_send w.trace env.executor_queue_url body ≡ o
    → IsCounted count w (attempt (send_message message) env w)
unfolding send_message sqs_send count_sent ◌>>=◌
marshalled-IsCounted message count env w body none h sends =
    (ok tt, ground arith, ground arith, ground arith)
marshalled-IsCounted message count env w body (some e) h sends =
    (err (wrap "failed to send message" [] e), ground arith, ground arith, ground arith)

send-IsCounted :
    {S : Type 0} (message : ExecutorMessage) (count : ℕ) (env : Env) (w : World S)
    (body : Result Text)
    → env.marshal_json (message_fields message) ≡ body
    → IsCounted count w (attempt (send_message message) env w)
send-IsCounted message count env w (ok body) h =
    marshalled-IsCounted message count env w body _ h refl
send-IsCounted message count env w (err e) h = unmarshalled-IsCounted message count env w e h

abbrev IsQueued : {S : Type 0} → ℕ → List Workflow → World S → Exit ℕ × World S → Type 0
IsQueued count workflows w (r, w') =
    (total : ℕ) × (r ≡ returned total)
    × (total + length (accepted w.trace) ≡ count + length (accepted w'.trace))
    × (total ≤ count + length workflows)

abbrev first_message : Text → Workflow → ExecutorMessage
first_message signal_id workflow = record {
  signal_id = signal_id;
  workflow_id = workflow.workflow_id;
  workflow_version = workflow.version;
  run_id = [];
  resume_from = [];
}

-- Queueing a message for each workflow of a list returns, whatever the outside answers: the count that
-- it returns has grown by the number of messages that the queue has accepted, which is at most the
-- number of the workflows.
pub queue_workflows_lem :
    {S : Type 0} (signal_id : Text) (workflows : List Workflow) (count : ℕ) (env : Env)
    (w : World S)
    → let (r, w') = queue_workflows signal_id workflows count env w in
      (total : ℕ) × (r ≡ returned total)
      × (total + length (accepted w.trace) ≡ count + length (accepted w'.trace))
      × (total ≤ count + length workflows)
unfolding queue_workflows pure
queue_workflows_lem signal_id [] count env w = (count, refl, refl, omega arith)
queue_workflows_lem signal_id (workflow ∷ workflows) count env w =
    let send = attempt (send_message (first_message signal_id workflow)) in
    let w' = (send env w).1 in
    let (outcome, exit, counted, small) =
      send-IsCounted (first_message signal_id workflow) count env w _ refl in
    let (total, done, grown, bound) =
      queue_workflows_lem signal_id workflows (count_sent outcome count) env w' in
    subst (λ p. IsQueued count (workflow ∷ workflows) w p)
      (sym (
        bind-returned send (λ sent. queue_workflows signal_id workflows (count_sent sent count)) env
          w w' outcome (ap (λ r. (r, w')) exit)))
      (total, done, omega arith, omega arith)
