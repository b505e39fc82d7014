-- ===== src/Consumer.antt =====
-- internal/consumer/executor_queue: the messages of the executor queue and what a worker does with
-- one.
use dahlia.Common.{ℤ, Bool, true, false, [], ◌∷◌, Text, codes, is_empty, if◌then◌else◌}
use dahlia.Errors.{Result, ok, err, is_optimistic_lock_error}
use dahlia.Domain.{string, int, Fields}
use dahlia.Scheduler.{sqs_send}
use dahlia.Runtime.{Go, pure, lift, ask, attempt, wrapping, ◌>>=◌}
use dahlia.WorkflowExecutor

pub record ExecutorMessage : Type 0 where
  pub signal_id : Text
  pub workflow_id : Text
  pub workflow_version : ℤ
  pub run_id : Text
  pub resume_from : Text

-- The JSON object of a message; resume_from has omitempty.
pub message_fields : ExecutorMessage → Fields
message_fields m =
    let last : Fields =
      if is_empty m.resume_from then [] else (codes "resume_from", string m.resume_from) ∷ [] in
    (codes "signal_id", string m.signal_id)
    ∷ (codes "workflow_id", string m.workflow_id)
    ∷ (codes "workflow_version", int m.workflow_version)
    ∷ (codes "run_id", string m.run_id)
    ∷ last

module _ {S : Type 0} where
  -- Send of internal/queue/sqs/sqs_queue.go
  unfoldable pub send_message : ExecutorMessage → Go S (Unit {0})
  send_message message = do
    body ←
        wrapping "failed to marshal message"
          (ask (λ env. lift (env.marshal_json (message_fields message))))
    wrapping "failed to send message" (ask (λ env. sqs_send env.executor_queue_url body))

  -- true: the message is deleted; false: it is delivered again. Both kinds of error are retried.
  pub verdict : Result (Unit {0}) → Go S Bool
  verdict (ok _) = pure true
  verdict (err e) = elim (is_optimistic_lock_error e) [ true ↦ pure false | false ↦ pure false ]

  pub process_message : ExecutorMessage → Go S Bool
  process_message message = do
    outcome ← attempt (
        WorkflowExecutor.execute message.signal_id message.workflow_id message.workflow_version
          message.run_id message.resume_from)
    verdict outcome
