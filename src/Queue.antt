-- ===== src/Queue.antt =====
-- internal/queue/sqs/sqs_queue.go: the consumer of an SQS queue, for any processor of its messages. A
-- worker loops until the stop channel is closed; `rounds` bounds its loop. Each look at the channel is
-- answered by the environment, which may close it at any moment. Send is in Consumer.
pub mod Handled
pub mod Restarts
use dahlia.Common.{
  ℕ, zero, suc, ℤ, pos, negsuc, Bool, true, false, Option, none, some, List, [], ◌∷◌, Text,
  if◌then◌else◌,
}
use dahlia.Errors.{Error, errorf, Result, ok, err}
use dahlia.Runtime.{
  QueueMessage, sqs_received, sqs_deleted, looked_at_stop, slept, Go, pure, raise, panic, get,
  modify, call, of_option, ignore, ◌>>=◌, ◌>>◌,
}

pub record QueueConfig : Type 0 where
  pub queue_url : Text
  pub worker_count : ℤ
  pub max_messages : ℤ
  pub wait_time_seconds : ℤ

-- config.X <= 0
or_default : ℤ → ℤ → ℤ
or_default default (pos zero) = default
or_default default (negsuc n) = default
or_default default (pos (suc n)) = pos (suc n)

-- the configuration that NewSQSQueue keeps
unfoldable pub with_defaults : QueueConfig → QueueConfig
unfolding or_default
with_defaults config = record {
  queue_url = config.queue_url;
  worker_count = or_default (pos 5) config.worker_count;
  max_messages = or_default (pos 1) config.max_messages;
  wait_time_seconds = or_default (pos 20) config.wait_time_seconds;
}

unfoldable pub text_of : Option Text → Text
text_of none = []
text_of (some s) = s

-- Body, ReceiptHandle and MessageID of sqsMessage
unfoldable pub message_texts : QueueMessage → Text × Text × Text
unfolding text_of
message_texts message =
    (text_of message.body, text_of message.receipt_handle, text_of message.message_id)

-- the fields of SQSQueue that StartConsumer and StopConsumer change: whether it runs, how many workers
-- it has started, and whether stopCh is closed, which nothing opens again
pub record Consumer : Type 0 where
  pub running : Bool
  pub workers : ℤ
  pub stopped : Bool

started : ℤ → Consumer → Go Consumer (Unit {0})
started worker_count c =
    if c.running
    then raise (errorf "consumer already running" [])
    else modify (λ c. record c { running = true; workers = worker_count })

unfoldable pub start_consumer : QueueConfig → Go Consumer (Unit {0})
unfolding started
start_consumer config = do c ← get; started config.worker_count c

-- closing a channel that is closed panics; the workers end before wg.Wait returns
stopping : Consumer → Go Consumer (Unit {0})
stopping c =
    if c.running
    then (if c.stopped
        then panic
        else modify (λ c. record c { running = false; workers = pos 0; stopped = true }))
    else raise (errorf "consumer not running" [])

unfoldable pub stop_consumer : Go Consumer (Unit {0})
unfolding stopping
stop_consumer = do c ← get; stopping c

module _ {S : Type 0} where
  unfoldable pub look_at_stop : Go S Bool
  look_at_stop = call (λ env t. env.stop_closed t) looked_at_stop

  -- time.Sleep(1 * time.Second)
  unfoldable pub sleep_second : Go S (Unit {0})
  sleep_second = call (λ _ _. tt) (λ _. slept (pos 1000000000))

  -- a failure is logged
  unfoldable pub delete_message : QueueConfig → QueueMessage → Go S (Unit {0})
  delete_message config msg = ignore (do
    outcome ←
        call (λ env t. env.sqs_delete t config.queue_url msg.receipt_handle)
          (sqs_deleted config.queue_url msg.receipt_handle)
    of_option outcome)

  unfoldable pub receive : QueueConfig → Go S (Result (List QueueMessage))
  receive config =
      call
        (λ env t. env.sqs_receive t config.queue_url config.max_messages config.wait_time_seconds)
        (λ _. sqs_received config.queue_url config.max_messages config.wait_time_seconds)

module _ {S M : Type 0} (config : QueueConfig) (decode : Text → Result M)
    (process : M → Go S Bool) where
  finish : QueueMessage → Bool → Go S (Unit {0})
  unfolding delete_message
  finish msg success = if success then delete_message config msg else pure tt

  deliver : QueueMessage → Result M → Go S (Unit {0})
  unfolding finish
  deliver msg (err e) = delete_message config msg
  deliver msg (ok message) = do success ← process message; finish msg success

  -- *msg.Body of a nil body panics
  process_body : QueueMessage → Option Text → Go S (Unit {0})
  unfolding deliver
  process_body msg none = panic
  process_body msg (some body) = deliver msg (decode body)

  unfoldable pub process_message : QueueMessage → Go S (Unit {0})
  unfolding process_body
  process_message msg = process_body msg msg.body

  -- the loop over the messages of a batch
  unfoldable pub process_batch : List QueueMessage → Go S (Unit {0})
  unfolding process_message look_at_stop
  process_batch [] = pure tt
  process_batch (msg ∷ msgs) = do
    stop ← look_at_stop
    let rest : Go S (Unit {0}) = do process_message msg; process_batch msgs
    if stop then pure tt else rest

  unfoldable pub receive_failed : Go S (Unit {0})
  unfolding look_at_stop sleep_second
  receive_failed = do stop ← look_at_stop; if stop then pure tt else sleep_second

  received : Result (List QueueMessage) → Go S (Unit {0})
  unfolding process_batch receive_failed
  received (err e) = receive_failed
  received (ok msgs) = process_batch msgs

  unfoldable pub process_messages : Go S (Unit {0})
  unfolding receive received
  process_messages = do result ← receive config; received result

  -- true: the stop channel was seen closed; false: the rounds were used up
  unfoldable pub worker : (rounds : ℕ) → Go S Bool
  unfolding process_messages look_at_stop
  worker zero = pure false
  worker (suc rounds) = do
    stop ← look_at_stop
    let rest : Go S Bool = do process_messages; worker rounds
    if stop then pure true else rest
