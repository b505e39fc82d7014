-- ===== src/Queue/Handled.antt =====
-- A batch of messages, and the life of a consumer.
use mathlib.Core.Path.{subst}
use dahlia.Common.{
  Bool, true, false, Option, none, some, List, [], ◌∷◌, Text, ◌≡◌, ◌≢◌, refl, sym, ap, All,
  if◌then◌else◌,
}
use dahlia.Errors.{Error, Result, ok, err}
use dahlia.Runtime.{
  Env, World, Exit, returned, QueueMessage, sqs_deleted, looked_at_stop, Go, ◌>>=◌, ◌>>◌, pure,
  call,
}
use dahlia.Runtime.Steps.{bind-returned}
use dahlia.Runtime.Returns.{Returns}
use dahlia.Queue.{
  QueueConfig, delete_message, finish, deliver, process_body, process_message, process_batch,
  look_at_stop,
}

module _ {S M : Type 0} (config : QueueConfig) (decode : Text → Result M) (process : M → Go S Bool)
    (env : Env) where
  -- the world after a request to delete the message
  abbrev deleted : QueueMessage → World S → World S
  deleted msg w = record w {
    trace =
        sqs_deleted config.queue_url msg.receipt_handle
          (env.sqs_delete w.trace config.queue_url msg.receipt_handle)
        ∷ w.trace;
  }

  abbrev looked : Bool → World S → World S
  looked stop w = record w { trace = looked_at_stop stop ∷ w.trace }

  -- What happens to one message.
  pub data Handled (msg : QueueMessage) (w : World S) : World S → Type 0 where
    undecodable :
        {body : Text} {e : Error}
        → msg.body ≡ some body
        → decode body ≡ err e
        → Handled msg w (deleted msg w)
    acknowledged :
        {body : Text} {message : M} {w' : World S}
        → msg.body ≡ some body
        → decode body ≡ ok message
        → process message env w ≡ (returned true, w')
        → Handled msg w (deleted msg w')
    left :
        {body : Text} {message : M} {w' : World S}
        → msg.body ≡ some body
        → decode body ≡ ok message
        → process message env w ≡ (returned false, w')
        → Handled msg w w'

  -- What happens to the messages of a batch, in their order.
  pub data IsBatch : List QueueMessage → World S → World S → Type 0 where
    ended : {w : World S} → IsBatch [] w w
    stopped :
        {msg : QueueMessage} {msgs : List QueueMessage} {w : World S}
        → env.stop_closed w.trace ≡ true
        → IsBatch (msg ∷ msgs) w (looked true w)
    next :
        {msg : QueueMessage} {msgs : List QueueMessage} {w w₁ w₂ : World S}
        → env.stop_closed w.trace ≡ false
        → Handled msg (looked false w) w₁
        → IsBatch msgs w₁ w₂
        → IsBatch (msg ∷ msgs) w w₂

  delete-deleted :
      (msg : QueueMessage) (w : World S) (outcome : Option Error)
      → env.sqs_delete w.trace config.queue_url msg.receipt_handle ≡ outcome
      → delete_message config msg env w ≡ (returned tt, deleted msg w)
  unfolding delete_message ◌>>=◌
  delete-deleted msg w none h = rw h refl
  delete-deleted msg w (some e) h = rw h refl

  abbrev Ends : QueueMessage → World S → Exit (Unit {0}) × World S → Type 0
  Ends msg w (r, w') = (r ≡ returned tt) × Handled msg w w'

  finish-Ends :
      (msg : QueueMessage) (body : Text) (message : M) (success : Bool) (w w₁ : World S)
      → msg.body ≡ some body
      → decode body ≡ ok message
      → process message env w ≡ (returned success, w₁)
      → Ends msg w (finish config decode process msg success env w₁)
  unfolding finish pure
  finish-Ends msg body message true w w₁ h k p =
      subst (Ends msg w) (sym (delete-deleted msg w₁ _ refl)) (refl, acknowledged h k p)
  finish-Ends msg body message false w w₁ h k p = (refl, left h k p)

  deliver-Ends :
      (msg : QueueMessage) (body : Text) (m : Result M) (w : World S)
      → msg.body ≡ some body
      → decode body ≡ m
      → ((message : M) → Returns env (process message))
      → Ends msg w (deliver config decode process msg m env w)
  unfolding deliver
  deliver-Ends msg body (err e) w h k returns =
      subst (Ends msg w) (sym (delete-deleted msg w _ refl)) (refl, undecodable h k)
  deliver-Ends msg body (ok message) w h k returns =
      let (success, answer) = (returns message).at w in
      let p = ap (λ e. (e, (process message env w).1)) answer in
      subst (Ends msg w)
        (sym (bind-returned (process message) _ env w (process message env w).1 success p))
        (finish-Ends msg body message success w _ h k p)

  process-Ends :
      (msg : QueueMessage) (body : Option Text) (w : World S)
      → msg.body ≡ body
      → body ≢ none
      → ((message : M) → Returns env (process message))
      → Ends msg w (process_body config decode process msg body env w)
  unfolding process_body
  process-Ends msg none w h some_body returns = absurd (some_body refl)
  process-Ends msg (some body) w h some_body returns = deliver-Ends msg body _ w h refl returns

  abbrev EndsBatch : List QueueMessage → World S → Exit (Unit {0}) × World S → Type 0
  EndsBatch msgs w (r, w') = (r ≡ returned tt) × IsBatch msgs w w'

  look-looked :
      (w : World S)
      → look_at_stop env w
        ≡ (returned (env.stop_closed w.trace), looked (env.stop_closed w.trace) w)
  unfolding look_at_stop call
  look-looked w = refl

  next-Ends :
      (msg : QueueMessage) (msgs : List QueueMessage) (w : World S)
      → env.stop_closed w.trace ≡ false
      → Ends msg (looked false w) (process_message config decode process msg env (looked false w))
      → ((w' : World S) → EndsBatch msgs w' (process_batch config decode process msgs env w'))
      → EndsBatch (msg ∷ msgs) w (
          (process_message config decode process msg >> process_batch config decode process msgs)
            env
            (looked false w))
  next-Ends msg msgs w open' (returned', handled) rest =
      let one = process_message config decode process msg in
      let w₁ = (one env (looked false w)).1 in
      let (r, batch) = rest w₁ in
      subst (EndsBatch (msg ∷ msgs) w)
        (sym (bind-returned one _ env (looked false w) w₁ tt (ap (λ r. (r, w₁)) returned')))
        (r, next open' handled batch)

  look-Ends :
      (msg : QueueMessage) (msgs : List QueueMessage) (w : World S) (stop : Bool)
      → env.stop_closed w.trace ≡ stop
      → msg.body ≢ none
      → ((message : M) → Returns env (process message))
      → ((w' : World S) → EndsBatch msgs w' (process_batch config decode process msgs env w'))
      → EndsBatch (msg ∷ msgs) w (
          (if stop
              then pure tt
              else process_message config decode process msg
                >> process_batch config decode process msgs)
            env
            (looked stop w))
  unfolding process_message pure
  look-Ends msg msgs w true h body returns rest = (refl, stopped h)
  look-Ends msg msgs w false h body returns rest =
      next-Ends msg msgs w h (process-Ends msg _ (looked false w) refl body returns) rest

  batch-Ends :
      (msg : QueueMessage) (msgs : List QueueMessage) (w : World S)
      → msg.body ≢ none
      → ((message : M) → Returns env (process message))
      → ((w' : World S) → EndsBatch msgs w' (process_batch config decode process msgs env w'))
      → EndsBatch (msg ∷ msgs) w (process_batch config decode process (msg ∷ msgs) env w)
  unfolding process_batch
  batch-Ends msg msgs w body returns rest =
      subst (EndsBatch (msg ∷ msgs) w)
        (sym (bind-returned look_at_stop _ env w _ (env.stop_closed w.trace) (look-looked w)))
        (look-Ends msg msgs w _ refl body returns rest)

-- If the processor always returns and each message has a body, a batch is worked off to its end, or to
-- the moment when the stop channel is seen closed: its messages are handled one after the other, and
-- a message is deleted only after its processor has returned true, or if it cannot be decoded.
pub process_batch_lem :
    {S M : Type 0} (config : QueueConfig) (decode : Text → Result M) (process : M → Go S Bool)
    (env : Env) (msgs : List QueueMessage) (w : World S)
    → All (λ (msg : QueueMessage). msg.body ≢ none) msgs
    → ((message : M) → Returns env (process message))
    → let (r, w') = process_batch config decode process msgs env w in
      (r ≡ returned tt) × IsBatch config decode process env msgs w w'
unfolding process_batch pure
process_batch_lem config decode process env [] w bodies returns = (refl, ended)
process_batch_lem config decode process env (msg ∷ msgs) w (body, bodies) returns =
    batch-Ends config decode process env msg msgs w body returns
      (λ w'. process_batch_lem config decode process env msgs w' bodies returns)
