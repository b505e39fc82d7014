-- ===== src/Coordinator/Watch.antt =====
-- startWatch of internal/coordinator/zk/zk_coordinator.go: one turn of its loop, and as many turns as
-- `rounds` says. The watch is set anew in each turn; the data that GetW returns is not looked at.
pub mod Unseen
use dahlia.Common.{ℕ, zero, suc, pos, Bool, true, false, Text, if◌then◌else◌, ◌*◌}
use dahlia.Errors.{Result, ok, err}
use dahlia.Runtime.{
  zk_watched, zk_waited, slept, Waited, done, channel_closed, event, Go, pure, get, call, attempt,
  ◌>>=◌, ◌>>◌,
}
use dahlia.Coordinator.{Coordinator, is_no_node, read_node}

-- time.Sleep, and then the next turn
unfoldable pub sleep_seconds : ℕ → Go Coordinator Bool
sleep_seconds n = call (λ _ _. true) (λ _. slept (pos (n * 1000000000)))

module _ (handler : Text → Go Coordinator (Unit {0})) where
  changed : Result Text → Go Coordinator Bool
  changed (err e) = pure true
  changed (ok bytes) = do handler bytes; pure true

  read_bytes : Text → Go Coordinator Text
  read_bytes path = do (bytes, _) ← read_node path; pure bytes

  -- false: the context is cancelled
  unfoldable pub after_wait : Waited → Go Coordinator Bool
  unfolding sleep_seconds changed read_bytes
  after_wait done = pure false
  after_wait channel_closed = sleep_seconds 1
  after_wait (event path false) = pure true
  after_wait (event path true) = do result ← attempt (read_bytes path); changed result

  unfoldable pub after_watch : Text → Result (Unit {0}) → Go Coordinator Bool
  unfolding after_wait sleep_seconds is_no_node
  after_watch path (err e) = if is_no_node e then sleep_seconds 5 else sleep_seconds 1
  after_watch path (ok _) = do
    waited ← call (λ env t. env.zk_wait t path) (λ _. zk_waited)
    after_wait waited

  set_watch : Text → Go Coordinator Bool
  unfolding after_watch
  set_watch path = do
    outcome ← call (λ env t. env.zk_get_w t path) (λ _. zk_watched path)
    after_watch path outcome

  unfoldable pub watch_round : Text → Go Coordinator Bool
  unfolding set_watch sleep_seconds
  watch_round path = do
    c ← get
    if c.cancelled then pure false else if c.connected then set_watch path else sleep_seconds 1

  unfoldable pub start_watch : (rounds : ℕ) → Text → Go Coordinator (Unit {0})
  unfolding watch_round
  start_watch zero path = pure tt
  start_watch (suc rounds) path = do
    again ← watch_round path
    let rest : Go Coordinator (Unit {0}) = start_watch rounds path
    if again then rest else pure tt
