-- ===== src/Queue/Restarts.antt =====
-- Starting and stopping a consumer, more than once.
use dahlia.Common.{false, ◌≡◌, refl, []}
use dahlia.Errors.{errorf}
use dahlia.Runtime.{Env, World, returned, errored, panicked, ◌>>=◌, ◌>>◌}
use dahlia.Queue.{QueueConfig, Consumer, start_consumer, stop_consumer}

-- A consumer that does not run and has never been stopped can be started, stopped and started again;
-- a second start while it runs is refused with an error, and a second stop panics.
pub start_stop_lem :
    (config : QueueConfig) (env : Env) (w : World Consumer)
    → w.local.running ≡ false
    → w.local.stopped ≡ false
    → (((start_consumer config >> start_consumer config) env w).0
        ≡ errored (errorf "consumer already running" []))
      × (((start_consumer config >> stop_consumer) env w).0 ≡ returned tt)
      × (((start_consumer config >> stop_consumer >> start_consumer config) env w).0 ≡ returned tt)
      × (((start_consumer config >> stop_consumer >> start_consumer config >> stop_consumer) env
            w).0
          ≡ panicked)
unfolding start_consumer stop_consumer ◌>>=◌
start_stop_lem config env w h k = rw (h, k) (refl, refl, refl, refl)
