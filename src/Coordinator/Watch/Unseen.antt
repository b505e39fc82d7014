-- ===== src/Coordinator/Watch/Unseen.antt =====
-- startWatch and the changes of its node that come while no watch is set: while the handler runs, and
-- before GetW is called again.
use dahlia.Common.{
  ℕ, zero, suc, ◌<◌, Bool, true, false, ◌∷◌, ◌≡◌, ◌≢◌, refl, ap, ◌∙◌, Text, if◌then◌else◌, arith,
}
use dahlia.Errors.{Result, ok, err}
use dahlia.Runtime.{
  Event, Trace, Env, World, Exit, errored, panicked, continue, raise, Waited, done, channel_closed,
  event, zk_watched, zk_waited, Go, pure, returned, ◌>>=◌,
}
use dahlia.Coordinator.{Coordinator, is_no_node}
use dahlia.Coordinator.Watch.{
  sleep_seconds, after_wait, after_watch, set_watch, watch_round, start_watch,
}

-- the traces that grow out of a trace
pub data Since (t : Trace) : Trace → Type 0 where
  now : Since t t
  later : {u : Trace} (e : Event) → Since t u → Since t (e ∷ u)

-- A watch of ZooKeeper that GetW has set tells of changed data only if the node has changed since:
-- `version` is the number of its changes, by whomever, when the calls of a trace have returned.
abbrev pub WatchesFromNow : Env → Text → (Trace → ℕ) → Type 0
WatchesFromNow env path version =
    (t : Trace) (p : Text)
    → env.zk_wait (zk_watched path ∷ t) path ≡ event p true
    → version (zk_watched path ∷ t) < version (zk_waited ∷ zk_watched path ∷ t)

-- the node does not change any more
abbrev pub IsLastVersion : (Trace → ℕ) → Trace → Type 0
IsLastVersion version t = (u : Trace) → Since t u → version u ≡ version t

module _ (env : Env) (path : Text) (version : Trace → ℕ) (fires : WatchesFromNow env path version)
    (t : Trace) (last : IsLastVersion version t)
    (handler other : Text → Go Coordinator (Unit {0})) where
  -- a part of the loop that ends the same with both handlers, and with calls only added
  Agree : (with_handler with_other : Go Coordinator Bool) → World Coordinator → Type 0
  Agree m m' w = (m env w ≡ m' env w) × Since t (m env w).1.trace

  no_event :
      (u : Trace) (p : Text) → Since t u → env.zk_wait (zk_watched path ∷ u) path ≢ event p true
  no_event u p since told =
      let before = last _ (later (zk_watched path) since) in
      let after = last _ (later zk_waited (later (zk_watched path) since)) in
      absurd (ground (arith, fires u p told))

  after_wait-Agree :
      (waited : Waited) (w : World Coordinator)
      → ((p : Text) → waited ≢ event p true)
      → Since t w.trace
      → Agree (after_wait handler waited) (after_wait other waited) w
  unfolding Agree after_wait sleep_seconds ◌>>=◌
  after_wait-Agree done w silent since = (refl, since)
  after_wait-Agree channel_closed w silent since = (refl, later _ since)
  after_wait-Agree (event p false) w silent since = (refl, since)
  after_wait-Agree (event p true) w silent since = absurd (silent p refl)

  sleep-Agree :
      (b : Bool) (w : World Coordinator)
      → Since t w.trace
      → Since t ((if b then sleep_seconds 5 else sleep_seconds 1) env w).1.trace
  unfolding sleep_seconds ◌>>=◌
  sleep-Agree true w since = later _ since
  sleep-Agree false w since = later _ since

  after_watch-Agree :
      (outcome : Result (Unit {0})) (w : World Coordinator)
      → Since t w.trace
      → Agree
          (after_watch handler path outcome)
          (after_watch other path outcome)
          (record w { trace = zk_watched path ∷ w.trace })
  unfolding Agree after_watch ◌>>=◌
  after_watch-Agree (err e) w since = (refl, sleep-Agree (is_no_node e) _ (later _ since))
  after_watch-Agree (ok _) w since =
      after_wait-Agree (env.zk_wait (zk_watched path ∷ w.trace) path)
        (record w { trace = zk_waited ∷ zk_watched path ∷ w.trace }) (λ p. no_event w.trace p since)
        (later _ (later _ since))

  set_watch-Agree :
      (w : World Coordinator)
      → Since t w.trace
      → Agree (set_watch handler path) (set_watch other path) w
  unfolding Agree set_watch ◌>>=◌
  set_watch-Agree w since = after_watch-Agree (env.zk_get_w w.trace path) w since

  turn-Agree :
      (cancelled connected : Bool) (w : World Coordinator)
      → Since t w.trace
      → Agree
          (if cancelled
            then pure false
            else if connected
            then set_watch handler path
            else sleep_seconds 1)
          (if cancelled
            then pure false
            else if connected
            then set_watch other path
            else sleep_seconds 1)
          w
  unfolding Agree sleep_seconds ◌>>=◌
  turn-Agree true connected w since = (refl, since)
  turn-Agree false true w since = set_watch-Agree w since
  turn-Agree false false w since = (refl, later _ since)

  watch_round-Agree :
      (w : World Coordinator)
      → Since t w.trace
      → Agree (watch_round handler path) (watch_round other path) w
  unfolding Agree watch_round ◌>>=◌
  watch_round-Agree w since = turn-Agree w.local.cancelled w.local.connected w since

  start_watch-same :
      (rounds : ℕ) (w : World Coordinator)
      → Since t w.trace
      → start_watch handler rounds path env w ≡ start_watch other rounds path env w
  unfolding Agree start_watch ◌>>=◌
  start_watch-same zero w since = refl
  start_watch-same (suc rounds) w since =
      let (same, since') = watch_round-Agree w since in
      goes_on (start_watch-same rounds) (watch_round handler path env w) since'
      ∙ ap (λ r. after r other) same
    where
      after :
          Exit Bool × World Coordinator
          → (Text → Go Coordinator (Unit {0}))
          → Exit (Unit {0}) × World Coordinator
      after (r, w') h =
          continue r (λ again. if again then start_watch h rounds path else pure tt) raise env w'

      goes_on :
          ((w' : World Coordinator)
            → Since t w'.trace
            → start_watch handler rounds path env w' ≡ start_watch other rounds path env w')
          → (r : Exit Bool × World Coordinator) → Since t r.1.trace
          → after r handler ≡ after r other
      goes_on rest (returned true, w') later_on = rest w' later_on
      goes_on rest (returned false, w') later_on = refl
      goes_on rest (errored e, w') later_on = refl
      goes_on rest (panicked, w') later_on = refl

-- A watch hands on only what changes after its GetW. If the node changes no more from the start of a
-- turn of the loop on, the loop does from there on, for any number of turns, the same whatever its
-- handler is: a change that came before that turn, such as one while the handler ran, is not handed to
-- the handler.
pub start_watch-unseen :
    (env : Env) (path : Text) (version : Trace → ℕ)
    (handler other : Text → Go Coordinator (Unit {0})) (rounds : ℕ) (w : World Coordinator)
    → WatchesFromNow env path version
    → IsLastVersion version w.trace
    → start_watch handler rounds path env w ≡ start_watch other rounds path env w
start_watch-unseen env path version handler other rounds w fires last =
    start_watch-same env path version fires w.trace last handler other rounds w now
