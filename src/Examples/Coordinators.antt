-- ===== src/Examples/Coordinators.antt =====
-- The coordinator.
use dahlia.Common.{ℕ, ◌<◌, ◌∷◌, true, false, some, [], Text, codes, ◌≡◌, refl, ◌⊎◌, arith}
use dahlia.Errors.{Error}
use dahlia.Runtime.{
  returned, errored, panicked, Trace, Env, World, Waited, channel_closed, event, zk_watched,
  zk_waited, pure,
}
use dahlia.Coordinator.{handle_refresh_trigger, Coordinator, ensure_parent_path, upsert_node}
use dahlia.Coordinator.Parents.{Ensured, ensure_parent_path_lem}
use dahlia.Coordinator.Written.{Written, Stays, upsert_node_lem}
use dahlia.Coordinator.Reconnect.{
  dialed, expired, needs_reconnect, event, lock, try, dial, enter, System, set_pc, pick, Reach,
  here, next, init,
}
use dahlia.Coordinator.Reconnect.Stuck.{reconnect_stuck}
use dahlia.Coordinator.Watch.{start_watch}
use dahlia.Coordinator.Watch.Unseen.{Since, now, later, start_watch-unseen}
use dahlia.WorkflowManager.Watched.{run_handler}
use dahlia.Examples.Setting.{accepting, start}

abbrev pub fresh : Coordinator
fresh = record { connected = true; watches = []; cancelled = false }

pub accepting-Stays : (path bytes : Text) → Stays accepting path bytes
accepting-Stays path bytes = record { there = λ t h e. ground arith }

ensure_parent_path_lem_example :
    let (r, w') = ensure_parent_path 5 (codes "/a/b") accepting (start fresh) in
    ((fresh.connected ≡ true)
      × (((r ≡ returned tt) × Ensured accepting (codes "/a/b") [] w'.trace)
          ⊎ ((e : Error) × (r ≡ errored e))))
    ⊎ ((fresh.connected ≡ false) × (((codes "a/b" ≡ []) × (r ≡ returned tt)) ⊎ (r ≡ panicked)))
ensure_parent_path_lem_example =
    ensure_parent_path_lem accepting (codes "a/b") 5 (start fresh) (omega arith)

upsert_node_lem_example :
    let (r, w') = upsert_node 1 (codes "/a") (codes "1") accepting (start fresh) in
    ((r ≡ returned tt) × Written accepting (codes "/a") (codes "1") w'.trace)
    ⊎ ((e : Error) × (r ≡ errored e))
upsert_node_lem_example =
    upsert_node_lem accepting (codes "a") (codes "1") 0 (start fresh)
      (accepting-Stays (codes "/a") (codes "1"))

record Redialed : Type 0 where
  before : System
  after : System
  reach : Reach init before
  stuck : before.pc 0 ≡ dialed 1
  later : Reach before after

-- goroutine 0 reconnects while goroutine 1 enters an operation, and then goroutine 2 does
abbrev redialed : Redialed
unfolding set_pc needs_reconnect
redialed = record {
  before = _;
  after = _;
  reach =
      next
        (next
          (next (next (next here (pick 0 (event expired refl))) (pick 0 (lock refl)))
            (pick 0 (try refl (omega arith))))
          (pick 0 dial))
        (pick 1 enter);
  stuck = refl;
  later = next here (pick 2 enter);
}

reconnect_stuck_example :
    (redialed.after.mem.owner ≡ some 0)
    × (redialed.after.mem.connected ≡ false)
    × (redialed.after.pc 0 ≡ dialed 1)
    × (redialed.after.pc 1 ≡ redialed.before.pc 1)
unfolding set_pc needs_reconnect
reconnect_stuck_example = reconnect_stuck 0 1 1 redialed.reach redialed.stuck refl redialed.later

-- a node that changes once, while it is first waited for
abbrev changed_once : Trace → Text → Waited
changed_once (_ ∷ []) path = event path true
changed_once _ path = channel_closed

abbrev changes : Trace → ℕ
changes [] = 0
changes (_ ∷ []) = 1
changes (_ ∷ _ ∷ _) = 2

abbrev after_change : World Coordinator
after_change = record (start fresh) { trace = zk_waited ∷ zk_watched (codes "/n") ∷ [] }

no_more_changes : (u : Trace) → Since after_change.trace u → changes u ≡ changes after_change.trace
no_more_changes _ now = refl
no_more_changes _ (later e now) = refl
no_more_changes _ (later e (later e' since)) = refl

told_of_change :
    (t : Trace) (p : Text)
    → changed_once (zk_watched (codes "/n") ∷ t) (codes "/n") ≡ event p true
    → changes (zk_watched (codes "/n") ∷ t) < changes (zk_waited ∷ zk_watched (codes "/n") ∷ t)
told_of_change [] p told = omega arith
told_of_change (e ∷ t) p told = ground arith

abbrev quiet : Env
quiet = record accepting { zk_wait = changed_once }

start_watch-unseen_example :
    start_watch (run_handler handle_refresh_trigger) 2 (codes "/n") quiet after_change
    ≡ start_watch (λ bytes. pure tt) 2 (codes "/n") quiet after_change
start_watch-unseen_example =
    start_watch-unseen quiet (codes "/n") changes (run_handler handle_refresh_trigger)
      (λ bytes. pure tt) 2 after_change told_of_change no_more_changes
