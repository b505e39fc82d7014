-- ===== src/Coordinator/Reconnect/Stuck.antt =====
-- A reconnection that succeeds waits for the mutex that it holds.
use dahlia.Common.{
  ℕ, Bool, true, false, none, some, ◌≡◌, refl, ap, ◌∙◌, ◌⊎◌, inl, inr, ==_iff, arith,
}
use dahlia.Coordinator.Reconnect.{
  Shared, Pc, idle, checking, entering, closing, waiting, attempt, dialing, dialed, reconnected,
  Move, enter, read, leave, cancel, close, tick, unconnected, alive, session_lost, session, event,
  lock, stop, try, give_up, refused, dial, store, finish, System, set_pc, pick, Reach, here, next,
  init,
}

-- between the Lock of handleReconnect and its deferred Unlock
abbrev holding : Pc → Bool
holding (attempt _) = true
holding (dialing _) = true
holding (dialed _) = true
holding _ = false

abbrev is_reconnected : Pc → Bool
is_reconnected (reconnected _) = true
is_reconnected _ = false

-- before a Lock or RLock
abbrev pub waits : Pc → Bool
waits entering = true
waits checking = true
waits closing = true
waits waiting = true
waits (dialed _) = true
waits _ = false

record Inv (m : Shared) (pc : ℕ → Pc) : Type 0 where
  held : (j : ℕ) → holding (pc j) ≡ true → m.owner ≡ some j
  closed : (j : ℕ) → m.owner ≡ some j → m.connected ≡ false
  never : (j : ℕ) → is_reconnected (pc j) ≡ false

module _ (pc : ℕ → Pc) (i : ℕ) where
  -- a step of a goroutine that does not hold the mutex, or holds it and goes on holding it
  stay-Inv :
      (m m' : Shared) (p : Pc)
      → Inv m pc
      → m'.owner ≡ m.owner
      → ((m'.connected ≡ m.connected) ⊎ (m'.connected ≡ false))
      → ((holding p ≡ false) ⊎ (holding (pc i) ≡ true))
      → is_reconnected p ≡ false
      → Inv m' (set_pc pc i p)
  unfolding set_pc
  stay-Inv m m' p inv same conn hold not_re = record {
    held = λ j h. ground (arith, inv.held j, inv.held i, ==_iff j i);
    closed = λ j h. ground (arith, inv.closed j);
    never = λ j. ground (arith, inv.never j);
  }

  lock-Inv :
      (m : Shared)
      → Inv m pc
      → m.owner ≡ none
      → Inv (record m { owner = some i; connected = false }) (set_pc pc i (attempt 1))
  unfolding set_pc
  lock-Inv m inv free = record {
    held = λ j h. ground (arith, inv.held j, ==_iff j i);
    closed = λ j h. refl;
    never = λ j. ground (arith, inv.never j);
  }

  release-Inv :
      (m : Shared)
      → Inv m pc
      → holding (pc i) ≡ true
      → Inv (record m { owner = none }) (set_pc pc i idle)
  unfolding set_pc
  release-Inv m inv holds = record {
    held = λ j h. ground (arith, inv.held j, inv.held i, ==_iff j i);
    closed = λ j h. ground arith;
    never = λ j. ground (arith, inv.never j);
  }

  Move-Inv :
      {m m' : Shared} {q p : Pc} → Move i m q m' p → pc i ≡ q → Inv m pc → Inv m' (set_pc pc i p)
  Move-Inv enter at inv = stay-Inv _ _ _ inv refl (inl refl) (inl refl) refl
  Move-Inv (read free) at inv = stay-Inv _ _ _ inv refl (inl refl) (inl refl) refl
  Move-Inv leave at inv = stay-Inv _ _ _ inv refl (inl refl) (inl refl) refl
  Move-Inv cancel at inv = stay-Inv _ _ _ inv refl (inl refl) (inl refl) refl
  Move-Inv (close free) at inv = stay-Inv _ _ _ inv refl (inr refl) (inl refl) refl
  Move-Inv (session tick) at inv = stay-Inv _ _ _ inv refl (inl refl) (inl refl) refl
  Move-Inv (session (unconnected free c)) at inv =
      stay-Inv _ _ _ inv refl (inl refl) (inl refl) refl
  Move-Inv (session (alive free c)) at inv = stay-Inv _ _ _ inv refl (inl refl) (inl refl) refl
  Move-Inv (session (session_lost free c)) at inv =
      stay-Inv _ _ _ inv refl (inl refl) (inl refl) refl
  Move-Inv (event e h) at inv = stay-Inv _ _ _ inv refl (inl refl) (inl refl) refl
  Move-Inv (lock free) at inv = lock-Inv _ inv free
  Move-Inv (stop c) at inv = release-Inv _ inv (ap holding at)
  Move-Inv (try c small) at inv = stay-Inv _ _ _ inv refl (inl refl) (inr (ap holding at)) refl
  Move-Inv give_up at inv = release-Inv _ inv (ap holding at)
  Move-Inv refused at inv = stay-Inv _ _ _ inv refl (inl refl) (inr (ap holding at)) refl
  Move-Inv dial at inv = stay-Inv _ _ _ inv refl (inl refl) (inr (ap holding at)) refl
  Move-Inv (store free) at inv = ground (arith, inv.held i)
  Move-Inv (finish {n}) at inv = ground (arith, inv.never i)

  -- A step beside a goroutine that waits for the mutex that it holds: the mutex stays with it, and
  -- all that wait for the mutex stay where they are.
  other-step :
      (p : Pc) → waits (pc i) ≡ false → (j : ℕ) → waits (pc j) ≡ true → set_pc pc i p j ≡ pc j
  unfolding set_pc
  other-step p moves j h = ground (arith, ==_iff j i)

  abbrev Still : Shared → ℕ → Pc → Type 0
  Still m' k p = (m'.owner ≡ some k) × ((j : ℕ) → waits (pc j) ≡ true → set_pc pc i p j ≡ pc j)

  Move-Still :
      {m m' : Shared} {q p : Pc} {k n : ℕ}
      → Move i m q m' p
      → pc i ≡ q
      → Inv m pc
      → pc k ≡ dialed n
      → m.owner ≡ some k
      → Still m' k p
  Move-Still enter at inv stuck own = (own, other-step _ (ap waits at))
  Move-Still (read free) at inv stuck own = ground arith
  Move-Still leave at inv stuck own = (own, other-step _ (ap waits at))
  Move-Still cancel at inv stuck own = (own, other-step _ (ap waits at))
  Move-Still (close free) at inv stuck own = ground arith
  Move-Still (session tick) at inv stuck own = (own, other-step _ (ap waits at))
  Move-Still (session (unconnected free c)) at inv stuck own = ground arith
  Move-Still (session (alive free c)) at inv stuck own = ground arith
  Move-Still (session (session_lost free c)) at inv stuck own = ground arith
  Move-Still (event e h) at inv stuck own = (own, other-step _ (ap waits at))
  Move-Still (lock free) at inv stuck own = ground arith
  Move-Still (stop c) at inv stuck own = ground (arith, inv.held i)
  Move-Still (try c small) at inv stuck own = (own, other-step _ (ap waits at))
  Move-Still give_up at inv stuck own = ground (arith, inv.held i)
  Move-Still refused at inv stuck own = (own, other-step _ (ap waits at))
  Move-Still dial at inv stuck own = (own, other-step _ (ap waits at))
  Move-Still (store free) at inv stuck own = ground arith
  Move-Still finish at inv stuck own = ground (arith, inv.never i)

  Move-lost :
      {m m' : Shared} {q p : Pc}
      → Move i m q m' p
      → pc i ≡ q
      → Inv m pc
      → m.connected ≡ false
      → m'.connected ≡ false
  Move-lost (store free) at inv lost = ground (arith, inv.held i)
  Move-lost (close free) at inv lost = refl
  Move-lost (lock free) at inv lost = refl
  Move-lost _ at inv lost = lost

Reach-Inv : {s t : System} → Inv s.mem s.pc → Reach s t → Inv t.mem t.pc
Reach-Inv inv here = inv
Reach-Inv inv (next r (pick i mv)) = Move-Inv _ i mv refl (Reach-Inv inv r)

init-Inv : Inv init.mem init.pc
init-Inv = record { held = λ j h. ground arith; closed = λ j h. ground arith; never = λ j. refl }

Stuck : System → System → ℕ → Type 0
Stuck s t i = (t.mem.owner ≡ some i) × ((j : ℕ) → waits (s.pc j) ≡ true → t.pc j ≡ s.pc j)

Reach-Stuck : {s t : System} (i n : ℕ) → Reach init s → s.pc i ≡ dialed n → Reach s t → Stuck s t i
unfolding Stuck
Reach-Stuck i n r stuck here = ((Reach-Inv init-Inv r).held i (ap holding stuck), λ j h. refl)
Reach-Stuck i n r stuck (next {t} later (pick k mv)) =
    let (own, still) = Reach-Stuck i n r stuck later in
    let (own', still') =
      Move-Still t.pc k mv refl (Reach-Inv (Reach-Inv init-Inv r) later)
        (still i (ap waits stuck) ∙ stuck) own in
    (own', λ j h. still' j (ap waits (still j h) ∙ h) ∙ still j h)

-- After a connection has been dialed anew, in whatever order the goroutines move on: the goroutine
-- that dialed it holds the mutex, there is no connection, and a goroutine that waited for the mutex,
-- the one that holds it included, still waits.
pub reconnect_stuck :
    {s t : System} (i n j : ℕ)
    → Reach init s
    → s.pc i ≡ dialed n
    → waits (s.pc j) ≡ true
    → Reach s t
    → (t.mem.owner ≡ some i) × (t.mem.connected ≡ false) × (t.pc i ≡ dialed n) × (t.pc j ≡ s.pc j)
unfolding Stuck
reconnect_stuck i n j r stuck waiting' later =
    let (own, still) = Reach-Stuck i n r stuck later in
    (
      own,
      (Reach-Inv (Reach-Inv init-Inv r) later).closed i own,
      still i (ap waits stuck) ∙ stuck,
      still j waiting',
    )

-- A connection that is lost, or closed, never comes back.
pub connection_lost :
    {s t : System} → Reach init s → s.mem.connected ≡ false → Reach s t → t.mem.connected ≡ false
connection_lost r lost here = lost
connection_lost r lost (next {t} r' (pick k mv)) =
    Move-lost t.pc k mv refl (Reach-Inv (Reach-Inv init-Inv r) r') (connection_lost r lost r')
