-- ===== src/Coordinator/Reconnect.antt =====
-- The mutex of zkCoordinator, and the goroutines that meet there: monitorSession and monitorEvents,
-- which call handleReconnect, connect, and the operations, which read or write the connection. A section that
-- only reads or sets a field between its Lock and Unlock is one step.
pub mod Stuck
use dahlia.Common.{ℕ, suc, ◌≤◌, Bool, true, false, Option, none, some, ◌==◌, if◌then◌else◌, ◌≡◌}

-- sync.RWMutex is not reentrant: Lock waits while `owner` holds it, whoever asks.
pub record Shared : Type 0 where
  pub owner : Option ℕ
  -- c.conn != nil
  pub connected : Bool
  pub cancelled : Bool

-- Where a goroutine stands.
pub data Pc : Type 0 where
  idle : Pc
  -- monitorSession, before its RLock
  checking : Pc
  -- an operation before its RLock, and with the connection that it has read
  entering : Pc
  entered : Bool → Pc
  -- Close, before its Lock
  closing : Pc
  -- handleReconnect: before its Lock, at the head of its loop, in zk.Connect of `connect`, before the
  -- Lock of `connect`, and after the Unlock of `connect`
  waiting : Pc
  attempt : ℕ → Pc
  dialing : ℕ → Pc
  dialed : ℕ → Pc
  reconnected : ℕ → Pc

-- The states that an event of the client tells of.
pub data SessionState : Type 0 where
  expired disconnected other_state : SessionState

-- monitorEvents starts handleReconnect
unfoldable pub needs_reconnect : SessionState → Bool
needs_reconnect expired = true
needs_reconnect disconnected = true
needs_reconnect other_state = false

-- One step of monitorSession: after five seconds it looks at the connection, whose state is left open.
pub data MonitorSession (m : Shared) : Pc → Pc → Type 0 where
  tick : MonitorSession m idle checking
  unconnected : m.owner ≡ none → m.connected ≡ false → MonitorSession m checking idle
  alive : m.owner ≡ none → m.connected ≡ true → MonitorSession m checking idle
  session_lost : m.owner ≡ none → m.connected ≡ true → MonitorSession m checking waiting

-- One step of goroutine `i`. The outcome of zk.Connect is left open.
pub data Move (i : ℕ) (m : Shared) : Pc → Shared → Pc → Type 0 where
  enter : Move i m idle m entering
  read : m.owner ≡ none → Move i m entering m (entered m.connected)
  leave : {b : Bool} → Move i m (entered b) m idle
  cancel : Move i m idle (record m { cancelled = true }) closing
  close : m.owner ≡ none → Move i m closing (record m { connected = false }) idle
  session : {p q : Pc} → MonitorSession m p q → Move i m p m q
  event : (e : SessionState) → needs_reconnect e ≡ true → Move i m idle m waiting
  lock :
      m.owner ≡ none → Move i m waiting (record m { owner = some i; connected = false }) (attempt 1)
  stop : {n : ℕ} → m.cancelled ≡ true → Move i m (attempt n) (record m { owner = none }) idle
  try : {n : ℕ} → m.cancelled ≡ false → n ≤ 5 → Move i m (attempt n) m (dialing n)
  give_up : Move i m (attempt 6) (record m { owner = none }) idle
  refused : {n : ℕ} → Move i m (dialing n) m (attempt (suc n))
  dial : {n : ℕ} → Move i m (dialing n) m (dialed n)
  store :
      {n : ℕ} → m.owner ≡ none → Move i m (dialed n) (record m { connected = true }) (reconnected n)
  finish : {n : ℕ} → Move i m (reconnected n) (record m { owner = none }) idle

pub record System : Type 0 where
  pub mem : Shared
  pub pc : ℕ → Pc

unfoldable pub set_pc : (ℕ → Pc) → ℕ → Pc → ℕ → Pc
set_pc pc i p j = if j == i then p else pc j

pub data Step (s : System) : System → Type 0 where
  pick :
      (i : ℕ) {m : Shared} {p : Pc}
      → Move i s.mem (s.pc i) m p
      → Step s (record { mem = m; pc = set_pc s.pc i p })

-- after NewZKCoordinator, whose `connect` runs before any other goroutine
abbrev pub init : System
init = record { mem = record { owner = none; connected = true; cancelled = false }; pc = λ _. idle }

pub data Reach (s : System) : System → Type 0 where
  here : Reach s s
  next : {t u : System} → Reach s t → Step t u → Reach s u
