-- ===== src/Coordinator.antt =====
-- internal/coordinator/zk/zk_coordinator.go: the nodes of ZooKeeper and the watches on them.
-- UpsertNode and UpdateNode call each other as long as the node keeps appearing and disappearing;
-- `rounds` bounds their alternation. ensureParentPath recurs on shorter and shorter paths; the
-- length of the path bounds it. A call that meets either bound panics in the model.
pub mod Parents
pub mod Written
pub mod Reconnect
pub mod Watch
use dahlia.Common.{
  ℕ, zero, suc, ◌-◌, ℤ, pos, negsuc, String, Bool, true, false, Option, none, some, List, [], ◌∷◌,
  Text, codes, text_eq, insert, is_empty, length, take, drop, ◌==◌, if◌then◌else◌,
}
use dahlia.Errors.{Error, errorf, wrap, node_exists, no_node, Result, ok, err}
use dahlia.Runtime.{
  zk_asked, zk_created, zk_got, zk_set, Exit, returned, errored, panicked, with_object, Go, pure,
  raise, panic, lift, catch, get, modify, call, of_option, wrapping, ◌>>=◌, ◌>>◌,
}

-- What a watch calls with the new data: the program watches one node, for the workflow manager.
pub data Handler : Type 0 where
  handle_refresh_trigger : Handler

-- The fields of zkCoordinator that change; `connected` is conn != nil.
pub record Coordinator : Type 0 where
  pub connected : Bool
  pub watches : List (Text × Handler)
  pub cancelled : Bool

unfoldable pub is_slash_at : Text → ℕ → Bool
is_slash_at [] i = false
is_slash_at (c ∷ path) zero = c == b'/'
is_slash_at (c ∷ path) (suc i) = is_slash_at path i

-- the loop of findLastSlash, from the index below `i` down
unfoldable pub last_slash_below : Text → ℕ → ℤ
unfolding is_slash_at
last_slash_below path zero = negsuc 0
last_slash_below path (suc i) =
    let rest = last_slash_below path i in if is_slash_at path i then pos i else rest

unfoldable pub find_last_slash : Text → ℤ
unfolding last_slash_below
find_last_slash path = last_slash_below path (length path)

or_root : Text → Text
or_root path = if is_empty path then codes "/" else path

-- path[:len(path)-len(path[i:])], which panics for a negative i
cut_at : Text → ℤ → Option Text
unfolding or_root
cut_at path (pos i) = some (or_root (take (length path - length (drop i path)) path))
cut_at path (negsuc i) = none

unfoldable pub parent_path : Text → Option Text
unfolding cut_at find_last_slash
parent_path path = cut_at path (find_last_slash path)

pub is_node_exists : Error → Bool
is_node_exists node_exists = true
is_node_exists _ = false

pub is_no_node : Error → Bool
is_no_node no_node = true
is_no_node _ = false

module _ {S : Type 0} where
  unfoldable pub create_node : Text → Text → Go S (Unit {0})
  create_node path bytes = do
    outcome ← call (λ env t. env.zk_create t path bytes) (zk_created path bytes)
    of_option outcome

  unfoldable pub exists_node : Text → Go S Bool
  exists_node path = do
    outcome ← call (λ env t. env.zk_exists t path) (λ _. zk_asked path)
    lift outcome

  unfoldable pub read_node : Text → Go S (Text × ℕ)
  read_node path = do outcome ← call (λ env t. env.zk_get t path) (λ _. zk_got path); lift outcome

  unfoldable pub set_node : Text → Text → ℕ → Go S (Unit {0})
  set_node path bytes version = do
    outcome ← call (λ env t. env.zk_set t path bytes version) (zk_set path bytes version)
    of_option outcome

  -- a parent that another client has created meanwhile is no failure
  unfoldable pub parent_failed : Error → Go S (Unit {0})
  unfolding is_node_exists
  parent_failed e =
      if is_node_exists e then pure tt else raise (wrap "failed to create parent path" [] e)

-- c.conn where it is used without a look at it: nil panics
unfoldable pub dereferenced : {A : Type 0} → Go Coordinator A → Go Coordinator A
dereferenced m = do c ← get; if c.connected then m else panic

-- the parent is there, or it is created after its own parents
unfoldable pub create_missing : Go Coordinator (Unit {0}) → Text → Bool → Go Coordinator (Unit {0})
unfolding parent_failed create_node dereferenced
create_missing ensure parent true = pure tt
create_missing ensure parent false = do
  ensure
  dereferenced (catch parent_failed (create_node parent []))

unfoldable pub ensure_parent :
    (Text → Go Coordinator (Unit {0})) → Option Text → Go Coordinator (Unit {0})
unfolding create_missing exists_node dereferenced
ensure_parent ensure none = panic
ensure_parent ensure (some parent) = do
  exists ← dereferenced (wrapping "failed to check parent path" (exists_node parent))
  create_missing (ensure parent) parent exists

unfoldable pub ensure_parent_path : ℕ → Text → Go Coordinator (Unit {0})
unfolding ensure_parent parent_path
ensure_parent_path zero path = panic
ensure_parent_path (suc fuel) path =
    let rest : Text → Go Coordinator (Unit {0}) = ensure_parent_path fuel in
    if text_eq path (codes "/") then pure tt else ensure_parent rest (parent_path path)

unfoldable pub no_connection : {A : Type 0} → Go Coordinator A
no_connection = raise (errorf "no zookeeper connection available" [])

unfoldable pub with_connection : {A : Type 0} → Go Coordinator A → Go Coordinator A
unfolding no_connection
with_connection m = do c ← get; if c.connected then m else no_connection

module _ (update : Text → Text → Go Coordinator (Unit {0})) where
  unfoldable pub create_failed : Text → Text → Error → Go Coordinator (Unit {0})
  unfolding is_node_exists
  create_failed path bytes e =
      if is_node_exists e then update path bytes else raise (wrap "failed to create node" [] e)

  -- UpsertNode, with the UpdateNode that it calls
  unfoldable pub upsert : Text → Text → Go Coordinator (Unit {0})
  unfolding create_failed create_node ensure_parent_path with_connection
  upsert path bytes = with_connection (do
    ensure_parent_path (suc (length path)) path
    catch (create_failed path bytes) (create_node path bytes))

module _ (upsert_again : Text → Text → Go Coordinator (Unit {0})) where
  unfoldable pub set_found : Text → Text → Result (Text × ℕ) → Go Coordinator (Unit {0})
  unfolding set_node is_no_node
  set_found path bytes (ok (_, version)) =
      wrapping "failed to update node" (set_node path bytes version)
  set_found path bytes (err e) =
      if is_no_node e then upsert_again path bytes else raise (wrap "failed to get node" [] e)

  -- UpdateNode, with the UpsertNode that it calls
  unfoldable pub update : Text → Text → Go Coordinator (Unit {0})
  unfolding set_found with_connection
  update path bytes = with_connection (do
    outcome ← call (λ env t. env.zk_get t path) (λ _. zk_got path)
    set_found path bytes outcome)

unfoldable pub upsert_node : (rounds : ℕ) → Text → Text → Go Coordinator (Unit {0})
unfolding upsert update
upsert_node zero path bytes = panic
upsert_node (suc rounds) path bytes = upsert (update (upsert_node rounds)) path bytes

unfoldable pub update_node : (rounds : ℕ) → Text → Text → Go Coordinator (Unit {0})
unfolding update upsert_node
update_node rounds path bytes = update (upsert_node rounds) path bytes

unfoldable pub get_failed : {A : Type 0} → Text → Error → Go Coordinator A
unfolding is_no_node
get_failed path e =
    if is_no_node e
    then raise (errorf "node not found: %s" (path ∷ []))
    else raise (wrap "failed to get node" [] e)

unfoldable pub get_node : Text → Go Coordinator Text
unfolding get_failed read_node with_connection
get_node path =
    with_connection (do (bytes, _) ← catch (get_failed path) (read_node path); pure bytes)

-- the outcome of zk.Connect is an argument
unfoldable pub connect : Option Error → Go Coordinator (Unit {0})
connect outcome = do
  wrapping "failed to connect to zookeeper" (of_option outcome)
  modify (λ c. record c { connected = true })

-- the coordinator is returned if `connect` succeeds
made : {S : Type 0} → Exit (Unit {0}) × Coordinator → Go S Coordinator
made (returned _, coord) = pure coord
made (errored e, coord) = raise e
made (panicked, coord) = panic

-- NewZKCoordinator, before the goroutine of monitorSession: the coordinator that it makes
unfoldable pub new_zk_coordinator : {S : Type 0} → Option Error → Go S Coordinator
unfolding connect made
new_zk_coordinator outcome = do
  outcome' ←
      with_object (record { connected = false; watches = []; cancelled = false }) (connect outcome)
  made outcome'

-- WatchNode; the goroutine that it starts is `watch_round`, again and again
unfoldable pub watch_node : Text → Handler → Go Coordinator (Unit {0})
watch_node path handler = modify (λ c. record c { watches = insert path handler c.watches })

-- Close: the context is cancelled, the connection closed
unfoldable pub close : Go Coordinator (Unit {0})
close = modify (λ c. record c { cancelled = true; connected = false })
