-- ===== src/Scheduler/Lists.antt =====
-- The lists of Redis, as the calls of a trace leave them. `initial` is what was there at the start.
-- `ran t` says whether Redis carried out the call that was made after `t`: a call that is answered with
-- an error may have been carried out or not. `unpacks n` says whether Lua's unpack takes a table of
-- length `n` in a script.
pub mod Kept
pub mod Pending
pub mod Buckets
pub mod Temps
pub mod Delivered
pub mod Keys
pub mod Apart
pub mod Nodes
use dahlia.Common.{
  ℕ, suc, Bool, ◌&&◌, Option, none, some, List, [], ◌∷◌, ◌++◌, map, Text, text_eq, length, ◌≡◌,
  true, if◌then◌else◌,
}
use dahlia.Errors.{ok}
use dahlia.Domain.{Value, string}
use dahlia.Runtime.{Env, Trace, pushed, transferred, removed, ranged}

-- LREM with count 1
unfoldable pub remove_first : Text → List Text → List Text
remove_first value [] = []
remove_first value (x ∷ xs) =
    let rest = remove_first value xs in if text_eq x value then xs else x ∷ rest

-- luaAtomicTransfer: LRANGE and DEL of KEYS[1], and RPUSH of all of it to KEYS[2]. Lua's unpack fails
-- on a table that is too long, which ends the script; Redis does not undo the DEL.
unfoldable pub atomic_transfer :
    (unpacks : ℕ → Bool) → Text → Text → (Text → List Text) → Text → List Text
atomic_transfer unpacks bucket temp lists key =
    let jobs = lists bucket in
    let emptied = if text_eq bucket key then [] else lists key in
    if unpacks (length jobs) && text_eq temp key then emptied ++ jobs else emptied

module _ (initial : Text → List Text) (ran : Trace → Bool) (unpacks : ℕ → Bool) where
  unfoldable pub lists : Trace → Text → List Text
  unfolding atomic_transfer remove_first
  lists [] key = initial key
  lists (pushed k value _ ∷ t) key =
      let old = lists t key in if ran t && text_eq k key then old ++ value ∷ [] else old
  lists (transferred bucket temp ∷ t) key =
      let old = lists t key in
      let new = atomic_transfer unpacks bucket temp (lists t) key in if ran t then new else old
  lists (removed k value _ ∷ t) key =
      let old = lists t key in if ran t && text_eq k key then remove_first value old else old
  lists (_ ∷ t) key = lists t key

  -- Redis answers from its lists, and carries out what it answers without an error; a script that fails
  -- is answered with an error.
  pub record IsRedis (env : Env) : Type 0 where
    pub rpush_ran : (t : Trace) (key value : Text) → env.rpush t key value ≡ none → ran t ≡ true
    pub transfer_ran :
        (t : Trace) (bucket temp : Text) (values : Option (List Value))
        → env.transfer t bucket temp ≡ ok values
        → (ran t ≡ true)
          × (unpacks (length (lists t bucket)) ≡ true)
          × (values ≡ some (map string (lists t bucket)))
    pub lrange_reads :
        (t : Trace) (key : Text) (values : List Text)
        → env.lrange t key ≡ ok values
        → values ≡ lists t key
    pub llen_reads :
        (t : Trace) (key : Text) (n : ℕ) → env.llen t key ≡ ok n → n ≡ length (lists t key)

-- how often the content of a list has been asked for: LRANGE, or the script with the list to be moved
unfoldable pub reads : Text → Trace → ℕ
reads key [] = 0
reads key (transferred bucket temp ∷ t) =
    let n = reads key t in if text_eq bucket key then suc n else n
reads key (ranged k ∷ t) = let n = reads key t in if text_eq k key then suc n else n
reads key (_ ∷ t) = reads key t
