-- ===== src/Coordinator/Written.antt =====
-- What UpsertNode and UpdateNode have written when they return.
use mathlib.Core.Path.{subst}
use dahlia.Common.{
  ℕ, suc, Bool, true, false, Option, none, some, ◌∷◌, ◌≡◌, refl, ap, sym, ◌∙◌, ◌≢◌, ◌⊎◌, inl, inr,
  Bool-cases, if◌then◌else◌, Text, length, arith,
}
use dahlia.Errors.{Error, errorf, wrap, node_exists, no_node, Result, ok, err}
use dahlia.Runtime.{
  Trace, Env, World, zk_created, zk_got, zk_set, Go, Exit, returned, errored, catch, ◌>>=◌,
}
use dahlia.Runtime.Steps.{bind-returned, bind-errored}
use dahlia.Coordinator.{
  Coordinator, is_node_exists, is_no_node, create_node, create_failed, set_found, with_connection,
  no_connection, upsert, update, upsert_node, update_node, ensure_parent_path,
}
use dahlia.Coordinator.Parents.{is_node_exists_lem, ensure-Ends}

is_no_node_lem : (e : Error) → is_no_node e ≡ true → e ≡ no_node
unfolding is_no_node
is_no_node_lem node_exists h = ground arith
is_no_node_lem (errorf _ _) h = ground arith
is_no_node_lem (wrap _ _ _) h = ground arith
is_no_node_lem Error.optimistic_lock_failed h = ground arith
is_no_node_lem Error.not_found h = ground arith
is_no_node_lem Error.duplicate_signal h = ground arith
is_no_node_lem Error.conditional_check_failed h = ground arith
is_no_node_lem no_node h = refl
is_no_node_lem (Error.external _) h = ground arith

-- The last calls wrote the bytes to the node: it was created with them, or they were set with the
-- version that had just been read.
pub data Written (env : Env) (path bytes : Text) : Trace → Type 0 where
  by_create :
      {t : Trace}
      → env.zk_create t path bytes ≡ none
      → Written env path bytes (zk_created path bytes none ∷ t)
  by_set :
      {t : Trace} {old : Text} {version : ℕ}
      → env.zk_get t path ≡ ok (old, version)
      → env.zk_set (zk_got path ∷ t) path bytes version ≡ none
      → Written env path bytes (zk_set path bytes version none ∷ zk_got path ∷ t)

-- A node that Create has found to exist is there for the Get that follows at once.
pub record Stays (env : Env) (path bytes : Text) : Type 0 where
  pub there :
      (t : Trace)
      → env.zk_create t path bytes ≡ some node_exists
      → env.zk_get (zk_created path bytes (some node_exists) ∷ t) path ≢ err no_node

module _ (env : Env) (path bytes : Text) where
  abbrev Ends : Exit (Unit {0}) × World Coordinator → Type 0
  Ends (r, w') =
      ((r ≡ returned tt) × Written env path bytes w'.trace) ⊎ ((e : Error) × (r ≡ errored e))

  set-Ends :
      (again : Text → Text → Go Coordinator (Unit {0})) (t : Trace) (w : World Coordinator)
      (old : Text) (version : ℕ) (o : Option Error)
      → w.trace ≡ zk_got path ∷ t
      → env.zk_get t path ≡ ok (old, version)
      → env.zk_set w.trace path bytes version ≡ o
      → Ends (set_found again path bytes (ok (old, version)) env w)
  unfolding set_found ◌>>=◌
  set-Ends again t w old version none here found answer =
      rw (answer, here) (inl (refl, by_set found (rw (sym here) answer)))
  set-Ends again t w old version (some e) here found answer = rw answer (inr (_, refl))

  not_found-Ends :
      (again : Text → Text → Go Coordinator (Unit {0})) (e : Error) (w : World Coordinator)
      → (e ≡ no_node → Ends (again path bytes env w))
      → Ends (set_found again path bytes (err e) env w)
  unfolding set_found ◌>>=◌
  not_found-Ends again e w next = elim (Bool-cases (is_no_node e)) [
    | inl missing ↦ rw missing (next (is_no_node_lem e missing))
    | inr other ↦ rw other (inr (_, refl))
  ]

  connection-Ends :
      (m : Go Coordinator (Unit {0})) (w : World Coordinator)
      → (w.local.connected ≡ true → Ends (m env w))
      → Ends (with_connection m env w)
  unfolding with_connection no_connection ◌>>=◌
  connection-Ends m w h = go w.local.connected refl
    where
      go : (b : Bool) → w.local.connected ≡ b → Ends ((if b then m else no_connection) env w)
      go true open' = h open'
      go false closed = inr (_, refl)

  update-Ends :
      (again : Text → Text → Go Coordinator (Unit {0})) (w : World Coordinator)
      (r : Result (Text × ℕ))
      → env.zk_get w.trace path ≡ r
      → ((e : Error)
          → r ≡ err e
          → e ≡ no_node
          → (w' : World Coordinator) → Ends (again path bytes env w'))
      → Ends (update again path bytes env w)
  unfolding update ◌>>=◌
  update-Ends again w r answer next = connection-Ends _ w (λ _. rw answer (found r answer next))
    where
      asked : World Coordinator
      asked = record w { trace = zk_got path ∷ w.trace }

      found :
          (r : Result (Text × ℕ))
          → env.zk_get w.trace path ≡ r
          → ((e : Error)
              → r ≡ err e
              → e ≡ no_node
              → (w' : World Coordinator) → Ends (again path bytes env w'))
          → Ends (set_found again path bytes r env asked)
      found (ok (old, version)) answer next =
          set-Ends again w.trace asked old version _ refl answer refl
      found (err e) answer next =
          not_found-Ends again e asked (λ missing. next e refl missing asked)

  create-Ends :
      (again : Text → Text → Go Coordinator (Unit {0})) (w : World Coordinator) (o : Option Error)
      → env.zk_create w.trace path bytes ≡ o
      → Stays env path bytes
      → Ends (catch (create_failed (update again) path bytes) (create_node path bytes) env w)
  unfolding create_failed create_node ◌>>=◌
  create-Ends again w none answer stays = rw answer (inl (refl, by_create answer))
  create-Ends again w (some e) answer stays = elim (Bool-cases (is_node_exists e)) [
    | inr other ↦ rw (answer, other) (inr (_, refl))
    | inl exists ↦
        rw (answer, exists)
          (update-Ends again _ _ refl (λ e' failed missing. absurd (
            stays.there w.trace (rw (sym (is_node_exists_lem e exists)) answer) (
              subst (λ o. env.zk_get (zk_created path bytes (some o) ∷ w.trace) path ≡ err no_node)
                (is_node_exists_lem e exists) (failed ∙ ap err missing)))))
  ]

  parents-Ends :
      {A : Type 0} (m : Go Coordinator (Unit {0})) (f : Unit {0} → Go Coordinator (Unit {0}))
      (w : World Coordinator)
      → (((m env w).0 ≡ returned tt) × A) ⊎ ((e : Error) × ((m env w).0 ≡ errored e))
      → Ends (f tt env (m env w).1)
      → Ends ((m >>= f) env w)
  parents-Ends m f w (inl (returned', _)) h =
      subst Ends
        (sym (bind-returned m f env w (m env w).1 tt (ap (λ r. (r, (m env w).1)) returned'))) h
  parents-Ends m f w (inr (e, errored')) h = inr (
    e,
    ap (λ p. p.0) (bind-errored m f env w (m env w).1 e (ap (λ r. (r, (m env w).1)) errored')),
  )

-- UpsertNode of a path that starts with `/`, if a node that Create finds to exist is there for the
-- Get that follows: one round is enough, it does not panic, and it returns only after its last calls
-- have written the bytes to the node, by creating it or by setting the version just read.
pub upsert_node_lem :
    (env : Env) (s bytes : Text) (rounds : ℕ) (w : World Coordinator)
    → Stays env (b'/' ∷ s) bytes
    → let (r, w') = upsert_node (suc rounds) (b'/' ∷ s) bytes env w in
      ((r ≡ returned tt) × Written env (b'/' ∷ s) bytes w'.trace) ⊎ ((e : Error) × (r ≡ errored e))
unfolding upsert_node upsert
upsert_node_lem env s bytes rounds w stays = connection-Ends env (b'/' ∷ s) bytes _ w (λ open'.
    parents-Ends env (b'/' ∷ s) bytes (ensure_parent_path (suc (suc (length s))) (b'/' ∷ s)) _ w
      (ensure-Ends env s (suc (suc (length s))) w (omega arith) open').0
      (create-Ends env (b'/' ∷ s) bytes (upsert_node rounds) _ _ refl stays))

-- UpdateNode likewise, with one round more for a node that Get does not find.
pub update_node_lem :
    (env : Env) (s bytes : Text) (rounds : ℕ) (w : World Coordinator)
    → Stays env (b'/' ∷ s) bytes
    → let (r, w') = update_node (suc rounds) (b'/' ∷ s) bytes env w in
      ((r ≡ returned tt) × Written env (b'/' ∷ s) bytes w'.trace) ⊎ ((e : Error) × (r ≡ errored e))
unfolding update_node
update_node_lem env s bytes rounds w stays =
    update-Ends env (b'/' ∷ s) bytes (upsert_node (suc rounds)) w _ refl
      (λ e failed missing w'. upsert_node_lem env s bytes rounds w' stays)
