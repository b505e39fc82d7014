-- ===== src/Coordinator/Parents.antt =====
-- The parents of a node.
use mathlib.Core.Path.{subst}
use dahlia.Common.{
  ℕ, zero, suc, ◌+◌, ◌-◌, ◌≤◌, ◌<◌, pos, Bool, true, false, Option, none, some, [], ◌∷◌, ◌≡◌, refl,
  ap, sym, ◌∙◌, ◌⊎◌, inl, inr, Bool-cases, Text, codes, length, take, drop, text_eq, if◌then◌else◌,
  arith,
}
use dahlia.Errors.{Error, Result, ok, err, wrap, node_exists}
use dahlia.Runtime.{
  Trace, Env, World, zk_asked, zk_created, Go, Exit, returned, errored, panicked, pure, panic,
  catch, wrapping, ◌>>=◌,
}
use dahlia.Runtime.Steps.{bind-returned, bind-errored}
use dahlia.Coordinator.{
  Coordinator, dereferenced, is_slash_at, last_slash_below, find_last_slash, cut_at, or_root,
  parent_path, is_node_exists, create_node, exists_node, parent_failed, create_missing,
  ensure_parent, ensure_parent_path,
}

last_slash_below_bound :
    (s : Text) (n : ℕ) → (i : ℕ) × (last_slash_below (b'/' ∷ s) (suc n) ≡ pos i) × (i ≤ n)
unfolding last_slash_below is_slash_at
last_slash_below_bound s zero = (0, refl, omega arith)
last_slash_below_bound s (suc n) =
    let (i, h, small) = last_slash_below_bound s n in
    elim (Bool-cases (is_slash_at (b'/' ∷ s) (suc n))) [
      | inl here ↦ (suc n, rw here refl, omega arith)
      | inr other ↦ (i, rw (other, h) refl, omega arith)
    ]

length-drop : (path : Text) (i : ℕ) → i ≤ length path → length path - length (drop i path) ≡ i
length-drop path i h = omega (arith, dropped path i h)
  where
    dropped : (path : Text) (i : ℕ) → i ≤ length path → length (drop i path) + i ≡ length path
    dropped path zero h = omega arith
    dropped [] (suc i) h = omega arith
    dropped (c ∷ path) (suc i) h = omega (arith, dropped path i (omega arith))

length-take : (path : Text) (i : ℕ) → length (take i path) ≤ i
length-take path zero = omega arith
length-take [] (suc i) = omega arith
length-take (c ∷ path) (suc i) = omega (arith, length-take path i)

cut_shorter :
    (c : ℕ) (s : Text) (i : ℕ)
    → i ≤ suc (length s)
    → (p : Text) × (cut_at (b'/' ∷ c ∷ s) (pos i) ≡ some (b'/' ∷ p)) × (length p ≤ length s)
unfolding cut_at or_root
cut_shorter c s zero h = (
  [],
  ap (λ n. some (or_root (take n (b'/' ∷ c ∷ s)))) (length-drop (b'/' ∷ c ∷ s) 0 (omega arith)),
  omega arith,
)
cut_shorter c s (suc i) h = (
  take i (c ∷ s),
  ap (λ n. some (or_root (take n (b'/' ∷ c ∷ s))))
      (length-drop (b'/' ∷ c ∷ s) (suc i) (omega arith)),
  omega (arith, length-take (c ∷ s) i),
)

-- a path of two bytes or more that starts with `/` has a shorter parent that starts with `/`
parent_shorter :
    (c : ℕ) (s : Text)
    → (p : Text) × (parent_path (b'/' ∷ c ∷ s) ≡ some (b'/' ∷ p)) × (length p ≤ length s)
unfolding parent_path find_last_slash
parent_shorter c s =
    let (i, found, small) = last_slash_below_bound (c ∷ s) (suc (length s)) in
    let (p, cut, short) = cut_shorter c s i small in
    (p, ap (cut_at (b'/' ∷ c ∷ s)) found ∙ cut, short)

-- From the first trace to the second, the parents of a path are looked for from the path up, and the
-- missing ones are created from the top down.
pub data Ensured (env : Env) : Text → Trace → Trace → Type 0 where
  root : {t : Trace} → Ensured env (codes "/") t t
  present :
      {path parent : Text} {t : Trace}
      → parent_path path ≡ some parent
      → env.zk_exists t parent ≡ ok true
      → Ensured env path t (zk_asked parent ∷ t)
  made :
      {path parent : Text} {t t' : Trace} {outcome : Option Error}
      → parent_path path ≡ some parent
      → env.zk_exists t parent ≡ ok false
      → Ensured env parent (zk_asked parent ∷ t) t'
      → env.zk_create t' parent [] ≡ outcome
      → (outcome ≡ none) ⊎ (outcome ≡ some node_exists)
      → Ensured env path t (zk_created parent [] outcome ∷ t')

pub is_node_exists_lem : (e : Error) → is_node_exists e ≡ true → e ≡ node_exists
unfolding is_node_exists
is_node_exists_lem node_exists h = refl
is_node_exists_lem (Error.errorf _ _) h = ground arith
is_node_exists_lem (wrap _ _ _) h = ground arith
is_node_exists_lem Error.optimistic_lock_failed h = ground arith
is_node_exists_lem Error.not_found h = ground arith
is_node_exists_lem Error.duplicate_signal h = ground arith
is_node_exists_lem Error.conditional_check_failed h = ground arith
is_node_exists_lem Error.no_node h = ground arith
is_node_exists_lem (Error.external _) h = ground arith

module _ (env : Env) where
  -- the connection is still there
  abbrev Ends : Text → Trace → Exit (Unit {0}) × World Coordinator → Type 0
  Ends path t (r, w') =
      (((r ≡ returned tt) × Ensured env path t w'.trace) ⊎ ((e : Error) × (r ≡ errored e)))
      × (w'.local.connected ≡ true)

  open-Go :
      {A : Type 0} (m : Go Coordinator A) (w : World Coordinator)
      → w.local.connected ≡ true
      → dereferenced m env w ≡ m env w
  unfolding dereferenced ◌>>=◌
  open-Go m w open' = ap (λ b. (if b then m else panic) env w) open'

  created-Ends :
      (path parent : Text) (t : Trace) (w : World Coordinator) (o : Option Error)
      → parent_path path ≡ some parent
      → env.zk_exists t parent ≡ ok false
      → Ensured env parent (zk_asked parent ∷ t) w.trace
      → env.zk_create w.trace parent [] ≡ o
      → w.local.connected ≡ true
      → Ends path t (catch parent_failed (create_node parent []) env w)
  unfolding parent_failed create_node ◌>>=◌
  created-Ends path parent t w none h missing up answer open' =
      rw answer (inl (refl, made h missing up answer (inl refl)), open')
  created-Ends path parent t w (some e) h missing up answer open' =
      elim (Bool-cases (is_node_exists e)) [
        | inl there ↦
            rw (answer, there)
              (
                inl (refl, made h missing up answer (inr (ap some (is_node_exists_lem e there)))),
                open',
              )
        | inr other ↦
            rw (answer, other) (inr (wrap "failed to create parent path" [] e, refl), open')
      ]

  missing-Ends :
      (ensure : Go Coordinator (Unit {0})) (path parent : Text) (t : Trace) (w : World Coordinator)
      → parent_path path ≡ some parent
      → env.zk_exists t parent ≡ ok false
      → Ends parent (zk_asked parent ∷ t) (ensure env w)
      → Ends path t (create_missing ensure parent false env w)
  unfolding create_missing
  missing-Ends ensure path parent t w h missing (inl (returned', up), open') =
      subst (Ends path t)
        (sym (
          bind-returned ensure _ env w (ensure env w).1 tt
            (ap (λ r. (r, (ensure env w).1)) returned')))
        (subst (Ends path t) (sym (open-Go (catch parent_failed (create_node parent [])) _ open'))
          (created-Ends path parent t (ensure env w).1 _ h missing up refl open'))
  missing-Ends ensure path parent t w h missing (inr (e, errored'), open') =
      subst (Ends path t)
        (sym (
          bind-errored ensure _ env w (ensure env w).1 e
            (ap (λ r. (r, (ensure env w).1)) errored')))
        (inr (e, refl), open')

  -- the look for a parent, by the answer of ZooKeeper
  abbrev after_look : Text → World Coordinator → Result Bool → Exit Bool × World Coordinator
  after_look parent w (ok b) = (returned b, record w { trace = zk_asked parent ∷ w.trace })
  after_look parent w (err e) = (
    errored (wrap "failed to check parent path" [] e),
    record w { trace = zk_asked parent ∷ w.trace },
  )

  looked :
      (parent : Text) (w : World Coordinator) (r : Result Bool)
      → env.zk_exists w.trace parent ≡ r
      → wrapping "failed to check parent path" (exists_node parent) env w ≡ after_look parent w r
  unfolding exists_node ◌>>=◌
  looked parent w (ok b) answer = rw answer refl
  looked parent w (err e) answer = rw answer refl

  parent-Ends :
      (ensure : Text → Go Coordinator (Unit {0})) (path parent : Text) (w : World Coordinator)
      (r : Result Bool)
      → parent_path path ≡ some parent
      → env.zk_exists w.trace parent ≡ r
      → w.local.connected ≡ true
      → ((w' : World Coordinator)
          → w'.local.connected ≡ true
          → Ends parent w'.trace (ensure parent env w'))
      → Ends path w.trace (ensure_parent ensure (some parent) env w)
  unfolding ensure_parent
  parent-Ends ensure path parent w r h answer open' ends =
      let look = wrapping "failed to check parent path" (exists_node parent) in
      go r answer (open-Go look w open' ∙ looked parent w r answer)
    where
      go :
          (r : Result Bool)
          → env.zk_exists w.trace parent ≡ r
          → dereferenced (wrapping "failed to check parent path" (exists_node parent)) env w
            ≡ after_look parent w r
          → Ends path w.trace (ensure_parent ensure (some parent) env w)
      go (ok true) answer e =
          subst (Ends path w.trace) (sym (bind-returned _ _ env w _ true e))
            (unfold create_missing pure in (inl (refl, present h answer), open'))
      go (ok false) answer e =
          subst (Ends path w.trace) (sym (bind-returned _ _ env w _ false e))
            (missing-Ends (ensure parent) path parent w.trace _ h answer (ends _ open'))
      go (err e') answer e =
          subst (Ends path w.trace) (sym (bind-errored _ _ env w _ _ e)) (inr (_, refl), open')

  pub ensure-Ends :
      (s : Text) (fuel : ℕ) (w : World Coordinator)
      → length s < fuel
      → w.local.connected ≡ true
      → Ends (b'/' ∷ s) w.trace (ensure_parent_path fuel (b'/' ∷ s) env w)
  unfolding ensure_parent_path text_eq pure
  ensure-Ends s zero w h open' = absurd (omega (arith, h))
  ensure-Ends [] (suc fuel) w h open' = (inl (refl, root), open')
  ensure-Ends (c ∷ s) (suc fuel) w h open' =
      let (p, parent, short) = parent_shorter c s in
      subst (λ o. Ends (b'/' ∷ c ∷ s) w.trace (ensure_parent (ensure_parent_path fuel) o env w))
        (sym parent)
        (parent-Ends (ensure_parent_path fuel) (b'/' ∷ c ∷ s) (b'/' ∷ p) w _ parent refl open'
          (λ w' open''. ensure-Ends p fuel w' (omega (arith, h, short)) open''))

  closed-Panics :
      (s : Text) (fuel : ℕ) (w : World Coordinator)
      → length s < fuel
      → w.local.connected ≡ false
      → ((s ≡ []) × ((ensure_parent_path fuel (b'/' ∷ s) env w).0 ≡ returned tt))
        ⊎ ((ensure_parent_path fuel (b'/' ∷ s) env w).0 ≡ panicked)
  unfolding ensure_parent_path ensure_parent dereferenced text_eq ◌>>=◌
  closed-Panics s zero w h closed = absurd (omega (arith, h))
  closed-Panics [] (suc fuel) w h closed = inl (refl, refl)
  closed-Panics (c ∷ s) (suc fuel) w h closed =
      let (p, parent, short) = parent_shorter c s in inr (rw (parent, closed) refl)

  -- For a path that starts with `/`, with a bound of at least its length, and while there is a
  -- connection: creating the parents neither panics nor meets the bound. It returns, and then the
  -- missing parents have been created, each before the node below it, or it ends in an error. Without
  -- a connection it panics, unless the path is `/`.
  pub ensure_parent_path_lem :
      (s : Text) (fuel : ℕ) (w : World Coordinator)
      → length s < fuel
      → let (r, w') = ensure_parent_path fuel (b'/' ∷ s) env w in
        ((w.local.connected ≡ true)
          × (((r ≡ returned tt) × Ensured env (b'/' ∷ s) w.trace w'.trace)
              ⊎ ((e : Error) × (r ≡ errored e))))
        ⊎ ((w.local.connected ≡ false) × (((s ≡ []) × (r ≡ returned tt)) ⊎ (r ≡ panicked)))
  ensure_parent_path_lem s fuel w h = elim (Bool-cases w.local.connected) [
    | inl open' ↦ inl (open', (ensure-Ends s fuel w h open').0)
    | inr closed ↦ inr (closed, closed-Panics s fuel w h closed)
  ]
