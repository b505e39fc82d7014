-- ===== src/WorkflowManager/Shared/Exclusive.antt =====
-- The mutex of workflowManager lets one writer in, and always lets someone go on.
use dahlia.Common.{
  ◌⊎◌, ℕ, Bool, true, false, Option-cases, none, some, ==_iff, ◌≡◌, refl, ap, inl, inr, arith,
}
use dahlia.Domain.{Workflow}
use dahlia.WorkflowManager.Shared.{
  Request, cached, Shared, Pc, idle, reading, waiting, checking, loading, served, Move, look,
  begin_refresh, hit, miss, lock, hit_again, miss_again, load_one, load_type, load_page, fail,
  leave, System, set_pc, pick, init, Reach, here, next,
}

-- between Lock and Unlock
abbrev pub inside : Pc → Bool
inside (checking _) = true
inside (loading _) = true
inside _ = false

-- with a request that has no reply yet
abbrev pub is_open : Pc → Bool
is_open idle = false
is_open (served _ _) = false
is_open _ = true

inside-is_open : (q : Pc) → inside q ≡ true → is_open q ≡ true
inside-is_open idle e = ground arith
inside-is_open (reading r) e = refl
inside-is_open (waiting r) e = refl
inside-is_open (checking r) e = refl
inside-is_open (loading r) e = refl
inside-is_open (served r reply) e = ground arith

record Held (m : Shared) (pc : ℕ → Pc) : Type 0 where
  owned : (j : ℕ) → inside (pc j) ≡ true → m.owner ≡ some j
  owns : (j : ℕ) → m.owner ≡ some j → inside (pc j) ≡ true

module _ (i : ℕ) (pc : ℕ → Pc) where
  outside-Held :
      (m m' : Shared) (p : Pc)
      → Held m pc
      → inside (pc i) ≡ false
      → inside p ≡ false
      → m'.owner ≡ m.owner
      → Held m' (set_pc pc i p)
  unfolding set_pc
  outside-Held m m' p h was is same = record {
    owned = λ j e. ground (arith, h.owned j, ==_iff j i);
    owns = λ j e. ground (arith, h.owns j, h.owns i, ==_iff j i);
  }

  enter-Held :
      (m m' : Shared) (p : Pc)
      → Held m pc
      → m.owner ≡ none
      → inside p ≡ true
      → m'.owner ≡ some i
      → Held m' (set_pc pc i p)
  unfolding set_pc
  enter-Held m m' p h free is mine = record {
    owned = λ j e. ground (arith, h.owned j, ==_iff j i);
    owns = λ j e. ground (arith, ==_iff j i);
  }

  stay-Held :
      (m : Shared) (p : Pc)
      → Held m pc
      → inside (pc i) ≡ true
      → inside p ≡ true
      → Held m (set_pc pc i p)
  unfolding set_pc
  stay-Held m p h was is = record {
    owned = λ j e. ground (arith, h.owned j, h.owned i, ==_iff j i);
    owns = λ j e. ground (arith, h.owns j, ==_iff j i);
  }

  exit-Held :
      (m m' : Shared) (p : Pc)
      → Held m pc
      → inside (pc i) ≡ true
      → inside p ≡ false
      → m'.owner ≡ none
      → Held m' (set_pc pc i p)
  unfolding set_pc
  exit-Held m m' p h was is free = record {
    owned = λ j e. ground (arith, h.owned j, h.owned i, ==_iff j i);
    owns = λ j e. ground (arith, free, e);
  }

  Move-Held :
      {Stored : Workflow → Type 0} {m m' : Shared} {q p : Pc}
      → Move Stored i m q m' p
      → pc i ≡ q
      → Held m pc
      → Held m' (set_pc pc i p)
  Move-Held look at h = outside-Held _ _ _ h (ap inside at) refl refl
  Move-Held begin_refresh at h = outside-Held _ _ _ h (ap inside at) refl refl
  Move-Held (hit free e) at h = outside-Held _ _ _ h (ap inside at) refl refl
  Move-Held (miss free e) at h = outside-Held _ _ _ h (ap inside at) refl refl
  Move-Held (lock free) at h = enter-Held _ _ _ h free refl refl
  Move-Held (hit_again e) at h = exit-Held _ _ _ h (ap inside at) refl refl
  Move-Held (miss_again e) at h = stay-Held _ _ h (ap inside at) refl
  Move-Held (load_one w stored same_id same_version) at h =
      exit-Held _ _ _ h (ap inside at) refl refl
  Move-Held (load_type workflows p) at h = exit-Held _ _ _ h (ap inside at) refl refl
  Move-Held (load_page workflows stored) at h = exit-Held _ _ _ h (ap inside at) refl refl
  Move-Held fail at h = exit-Held _ _ _ h (ap inside at) refl refl
  Move-Held leave at h = outside-Held _ _ _ h (ap inside at) refl refl

init-Held : Held init.mem init.pc
init-Held = record { owned = λ j e. ground arith; owns = λ j e. ground arith }

Reach-Held : {Stored : Workflow → Type 0} {s : System} → Reach Stored init s → Held s.mem s.pc
Reach-Held here = init-Held
Reach-Held (next {t} r (pick i mv)) = Move-Held i t.pc mv refl (Reach-Held r)

module _ (Stored : Workflow → Type 0) (i : ℕ) (m : Shared) where
  abbrev pub CanMove : Pc → Type 0
  CanMove q = (m' : Shared) × (p : Pc) × Move Stored i m q m' p

  checking-CanMove : (r : Request) → CanMove (checking r)
  checking-CanMove r = elim (Option-cases (cached r m.cache)) [
    | inl e ↦ (_, _, miss_again e)
    | inr (reply, e) ↦ (_, _, hit_again e)
  ]

  reading-CanMove : (r : Request) → m.owner ≡ none → CanMove (reading r)
  reading-CanMove r free = elim (Option-cases (cached r m.cache)) [
    | inl e ↦ (_, _, miss free e)
    | inr (reply, e) ↦ (_, _, hit free e)
  ]

  inside-CanMove : (q : Pc) → inside q ≡ true → CanMove q
  inside-CanMove idle e = ground arith
  inside-CanMove (reading r) e = ground arith
  inside-CanMove (waiting r) e = ground arith
  inside-CanMove (checking r) e = checking-CanMove r
  inside-CanMove (loading r) e = (_, _, fail)
  inside-CanMove (served r reply) e = ground arith

  free-CanMove : (q : Pc) → m.owner ≡ none → is_open q ≡ true → CanMove q
  free-CanMove idle free e = ground arith
  free-CanMove (reading r) free e = reading-CanMove r free
  free-CanMove (waiting r) free e = (_, _, lock free)
  free-CanMove (checking r) free e = checking-CanMove r
  free-CanMove (loading r) free e = (_, _, fail)
  free-CanMove (served r reply) free e = ground arith

-- In whatever order lookups and refreshes move on, as long as a request has no reply, some goroutine
-- with such a request can take a step: any that waits if the mutex is free, and else the one that
-- holds it, which is between Lock and Unlock.
pub never_stuck :
    (Stored : Workflow → Type 0) (j : ℕ) (s : System)
    → Reach Stored init s
    → is_open (s.pc j) ≡ true
    → (i : ℕ) × (is_open (s.pc i) ≡ true)
      × CanMove Stored i s.mem (s.pc i)
      × (((s.mem.owner ≡ none) × (i ≡ j)) ⊎ ((s.mem.owner ≡ some i) × (inside (s.pc i) ≡ true)))
never_stuck Stored j s reach h = elim (Option-cases s.mem.owner) [
  | inl free ↦ (j, h, free-CanMove Stored j s.mem (s.pc j) free h, inl (free, refl))
  | inr (k, own) ↦
      let held : Held s.mem s.pc = Reach-Held reach in
      (
        k,
        inside-is_open (s.pc k) (held.owns k own),
        inside-CanMove Stored k s.mem (s.pc k) (held.owns k own),
        inr (own, held.owns k own),
      )
]
