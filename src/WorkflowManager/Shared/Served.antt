-- ===== src/WorkflowManager/Shared/Served.antt =====
-- What the lookups answer, in every order of steps.
use mathlib.Core.Path.{subst}
use dahlia.Common.{ℕ, ℤ, Bool-cases, Text, ◌==◌, ◌≡◌, inl, inr, arith}
use dahlia.Domain.{Workflow}
use dahlia.WorkflowManager.Shared.{
  Request, Reply, failed, keep_one, Shared, Pc, served, Move, look, begin_refresh, hit, miss, lock,
  hit_again, miss_again, load_one, load_type, load_page, fail, leave, System, set_pc, pick, init,
  Reach, here, next,
}
use dahlia.WorkflowManager.Shared.Sound.{HasOneType}
use dahlia.WorkflowManager.Shared.Right.{
  IsRight, failed-IsRight, IsSound, cached-IsRight, keep_one-IsSound, keep_type-IsSound,
  keep_page-IsSound, nothing-IsStored, nothing-IsIndexOf,
}

module _ (Stored : Workflow → Type 0) (typed_once : HasOneType Stored) where
  record Inv (m : Shared) (pc : ℕ → Pc) : Type 0 where
    sound : IsSound Stored typed_once m.cache
    right : (j : ℕ) (r : Request) (reply : Reply) → pc j ≡ served r reply → IsRight Stored r reply

  module _ (i : ℕ) (pc : ℕ → Pc) where
    -- a step that ends without a reply, and keeps the memory
    step-Inv :
        (m m' : Shared) (p : Pc)
        → Inv m pc
        → IsSound Stored typed_once m'.cache
        → ((r : Request) (reply : Reply) → p ≡ served r reply → IsRight Stored r reply)
        → Inv m' (set_pc pc i p)
    unfolding set_pc
    step-Inv m m' p inv sound' ends = record {
      sound = sound';
      right = λ j r reply h. elim (Bool-cases (j == i)) [
        | inl same ↦ ends r reply (ground (arith, same, h))
        | inr other ↦ inv.right j r reply (ground (arith, other, h))
      ];
    }

    replied :
        (r r' : Request) (reply reply' : Reply)
        → IsRight Stored r reply
        → served r reply ≡ served r' reply'
        → IsRight Stored r' reply'
    replied r r' reply reply' right e =
        let same_r : r ≡ r' = ground arith in
        let same : reply ≡ reply' = ground arith in
        subst (λ q. IsRight Stored q reply') same_r (subst (IsRight Stored r) same right)

    Move-Inv :
        {m m' : Shared} {q p : Pc} → Move Stored i m q m' p → Inv m pc → Inv m' (set_pc pc i p)
    Move-Inv look inv = step-Inv _ _ _ inv inv.sound (λ r reply h. ground arith)
    Move-Inv begin_refresh inv = step-Inv _ _ _ inv inv.sound (λ r reply h. ground arith)
    Move-Inv (hit free e) inv =
        step-Inv _ _ _ inv inv.sound
          (λ r' reply'. replied _ r' _ reply' (cached-IsRight Stored typed_once _ _ _ inv.sound e))
    Move-Inv (miss free e) inv = step-Inv _ _ _ inv inv.sound (λ r reply h. ground arith)
    Move-Inv (lock free) inv = step-Inv _ _ _ inv inv.sound (λ r reply h. ground arith)
    Move-Inv (hit_again e) inv =
        step-Inv _ _ _ inv inv.sound
          (λ r' reply'. replied _ r' _ reply' (cached-IsRight Stored typed_once _ _ _ inv.sound e))
    Move-Inv (miss_again e) inv = step-Inv _ _ _ inv inv.sound (λ r reply h. ground arith)
    Move-Inv {m} (load_one {workflow_id} {version} w stored same_id same_version) inv =
        step-Inv _ _ _ inv
          (subst (λ (k : Text × ℤ). IsSound Stored typed_once (keep_one k.0 k.1 w m.cache))
            (ground (arith, same_id, same_version))
            (keep_one-IsSound Stored typed_once w m.cache stored inv.sound))
          (λ r' reply'. replied _ r' _ reply' (stored, same_id, same_version))
    Move-Inv (load_type workflows p) inv =
        step-Inv _ _ _ inv (keep_type-IsSound Stored typed_once _ workflows _ p inv.sound)
          (λ r' reply'. replied _ r' _ reply' p)
    Move-Inv (load_page workflows stored) inv =
        step-Inv _ _ _ inv (keep_page-IsSound Stored typed_once workflows stored)
          (λ r' reply'. replied _ r' _ reply' tt)
    Move-Inv (fail {r}) inv =
        step-Inv _ _ _ inv inv.sound
          (λ r' reply'. replied r r' failed reply' (failed-IsRight Stored r))
    Move-Inv leave inv = step-Inv _ _ _ inv inv.sound (λ r reply h. ground arith)

  init-Inv : Inv init.mem init.pc
  unfolding IsSound
  init-Inv = record {
    sound = (nothing-IsStored Stored typed_once, nothing-IsIndexOf Stored typed_once _);
    right = λ j r reply h. ground arith;
  }

  Reach-Inv : {s : System} → Reach Stored init s → Inv s.mem s.pc
  Reach-Inv here = init-Inv
  Reach-Inv (next {t} r (pick i mv)) = Move-Inv i t.pc mv (Reach-Inv r)

-- If the signal type of a stored workflow's id and version does not change: in whatever order lookups
-- and refreshes move on, a lookup that is answered without an error gives a workflow that is stored
-- with the id and version asked for, or workflows that are stored and have the signal type asked for,
-- and a request is never answered with a reply of another kind.
pub replies-IsRight :
    (Stored : Workflow → Type 0) (i : ℕ) (r : Request) (reply : Reply) (s : System)
    → HasOneType Stored
    → Reach Stored init s
    → s.pc i ≡ served r reply
    → IsRight Stored r reply
replies-IsRight Stored i r reply s typed_once reach h =
    (Reach-Inv Stored typed_once reach).right i r reply h
