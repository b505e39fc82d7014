-- ===== src/Runtime/Steps.antt =====
-- What follows a call whose result is known.
use dahlia.Common.{arith, String, [], ◌≡◌, ap}
use dahlia.Errors.{Error, wrap, ok, err}
use dahlia.Runtime.Monad.{
  Exit, panicked, World, returned, errored, Go, continue, catch, wrapping, attempt, ignore, raise,
  ◌>>=◌,
}
use dahlia.Runtime.Events.{Env}

module _ {S A B : Type 0} (m : Go S A) (f : A → Go S B) (env : Env) (w w' : World S) where
  pub bind-returned : (a : A) → m env w ≡ (returned a, w') → (m >>= f) env w ≡ f a env w'
  unfolding ◌>>=◌
  bind-returned a h = ap (λ p. continue p.0 f raise env p.1) h

  pub bind-errored : (e : Error) → m env w ≡ (errored e, w') → (m >>= f) env w ≡ (errored e, w')
  unfolding ◌>>=◌
  bind-errored e h = ap (λ p. continue p.0 f raise env p.1) h

module _ {S A : Type 0} (m : Go S A) (env : Env) (w w' : World S) where
  pub wrapping-returned :
      (context : String) (a : A)
      → m env w ≡ (returned a, w')
      → wrapping context m env w ≡ (returned a, w')
  unfolding ◌>>=◌
  wrapping-returned context a h =
      ap
        (λ p.
          continue p.0 (λ a env w. (returned a, w)) (λ e env w. (errored (wrap context [] e), w))
            env p.1)
        h

  pub wrapping-errored :
      (context : String) (e : Error)
      → m env w ≡ (errored e, w')
      → wrapping context m env w ≡ (errored (wrap context [] e), w')
  unfolding ◌>>=◌
  wrapping-errored context e h =
      ap
        (λ p.
          continue p.0 (λ a env w. (returned a, w)) (λ e env w. (errored (wrap context [] e), w))
            env p.1)
        h

  pub catch-returned :
      (handler : Error → Go S A) (a : A)
      → m env w ≡ (returned a, w')
      → catch handler m env w ≡ (returned a, w')
  unfolding ◌>>=◌
  catch-returned handler a h = ap (λ p. continue p.0 (λ a env w. (returned a, w)) handler env p.1) h

  pub catch-errored :
      (handler : Error → Go S A) (e : Error)
      → m env w ≡ (errored e, w')
      → catch handler m env w ≡ handler e env w'
  unfolding ◌>>=◌
  catch-errored handler e h = ap (λ p. continue p.0 (λ a env w. (returned a, w)) handler env p.1) h

  pub ignore-errored : (e : Error) → m env w ≡ (errored e, w') → ignore m env w ≡ (returned tt, w')
  unfolding ◌>>=◌
  ignore-errored e h =
      ap (λ p. continue p.0 (λ _ env w. (returned tt, w)) (λ _ env w. (returned tt, w)) env p.1) h

module _ {S A : Type 0} (m : Go S A) (env : Env) (w : World S) where
  pub attempt_of_returned :
      (a : A) → (m env w).0 ≡ returned a → attempt m env w ≡ (returned (ok a), (m env w).1)
  unfolding ◌>>=◌
  attempt_of_returned a h =
      ap
        (λ r.
          continue r (λ a env w. (returned (ok a), w)) (λ e env w. (returned (err e), w)) env
            (m env w).1)
        h

  pub attempt_of_errored :
      (e : Error) → (m env w).0 ≡ errored e → attempt m env w ≡ (returned (err e), (m env w).1)
  unfolding ◌>>=◌
  attempt_of_errored e h =
      ap
        (λ r.
          continue r (λ a env w. (returned (ok a), w)) (λ e env w. (returned (err e), w)) env
            (m env w).1)
        h

never_after :
    {S A B : Type 0} (r : Exit A) (f : A → Go S B) (env : Env) (w : World S) (b : B)
    → ((a : A) (w' : World S) → (f a env w').0 ≡ returned b → ⊥)
    → (continue r f raise env w).0 ≡ returned b
    → ⊥
unfolding raise
never_after (returned a) f env w b never h = never a w h
never_after (errored e) f env w b never h = ground arith
never_after panicked f env w b never h = ground arith

-- a value that no continuation returns is not returned
pub bind-never :
    {S A B : Type 0} (m : Go S A) (f : A → Go S B) (env : Env) (w : World S) (b : B)
    → ((a : A) (w' : World S) → (f a env w').0 ≡ returned b → ⊥)
    → ((m >>= f) env w).0 ≡ returned b
    → ⊥
unfolding ◌>>=◌
bind-never m f env w b never h = never_after (m env w).0 f env (m env w).1 b never h
