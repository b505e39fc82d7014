-- ===== src/Runtime/Returns.antt =====
-- Functions that return in an environment, from every world: one rule for each way to build one.
use dahlia.Common.{String, ◌≡◌, refl, ap, ◌∙◌, ◌⊎◌, inl, inr}
use dahlia.Errors.{Error, ok, err}
use dahlia.Runtime.Events.{Env, Trace, Event}
use dahlia.Runtime.Monad.{
  World, Exit, returned, errored, Go, continue, pure, wrapping, attempt, ignore, get, modify, ask,
  call, ◌>>=◌,
}
use dahlia.Clock.{now}
use dahlia.Runtime.Steps.{bind-returned, wrapping-returned}

pub record Returns {S A : Type 0} (env : Env) (m : Go S A) : Type 0 where
  pub at : (w : World S) → (a : A) × ((m env w).0 ≡ returned a)

module _ {env : Env} {S A : Type 0} where
  pub Returns-pure : (a : A) → Returns env (pure {S = S} a)
  unfolding pure
  Returns-pure a = record { at = λ w. (a, refl) }

  pub Returns-ask : (m : Env → Go S A) → Returns env (m env) → Returns env (ask m)
  unfolding ask
  Returns-ask m r = record { at = λ w. r.at w }

  pub Returns-call :
      (answer : Env → Trace → A) (event : A → Event) → Returns env (call {S = S} answer event)
  unfolding call
  Returns-call answer event = record { at = λ w. (answer env w.trace, refl) }

  pub Returns-wrapping :
      (context : String) (m : Go S A) → Returns env m → Returns env (wrapping context m)
  Returns-wrapping context m r = record {
    at = λ w.
        let (a, h) = r.at w in
        (
          a,
          ap (λ p. p.0)
              (wrapping-returned m env w (m env w).1 context a (ap (λ e. (e, (m env w).1)) h)),
        );
  }

module _ {env : Env} {S A B : Type 0} where
  pub Returns-bind :
      (m : Go S A) (f : A → Go S B)
      → Returns env m
      → ((a : A) → Returns env (f a))
      → Returns env (m >>= f)
  Returns-bind m f rm rf = record {
    at = λ w.
        let (a, h) = rm.at w in
        let (b, k) = (rf a).at (m env w).1 in
        (
          b,
          ap (λ p. p.0) (bind-returned m f env w (m env w).1 a (ap (λ e. (e, (m env w).1)) h)) ∙ k,
        );
  }

module _ {env : Env} {S A : Type 0} where
  pub Returns-ignore : (m : Go S A) → Returns env m → Returns env (ignore m)
  unfolding ◌>>=◌
  Returns-ignore m r = record {
    at = λ w. (
      tt,
      ap
          (λ e.
            (continue e (λ _ env w. (returned tt, w)) (λ _ env w. (returned tt, w)) env
              (m env w).1).0)
          (r.at w).1,
    );
  }

  -- a call that returns or fails returns when its error is dropped
  pub Returns-ignored :
      (m : Go S A)
      → ((w : World S)
          → ((a : A) × ((m env w).0 ≡ returned a)) ⊎ ((e : Error) × ((m env w).0 ≡ errored e)))
      → Returns env (ignore m)
  unfolding ◌>>=◌
  Returns-ignored m ends = record { at = λ w. (tt, dropped w (ends w)) }
    where
      end : World S → Exit A → Exit (Unit {0})
      end w r =
          (continue r (λ _ env w. (returned tt, w)) (λ _ env w. (returned tt, w)) env (m env w).1).0

      dropped :
          (w : World S)
          → ((a : A) × ((m env w).0 ≡ returned a)) ⊎ ((e : Error) × ((m env w).0 ≡ errored e))
          → (ignore m env w).0 ≡ returned tt
      dropped w (inl (a, h)) = ap (end w) h
      dropped w (inr (e, h)) = ap (end w) h

  pub attempt-returned :
      (m : Go S A)
      → Returns env m
      → (w : World S) → (a : A) × ((attempt m env w).0 ≡ returned (ok a))
  unfolding ◌>>=◌
  attempt-returned m r w =
      let (a, h) = r.at w in
      (
        a,
        ap
            (λ e.
              (continue e (λ a env w. (returned (ok a), w)) (λ e env w. (returned (err e), w)) env
                (m env w).1).0)
            h,
      )

module _ {env : Env} {S : Type 0} where
  pub Returns-now : Returns env (now {S = S})
  unfolding now
  Returns-now = Returns-call _ _

  pub Returns-get : Returns env (get {S = S})
  unfolding get
  Returns-get = record { at = λ w. (w.local, refl) }

  pub Returns-modify : (f : S → S) → Returns env (modify f)
  unfolding modify
  Returns-modify f = record { at = λ w. (tt, refl) }

pub ruleset returns_rules = (
  Returns-pure, Returns-ask, Returns-call, Returns-wrapping, Returns-bind, Returns-ignore,
  Returns-get, Returns-modify,
)
