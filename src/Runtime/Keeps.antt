-- ===== src/Runtime/Keeps.antt =====
-- Predicates on the trace that a function keeps, however it ends: one rule for each way to build a
-- function.
use dahlia.Common.{ℕ, ℤ, String, Option, none, some, Text, ◌∷◌, Bool, true, false, if◌then◌else◌}
use dahlia.Errors.{Error, Result, ok, err}
use dahlia.Runtime.Events.{
  Table, Item, Guard, Key, Event, read_clock, made_uuid, put, got, queried, workflow_runs,
  action_logs, Trace, Env, AttributeMap,
}
use dahlia.Runtime.Monad.{
  World, Exit, returned, errored, panicked, Go, pure, raise, panic, lift, continue, follow, catch,
  wrapping, attempt, ignore, get, modify, ask, call, of_option, on_object, with_object, ◌>>=◌,
}

pub record Keeps {S A : Type 0} (P : Trace → Type 0) (m : Go S A) : Type 0 where
  pub at : (env : Env) (w : World S) → P w.trace → P (m env w).1.trace

module _ {P : Trace → Type 0} {S A : Type 0} where
  pub Keeps-pure : (a : A) → Keeps P (pure {S = S} a)
  unfolding pure
  Keeps-pure a = record { at = λ env w h. h }

  pub Keeps-raise : (e : Error) → Keeps P (raise {S = S} {A = A} e)
  unfolding raise
  Keeps-raise e = record { at = λ env w h. h }

  pub Keeps-panic : Keeps P (panic {S = S} {A = A})
  unfolding panic
  Keeps-panic = record { at = λ env w h. h }

  pub Keeps-lift : (r : Result A) → Keeps P (lift {S = S} r)
  unfolding lift
  Keeps-lift (ok a) = record { at = λ env w h. h }
  Keeps-lift (err e) = record { at = λ env w h. h }

  pub Keeps-if : (b : Bool) (m n : Go S A) → Keeps P m → Keeps P n → Keeps P (if b then m else n)
  Keeps-if true m n km kn = km
  Keeps-if false m n km kn = kn

  pub Keeps-ask : (m : Env → Go S A) → ((env : Env) → Keeps P (m env)) → Keeps P (ask m)
  unfolding ask
  Keeps-ask m km = record { at = λ env w h. (km env).at env w h }

  pub Keeps-call :
      (answer : Env → Trace → A) (event : A → Event)
      → ((a : A) (t : Trace) → P t → P (event a ∷ t))
      → Keeps P (call {S = S} answer event)
  unfolding call
  Keeps-call answer event k = record { at = λ env w h. k (answer env w.trace) w.trace h }

module _ {P : Trace → Type 0} {S A B : Type 0} where
  Keeps-continue :
      (r : Exit A) (f : A → Go S B) (g : Error → Go S B)
      → ((a : A) → Keeps P (f a))
      → ((e : Error) → Keeps P (g e))
      → Keeps P (continue r f g)
  Keeps-continue (returned a) f g kf kg = kf a
  Keeps-continue (errored e) f g kf kg = kg e
  Keeps-continue panicked f g kf kg = record { at = λ env w h. h }

  Keeps-follow :
      (m : Go S A) (f : A → Go S B) (g : Error → Go S B)
      → Keeps P m
      → ((a : A) → Keeps P (f a))
      → ((e : Error) → Keeps P (g e))
      → Keeps P (follow m f g)
  unfolding follow
  Keeps-follow m f g km kf kg = record {
    at = λ env w h. (Keeps-continue (m env w).0 f g kf kg).at env (m env w).1 (km.at env w h);
  }

  pub Keeps-bind :
      (m : Go S A) (f : A → Go S B) → Keeps P m → ((a : A) → Keeps P (f a)) → Keeps P (m >>= f)
  unfolding ◌>>=◌
  Keeps-bind m f km kf = Keeps-follow m f raise km kf (λ e. Keeps-raise e)

  -- the same for one call, from what its first part leaves
  pub bind-at :
      (m : Go S A) (f : A → Go S B) (env : Env) (w : World S)
      → P (m env w).1.trace
      → ((a : A) → Keeps P (f a))
      → P ((m >>= f) env w).1.trace
  unfolding ◌>>=◌
  bind-at m f env w h kf =
      (Keeps-continue (m env w).0 f raise kf (λ e. Keeps-raise e)).at env (m env w).1 h

  -- the object of the call starts afresh, the trace goes on
  pub Keeps-on_object : (a : A) (m : Go A B) → Keeps P m → Keeps P (on_object {S = S} a m)
  unfolding on_object
  Keeps-on_object a m km = record { at = λ env w h. km.at env _ h }

  pub Keeps-with_object : (a : A) (m : Go A B) → Keeps P m → Keeps P (with_object {S = S} a m)
  unfolding with_object
  Keeps-with_object a m km = record { at = λ env w h. km.at env _ h }

module _ {P : Trace → Type 0} {S A : Type 0} where
  pub Keeps-catch :
      (h : Error → Go S A) (m : Go S A)
      → ((e : Error) → Keeps P (h e))
      → Keeps P m
      → Keeps P (catch h m)
  unfolding catch
  Keeps-catch h m kh km = Keeps-follow m pure h km (λ a. Keeps-pure a) kh

  pub Keeps-wrapping : (context : String) (m : Go S A) → Keeps P m → Keeps P (wrapping context m)
  unfolding wrapping
  Keeps-wrapping context m km = Keeps-follow m pure _ km (λ a. Keeps-pure a) (λ e. Keeps-raise _)

  pub Keeps-attempt : (m : Go S A) → Keeps P m → Keeps P (attempt m)
  unfolding attempt
  Keeps-attempt m km = Keeps-follow m _ _ km (λ a. Keeps-pure _) (λ e. Keeps-pure _)

  pub Keeps-ignore : (m : Go S A) → Keeps P m → Keeps P (ignore m)
  unfolding ignore
  Keeps-ignore m km = Keeps-follow m _ _ km (λ a. Keeps-pure _) (λ e. Keeps-pure _)

module _ {P : Trace → Type 0} {S : Type 0} where
  pub Keeps-get : Keeps P (get {S = S})
  unfolding get
  Keeps-get = record { at = λ env w h. h }

  pub Keeps-modify : (f : S → S) → Keeps P (modify f)
  unfolding modify
  Keeps-modify f = record { at = λ env w h. h }

  pub Keeps-of_option : (o : Option Error) → Keeps P (of_option {S = S} o)
  unfolding of_option
  Keeps-of_option none = record { at = λ env w h. h }
  Keeps-of_option (some e) = record { at = λ env w h. h }

pub ruleset keeps_rules = (
  Keeps-pure, Keeps-raise, Keeps-panic, Keeps-lift, Keeps-if, Keeps-ask, Keeps-bind,
  Keeps-on_object, Keeps-with_object, Keeps-catch, Keeps-wrapping, Keeps-attempt, Keeps-ignore,
  Keeps-get, Keeps-modify, Keeps-of_option,
)

-- A predicate that says nothing of the clock, of identifiers, of reads of the database and of the
-- writes to the tables of runs and action logs.
pub record Ignores (P : Trace → Type 0) : Type 0 where
  pub clock : (now : ℕ) (t : Trace) → P t → P (read_clock now ∷ t)
  pub uuid : (id : Text) (t : Trace) → P t → P (made_uuid id ∷ t)
  pub run_put :
      (item : Item) (guard : Guard) (outcome : Option Error) (t : Trace)
      → P t
      → P (put workflow_runs item guard outcome ∷ t)
  pub log_put :
      (item : Item) (guard : Guard) (outcome : Option Error) (t : Trace)
      → P t
      → P (put action_logs item guard outcome ∷ t)
  pub get : (table : Table) (key : Key) (t : Trace) → P t → P (got table key ∷ t)
  pub query :
      (table : Table) (key : Key) (limit : Option ℤ) (start : Option AttributeMap) (t : Trace)
      → P t
      → P (queried table key limit start ∷ t)
