-- ===== src/Runtime/Monad.antt =====
-- The monad of the model, and its primitive calls.
use dahlia.Common.{String, Option, none, some, List, [], ◌∷◌, Text}
use dahlia.Errors.{Error, wrap, Result, ok, err}
use dahlia.Domain.{Workflow}
use dahlia.Runtime.Events.{Event, Trace, Env}

-- The fields of workflowManager that change: both maps, the first entry of a key being read.
pub record WorkflowCache : Type 0 where
  pub workflow_cache : List (Text × Workflow)
  pub signal_type_index : List (Text × List Text)

pub record World (S : Type 0) : Type 0 where
  pub local : S
  pub cache : WorkflowCache
  pub trace : Trace

-- How a call ends: with a value, with an error, or in a panic of the process.
pub data Exit (A : Type 0) : Type 0 where
  returned : A → Exit A
  errored : Error → Exit A
  panicked : Exit A

abbrev pub Go : Type 0 → Type 0 → Type 0
Go S A = Env → World S → Exit A × World S

module _ {S A : Type 0} where
  unfoldable pub pure : A → Go S A
  pure a env w = (returned a, w)

  unfoldable pub raise : Error → Go S A
  raise e env w = (errored e, w)

  unfoldable pub panic : Go S A
  panic env w = (panicked, w)

  unfoldable pub lift : Result A → Go S A
  unfolding pure raise
  lift (ok a) = pure a
  lift (err e) = raise e

module _ {S A B : Type 0} where
  -- what follows a call: on its value, or on its error; a panic goes on up
  abbrev pub continue : Exit A → (A → Go S B) → (Error → Go S B) → Go S B
  continue (returned a) f g = f a
  continue (errored e) f g = g e
  continue panicked f g = λ env w. (panicked, w)

  unfoldable pub follow : Go S A → (A → Go S B) → (Error → Go S B) → Go S B
  follow m f g env w = let (r, w') = m env w in continue r f g env w'

module _ {S A : Type 0} where
  -- `if err := m(); err != nil { return h(err) }`
  unfoldable pub catch : (Error → Go S A) → Go S A → Go S A
  unfolding follow pure
  catch h m = follow m pure h

  -- the same with `fmt.Errorf("…: %w", err)`
  unfoldable pub wrapping : String → Go S A → Go S A
  unfolding catch raise
  wrapping context = catch (λ e. raise (wrap context [] e))

  -- the value and the error, for code that looks at both
  unfoldable pub attempt : Go S A → Go S (Result A)
  unfolding follow pure
  attempt m = follow m (λ a. pure (ok a)) (λ e. pure (err e))

  -- the error is logged and dropped
  unfoldable pub ignore : Go S A → Go S (Unit {0})
  unfolding follow pure
  ignore m = follow m (λ _. pure tt) (λ _. pure tt)

module _ {S : Type 0} where
  unfoldable pub get : Go S S
  get env w = (returned w.local, w)

  unfoldable pub modify : (S → S) → Go S (Unit {0})
  modify f env w = (returned tt, record w { local = f w.local })

  unfoldable pub ask : {A : Type 0} → (Env → Go S A) → Go S A
  ask m env w = m env env w

  -- a call of the outside: the environment answers it, and the trace keeps it
  unfoldable pub call : {A : Type 0} → (Env → Trace → A) → (A → Event) → Go S A
  call answer event env w =
      let a = answer env w.trace in (returned a, record w { trace = event a ∷ w.trace })

  unfoldable pub of_option : Option Error → Go S (Unit {0})
  unfolding pure raise
  of_option none = pure tt
  of_option (some e) = raise e

module _ {S A B : Type 0} where
  infixl 5 ◌>>=◌
  -- opening this opens all of this file
  unfoldable pub ◌>>=◌ : Go S A → (A → Go S B) → Go S B
  unfolding pure raise panic lift follow catch wrapping attempt ignore get modify ask call of_option
  m >>= f = follow m f raise

  infixl 5 ◌>>◌
  abbrev pub ◌>>◌ : Go S A → Go S B → Go S B
  m >> k = m >>= λ _. k

  -- A call that is given a pointer to the object `a`: how it ends, and the object afterwards.
  unfoldable pub with_object : A → Go A B → Go S (Exit B × A)
  with_object a m env w =
      let (r, w') = m env (record { local = a; cache = w.cache; trace = w.trace }) in
      (returned (r, w'.local), record { local = w.local; cache = w'.cache; trace = w'.trace })

  -- The same where the object is not looked at afterwards.
  unfoldable pub on_object : A → Go A B → Go S B
  on_object a m env w =
      let (r, w') = m env (record { local = a; cache = w.cache; trace = w.trace }) in
      (r, record { local = w.local; cache = w'.cache; trace = w'.trace })
