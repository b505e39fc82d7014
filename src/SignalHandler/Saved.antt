-- ===== src/SignalHandler/Saved.antt =====
-- How CreateSignalService answers after its attempt to save the signal.
use mathlib.Core.Path.{subst}
use dahlia.Common.{
  ℕ, Bool, true, false, if◌then◌else◌, Option, none, some, [], ◌∷◌, Text, ◌≡◌, refl, sym, ap, ◌∙◌,
  ◌⊎◌, inl, inr, arith,
}
use dahlia.Errors.{
  Error, Result, ok, err, is_duplicate_signal_error, errorf, wrap, optimistic_lock_failed,
  not_found, duplicate_signal, conditional_check_failed, node_exists, no_node, external,
}
use dahlia.Domain.{Signal}
use dahlia.ErrorCollection.{
  ErrorCollection, new_error_collection, add_error, code_internal_server_error,
}
use dahlia.Runtime.{
  Env, World, Exit, returned, errored, raise, pure, attempt, Item, signals, of_signal, is_new,
  by_id, ◌>>=◌,
}
use dahlia.Runtime.Steps.{bind-returned}
use dahlia.Repository.Signals
use dahlia.Scheduler.Sending.{accepted}
use dahlia.SignalHandler.{
  CreateSignalResponse, Response, after_save, answer_duplicate, accepted as answered, refused,
  existing_id,
}

-- what the caller is told after the attempt to save the signal, with so many workflows queued
abbrev pub IsReply : Result (Unit {0}) → ℕ → CreateSignalResponse → Option ErrorCollection → Type 0
IsReply (ok _) n response errors = (response.workflows_queued ≡ n) × (errors ≡ none)
IsReply (err e) n response errors =
    ((is_duplicate_signal_error e ≡ true) × (response.workflows_queued ≡ n) × (errors ≡ none))
    ⊎ ((is_duplicate_signal_error e ≡ false)
        × (response.workflows_queued ≡ 0)
        × (errors
            ≡ some (
                add_error code_internal_server_error "failed to save signal" (some e)
                  new_error_collection)))

abbrev failure : Error → Error
failure conditional_check_failed = duplicate_signal
failure e = wrap "failed to create signal" [] e

module _ {S : Type 0} where
  failure_lem :
      (e : Error) (env : Env) (w : World S)
      → Signals.create_failed {S = S} e env w ≡ (errored (failure e), w)
  unfolding Signals.create_failed raise
  failure_lem (errorf context args) env w = refl
  failure_lem (wrap context args e) env w = refl
  failure_lem optimistic_lock_failed env w = refl
  failure_lem not_found env w = refl
  failure_lem duplicate_signal env w = refl
  failure_lem conditional_check_failed env w = refl
  failure_lem node_exists env w = refl
  failure_lem no_node env w = refl
  failure_lem (external n) env w = refl

  abbrev Saves : World S → Exit (Result (Unit {0})) × World S → Type 0
  Saves w (r, w') =
      (saved : Result (Unit {0})) × (r ≡ returned saved) × (accepted w'.trace ≡ accepted w.trace)

  create-Saves :
      (signal : Signal) (env : Env) (w : World S) (m o : Option Error)
      → env.marshal (of_signal signal) ≡ m
      → env.put_item w.trace signals (of_signal signal) is_new ≡ o
      → Saves w (attempt (Signals.create signal) env w)
  unfolding Signals.create ◌>>=◌
  create-Saves signal env w (some e) o h k =
      (err (wrap "failed to marshal signal" [] e), ground arith, ground arith)
  create-Saves signal env w none none h k = (ok tt, ground arith, ground arith)
  create-Saves signal env w none (some e) h k =
      (err (failure e), grind (arith, failure_lem), grind (arith, failure_lem))

  abbrev Finds : World S → Exit (Result Signal) × World S → Type 0
  Finds w (r, w') =
      (found : Result Signal) × (r ≡ returned found) × (accepted w'.trace ≡ accepted w.trace)

  get-Finds :
      (signal_id : Text) (env : Env) (w : World S) (o : Result (Option Item))
      → env.get_item w.trace signals (by_id signal_id) ≡ o
      → Finds w (attempt (Signals.get_by_id signal_id) env w)
  unfolding Signals.get_by_id ◌>>=◌
  get-Finds signal_id env w (err e) h =
      (err (wrap "failed to get signal" [] e), ground arith, ground arith)
  get-Finds signal_id env w (ok none) h =
      (err (errorf "signal not found: %s" (signal_id ∷ [])), ground arith, ground arith)
  get-Finds signal_id env w (ok (some item)) h = read (env.unmarshal_signal item) refl
    where
      read :
          (r : Result Signal)
          → env.unmarshal_signal item ≡ r
          → Finds w (attempt (Signals.get_by_id signal_id) env w)
      read (ok signal) k = (ok signal, ground arith, ground arith)
      read (err e) k = (err (wrap "failed to unmarshal signal" [] e), ground arith, ground arith)

  abbrev pub Replies : Result (Unit {0}) → ℕ → World S → Exit Response × World S → Type 0
  Replies saved n w (r, w') =
      (response : CreateSignalResponse) × (errors : Option ErrorCollection) × (r
        ≡ returned (response, errors))
      × IsReply saved n response errors
      × (accepted w'.trace ≡ accepted w.trace)

  duplicate-Replies :
      (e : Error) (signal : Signal) (n : ℕ) (env : Env) (w : World S)
      → is_duplicate_signal_error e ≡ true
      → Replies (err e) n w (answer_duplicate signal n env w)
  unfolding answer_duplicate answered pure
  duplicate-Replies e signal n env w dup =
      let (found, exit, quiet) = get-Finds signal.signal_id env w _ refl in
      let find = attempt (Signals.get_by_id signal.signal_id) in
      subst (Replies (err e) n w)
        (sym (
          bind-returned find (λ existing. answered (existing_id existing signal.signal_id) n) env w
            (find env w).1 found (ap (λ r. (r, (find env w).1)) exit)))
        (_, none, refl, inl (dup, refl, refl), quiet)

  after_save-Replies :
      (saved : Result (Unit {0})) (signal : Signal) (n : ℕ) (env : Env) (w : World S)
      → Replies saved n w (after_save saved signal n env w)
  unfolding after_save answered refused pure
  after_save-Replies (ok _) signal n env w = (_, none, refl, (refl, refl), refl)
  after_save-Replies (err e) signal n env w = either _ refl
    where
      either :
          (b : Bool)
          → is_duplicate_signal_error e ≡ b
          → Replies
              (err e)
              n
              w
              ((if b then answer_duplicate signal n else refused "failed to save signal" e) env w)
      either true h = duplicate-Replies e signal n env w h
      either false h = (_, _, refl, inr (h, refl, refl), refl)

  -- the attempt to save the signal and the answer
  abbrev pub Ends : Signal → ℕ → Env → World S → Exit Response × World S → Type 0
  Ends signal n env w p =
      (saved : Result (Unit {0})) × ((attempt (Signals.create signal) env w).0 ≡ returned saved)
      × Replies saved n w p

  pub save-Ends :
      (signal : Signal) (n : ℕ) (env : Env) (w : World S)
      → Ends signal n env w
          ((attempt (Signals.create signal) >>= λ saved. after_save saved signal n) env w)
  save-Ends signal n env w =
      let save = attempt (Signals.create signal) in
      let (saved, exit, quiet) = create-Saves signal env w _ _ refl refl in
      let (response, errors, done, reply, silent) =
        after_save-Replies saved signal n env (save env w).1 in
      subst (Ends signal n env w)
        (sym (
          bind-returned save (λ saved. after_save saved signal n) env w (save env w).1 saved
            (ap (λ r. (r, (save env w).1)) exit)))
        (saved, exit, (response, errors, done, reply, silent ∙ quiet))
