-- ===== src/Requests/Middleware/Answered.antt =====
-- What a client is answered.
use dahlia.Common.{
  ℕ, Bool, true, false, not, ◌&&◌, Bool-cases, String, Option, ◌≡◌, ◌≢◌, refl, ◌∙◌, ◌⊎◌, inl, inr,
  Text, codes, text_eq, is_empty,
}
use dahlia.Errors.{Error, Result, ok, err}
use dahlia.ErrorCollection.{ErrorCollection, StandardResponse, add_error, send_error_response}
use dahlia.Runtime.{Env, World, Exit, returned, errored, panicked, Go, pure, ◌>>=◌}
use dahlia.ErrorCollection.Statuses.{respond_status}
use dahlia.Requests.{
  Request, RequestIo, build_request_io, answer, serve, bound, with_body, has_body, handle_func,
}
use dahlia.Requests.Middleware.{Answer, no_content, json, failure, new_router}

abbrev pub status : {A : Type 0} → Answer A → ℕ
status (no_content n) = n
status (json r) = r.http_status

abbrev pub IsStatus : ℕ → Type 0
IsStatus n = (n ≡ 200) ⊎ (n ≡ 204) ⊎ (n ≡ 400) ⊎ (n ≡ 500)

-- a call that answers with a status of an answer, or panics
abbrev Ends : {A : Type 0} → Exit (StandardResponse A) → Type 0
Ends r =
    ((a : StandardResponse _) × (r ≡ returned a)
      × ((a.http_status ≡ 200) ⊎ (a.http_status ≡ 400) ⊎ (a.http_status ≡ 500)))
    ⊎ (r ≡ panicked)

module _ {S Input Output : Type 0} (bind : Text → String ⊎ Input) (empty_input : Input)
    (empty_output : Output) (service : RequestIo Input → Go S (Output × Option ErrorCollection))
    (env : Env) where
  serve-Ends :
      (ioutil : RequestIo Input) (w : World S) (r : Exit (Output × Option ErrorCollection))
      → (service ioutil env w).0 ≡ r
      → ((e : Error) → r ≢ errored e)
      → Ends (serve bind empty_input empty_output service ioutil env w).0
  unfolding serve answer ◌>>=◌
  serve-Ends ioutil w (returned (output, ec)) h never =
      rw h (inl (_, refl, respond_status output ec))
  serve-Ends ioutil w (errored e) h never = absurd (never e refl)
  serve-Ends ioutil w panicked h never = rw h (inr refl)

  bound-Ends :
      (ioutil : RequestIo Input) (input : String ⊎ Input) (w : World S)
      → ((io : RequestIo Input) (e : Error) → (service io env w).0 ≢ errored e)
      → Ends (bound bind empty_input empty_output service ioutil input env w).0
  unfolding bound send_error_response add_error pure
  bound-Ends ioutil (inl message) w never = inl (_, refl, inr (inl refl))
  bound-Ends ioutil (inr input) w never = serve-Ends _ w _ refl (never _)

  handle-Ends :
      (request : Request) (body : Result Text) (w : World S)
      → ((io : RequestIo Input) (e : Error) → (service io env w).0 ≢ errored e)
      → Ends (with_body bind empty_input empty_output service request body env w).0
  unfolding with_body send_error_response add_error pure
  handle-Ends request (err e) w never = inl (_, refl, inr (inr refl))
  handle-Ends request (ok raw) w never =
      let io = record (build_request_io empty_input request) { raw_body = raw } in
      elim (Bool-cases (not (is_empty raw) && has_body request.method)) [
        | inl binds ↦ rw binds (bound-Ends io (bind raw) w never)
        | inr plain ↦ rw plain (serve-Ends io w _ refl (never _))
      ]

-- a status of an answer
abbrev Answered : {A : Type 0} → Exit (Answer A) → Type 0
Answered r = (a : Answer _) × (r ≡ returned a) × IsStatus (status a)

widen : {n : ℕ} → (n ≡ 200) ⊎ (n ≡ 400) ⊎ (n ≡ 500) → IsStatus n
widen (inl h) = inl h
widen (inr h) = inr (inr h)

router-Answered :
    {S A : Type 0} (method : Text) (m : Go S (StandardResponse A)) (env : Env) (w : World S)
    (r : Exit (StandardResponse A)) (options : Bool)
    → text_eq method (codes "OPTIONS") ≡ options
    → (m env w).0 ≡ r
    → Ends r
    → Answered (new_router method m env w).0
unfolding new_router failure ◌>>=◌
router-Answered method m env w r true o h ends = rw o (_, refl, inr (inl refl))
router-Answered method m env w r false o h (inl (a, e, s)) = rw (o, h ∙ e) (_, refl, widen s)
router-Answered method m env w r false o h (inr e) = rw (o, h ∙ e) (_, refl, inr (inr (inr refl)))

-- Every request that reaches a route is answered, with the status 200, 204, 400 or 500 and no other,
-- whatever its body is and even if the service of the route panics, as long as the service itself
-- reports its failures in its collection of errors.
pub handle_func_lem :
    {S Input Output : Type 0} (bind : Text → String ⊎ Input) (empty_input : Input)
    (empty_output : Output) (service : RequestIo Input → Go S (Output × Option ErrorCollection))
    (request : Request) (env : Env) (w : World S)
    → ((io : RequestIo Input) (w : World S) (e : Error) → (service io env w).0 ≢ errored e)
    → let route = handle_func bind empty_input empty_output service request in
      (a : Answer Output) × ((new_router request.method route env w).0 ≡ returned a)
      × ((status a ≡ 200) ⊎ (status a ≡ 204) ⊎ (status a ≡ 400) ⊎ (status a ≡ 500))
unfolding handle_func
handle_func_lem bind empty_input empty_output service request env w never =
    router-Answered request.method _ env w _ _ refl refl (
      handle-Ends bind empty_input empty_output service env request request.body w
        (λ io e. never io w e))
