-- ===== src/Handlers/Runs/Listed.antt =====
-- What a listing of runs asks the database for, and what it answers.
use dahlia.Common.{
  ℕ, ◌≤◌, pos, ◌≡◌, refl, ap, ◌⊎◌, inl, inr, Option, none, some, [], ◌∷◌, Text, codes, length, map,
  length-map, arith,
}
use dahlia.Errors.{Error, Result, ok, err}
use dahlia.Domain.{triggered}
use dahlia.ErrorCollection.{ErrorCollection, code_internal_server_error}
use dahlia.Runtime.{
  Env, World, Exit, returned, workflow_runs, by_status, queried, AttributeMap, Page, ◌>>=◌,
}
use dahlia.Repository.{unmarshal_all, int32}
use dahlia.Repository.Tokens.{decode_next_token, encode_next_token}
use dahlia.Repository.Runs
use dahlia.Requests.{RequestIo}
use dahlia.Handlers.Limits.{value_of, parse_limit, refuse}
use dahlia.Handlers.Limits.Bounds.{parse_limit_bounds}
use dahlia.Handlers.Runs.{ListRunsResponse, no_runs, run_response, list_runs_service}

int32_small : (n : ℕ) → n ≤ 100 → int32 n ≡ pos n
unfolding int32
int32_small n h = ground arith

module _ {S : Type 0} (ioutil : RequestIo (Unit {0})) (env : Env) (w : World S) where
  abbrev pub limit : ℕ
  limit = parse_limit (value_of (codes "limit") ioutil.query_params)

  abbrev pub token : Text
  token = value_of (codes "next_token") ioutil.query_params

  -- one page of the runs in the state TRIGGERED
  abbrev pub Asked : Option AttributeMap → World S → Type 0
  Asked start w' =
      w'.trace ≡ queried workflow_runs (by_status triggered) (some (pos limit)) start ∷ w.trace

  abbrev pub answers : Option AttributeMap → Result Page
  answers start = env.query w.trace workflow_runs (by_status triggered) (some (pos limit)) start

  -- the runs of the page, and the token of the next one, "" if there is none or it is not encoded
  abbrev pub listing : Page → ℕ → Exit (ListRunsResponse × Option ErrorCollection)
  listing page count = returned (
    record {
      runs = map run_response (unmarshal_all env.unmarshal_run page.items);
      pagination = record {
        count = count;
        next_token = elim (encode_next_token env page.last_evaluated_key) [
          | ok next ↦ next
          | err e ↦ []
        ];
      };
    },
    none,
  )

  abbrev pub Lists : Option AttributeMap → Exit (ListRunsResponse × Option ErrorCollection) → Type 0
  Lists start r =
      ((e : Error) × (answers start ≡ err e)
        × (r ≡ returned (refuse no_runs code_internal_server_error "failed to list runs")))
      ⊎ ((page : Page) × (answers start ≡ ok page)
          × (r ≡ listing page (length (unmarshal_all env.unmarshal_run page.items))))

  list_bad_token :
      (e : Error)
      → decode_next_token env token ≡ err e
      → list_runs_service ioutil env w
        ≡ (returned (refuse no_runs code_internal_server_error "failed to list runs"), w)
  unfolding list_runs_service Runs.get_running_workflows ◌>>=◌
  list_bad_token e h = rw h refl

  list_good_token :
      (start : Option AttributeMap) (o : Result Page)
      → decode_next_token env token ≡ ok start
      → env.query w.trace workflow_runs (by_status triggered) (some (pos limit)) start ≡ o
      → int32 limit ≡ pos limit
      → let (r, w') = list_runs_service ioutil env w in Asked start w' × Lists start r
  unfolding list_runs_service Runs.get_running_workflows ◌>>=◌
  list_good_token start (err e) h answer small = rw (h, small, answer) (refl, inl (e, refl, refl))
  list_good_token start (ok page) h answer small =
      rw (h, small, answer)
        (
          refl,
          inr (
            page,
            refl,
            ap (listing page)
                (length-map run_response (unmarshal_all env.unmarshal_run page.items)),
          ),
        )

  list_runs_cases :
      (token' : Result (Option AttributeMap))
      → decode_next_token env token ≡ token'
      → let (r, w') = list_runs_service ioutil env w in
        ((w' ≡ w)
          × (r ≡ returned (refuse no_runs code_internal_server_error "failed to list runs")))
        ⊎ ((start : Option AttributeMap) × (decode_next_token env token ≡ ok start)
            × Asked start w'
            × Lists start r)
  list_runs_cases (err e) h =
      inl (ap (λ p. p.1) (list_bad_token e h), ap (λ p. p.0) (list_bad_token e h))
  list_runs_cases (ok start) h =
      let (asked, lists) =
        list_good_token start _ h refl (
          int32_small limit
            (parse_limit_bounds (value_of (codes "limit") ioutil.query_params)).1) in
      inr (start, h, asked, lists)

-- Whatever workflow and status a client asks for, a listing of runs makes one query, for a page of
-- runs in the state TRIGGERED with the limit that the client gave, and answers with the runs of the
-- page and their number, or with an internal error if the query fails; if the token cannot be decoded
-- it answers with an internal error and makes no query.
pub list_runs_service_lem :
    {S : Type 0} (ioutil : RequestIo (Unit {0})) (env : Env) (w : World S)
    → let (r, w') = list_runs_service ioutil env w in
      ((w' ≡ w) × (r ≡ returned (refuse no_runs code_internal_server_error "failed to list runs")))
      ⊎ ((start : Option AttributeMap) × (decode_next_token env
              (value_of (codes "next_token") ioutil.query_params)
            ≡ ok start)
          × Asked ioutil env w start w'
          × Lists ioutil env w start r)
list_runs_service_lem ioutil env w = list_runs_cases ioutil env w _ refl
