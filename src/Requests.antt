-- ===== src/Requests.antt =====
-- commons/handler/request_io.go and gin_handler.go: a request as a service sees it, and the handler
-- that every route has. Reading the body and binding its JSON are gin's; `bind` is ShouldBindJSON, with
-- the text of its error.
pub mod Middleware
pub mod Routes
use dahlia.Common.{
  String, Bool, not, ◌||◌, ◌&&◌, Option, none, some, List, [], ◌∷◌, ◌⊎◌, inl, inr, Text, codes,
  text_eq, insert, is_empty, if◌then◌else◌,
}
use dahlia.Errors.{Result, ok, err}
use dahlia.ErrorCollection.{
  ErrorCollection, StandardResponse, new_error_collection, add_error, send_error_response, respond,
  code_validation_error, code_internal_server_error,
}
use dahlia.Runtime.{Go, pure, ◌>>=◌}

pub record RequestIo (Input : Type 0) : Type 0 where
  pub body : Input
  pub raw_body : Text
  pub path_params : List (Text × Text)
  pub query_params : List (Text × Text)
  pub headers : List (Text × Text)

-- What gin has of a request; the maps of the query and of the headers have a list for each key.
pub record Request : Type 0 where
  pub method : Text
  pub body : Result Text
  pub params : List (Text × Text)
  pub query : List (Text × List Text)
  pub headers : List (Text × List Text)

-- the loop of extractPathParams: a later value of a key replaces an earlier one
unfoldable pub extract_path_params : List (Text × Text) → List (Text × Text) → List (Text × Text)
extract_path_params [] params = params
extract_path_params ((key, value) ∷ rest) params =
    extract_path_params rest (insert key value params)

-- the loop of extractQueryParams and of extractHeaders: the first value of each key that has one
unfoldable pub extract_first : List (Text × List Text) → List (Text × Text) → List (Text × Text)
extract_first [] params = params
extract_first ((key, []) ∷ rest) params = extract_first rest params
extract_first ((key, value ∷ _) ∷ rest) params = extract_first rest (insert key value params)

unfoldable pub build_request_io : {Input : Type 0} → Input → Request → RequestIo Input
unfolding extract_path_params extract_first
build_request_io empty request = record {
  body = empty;
  raw_body = [];
  path_params = extract_path_params request.params [];
  query_params = extract_first request.query [];
  headers = extract_first request.headers [];
}

pub has_body : Text → Bool
has_body method =
    text_eq method (codes "POST") || text_eq method (codes "PUT") || text_eq method (codes "PATCH")

module _ {S Input Output : Type 0} (bind : Text → String ⊎ Input) (empty_input : Input)
    (empty_output : Output)
    (service : RequestIo Input → Go S (Output × Option ErrorCollection)) where
  pub answer : Output × Option ErrorCollection → Go S (StandardResponse Output)
  answer (output, ec) = pure (respond output ec)

  pub serve : RequestIo Input → Go S (StandardResponse Output)
  unfolding answer
  serve ioutil = do outcome ← service ioutil; answer outcome

  pub bound : RequestIo Input → String ⊎ Input → Go S (StandardResponse Output)
  unfolding serve
  bound ioutil (inl message) = pure (
      send_error_response empty_output
        (add_error code_validation_error message none new_error_collection))
  bound ioutil (inr input) = serve (record ioutil { body = input })

  pub with_body : Request → Result Text → Go S (StandardResponse Output)
  unfolding bound has_body
  with_body request (err e) = pure (
      send_error_response empty_output (
        add_error code_internal_server_error "Unable to parse request body" none
          new_error_collection))
  with_body request (ok raw) =
      let ioutil = record (build_request_io empty_input request) { raw_body = raw } in
      if not (is_empty raw) && has_body request.method
      then bound ioutil (bind raw)
      else serve ioutil

  unfoldable pub handle_func : Request → Go S (StandardResponse Output)
  unfolding with_body
  handle_func request = with_body request request.body
