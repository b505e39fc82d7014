-- ===== src/Requests/Middleware.antt =====
-- commons/handler/middleware.go: what stands around the handlers of the routes, with the errors of
-- commons/error_handler/error_handler.go. Logging is left out.
pub mod Answered
use Prim.Native.String.{◌++◌}
use dahlia.Common.{
  ℕ, String, Option, none, some, List, [], ◌∷◌, Text, codes, text_eq, if◌then◌else◌,
}
use dahlia.ErrorCollection.{
  ResponseError, StandardResponse, failed, code_validation_error, code_not_found,
  code_internal_server_error,
}
use dahlia.Runtime.{Env, World, Exit, returned, errored, panicked, Go, pure, ◌>>=◌}

unfoldable pub get_validation_error : String → ResponseError
get_validation_error message = record {
  error_code = code_validation_error;
  message = message;
  data_error = none;
}

unfoldable pub get_not_found_error : String → ResponseError
get_not_found_error message = record {
  error_code = code_not_found;
  message = message;
  data_error = none;
}

unfoldable pub get_internal_server_error : String → ResponseError
get_internal_server_error message = record {
  error_code = code_internal_server_error;
  message = message;
  data_error = none;
}

-- What is written to the client: a status with no content, or a response whose data may be nil.
pub data Answer (A : Type 0) : Type 0 where
  no_content : (http_status : ℕ) → Answer A
  json : StandardResponse (Option A) → Answer A

module _ {A : Type 0} where
  unfoldable pub failure : ℕ → String → ResponseError → StandardResponse (Option A)
  failure http_status message e = record {
    http_status = http_status;
    status = failed;
    error_code = e.error_code;
    message = message;
    content = none;
    errors = e ∷ [];
  }

  unfoldable pub no_route_handler : (method path : String) → StandardResponse (Option A)
  unfolding failure
  no_route_handler method path = failure 404 "Route not found" (record {
    error_code = code_not_found;
    message = "The requested route '" ++ method ++ " " ++ path ++ "' was not found";
    data_error = none;
  })

  unfoldable pub no_method_handler : (method path : String) → StandardResponse (Option A)
  unfolding failure
  no_method_handler method path = failure 405 "Method not allowed" (record {
    error_code = code_validation_error;
    message = "Method '" ++ method ++ "' is not allowed for route '" ++ path ++ "'";
    data_error = none;
  })

  with_content : StandardResponse A → StandardResponse (Option A)
  with_content r = record {
    http_status = r.http_status;
    status = r.status;
    error_code = r.error_code;
    message = r.message;
    content = some r.content;
    errors = r.errors;
  }

  module _ {S : Type 0} where
    recovered : Exit (Answer A) → Go S (Answer A)
    unfolding failure get_internal_server_error
    recovered (returned r) = pure r
    recovered (errored e) = λ env w. (errored e, w)
    recovered panicked = pure (
        json (
          failure 500 "Internal server error"
            (get_internal_server_error "An unexpected error occurred")))

    -- a panic of what follows is answered
    unfoldable pub error_handling_middleware : Go S (Answer A) → Go S (Answer A)
    unfolding recovered
    error_handling_middleware next env w = let (r, w') = next env w in recovered r env w'

    unfoldable pub cors_middleware : (method : Text) → Go S (StandardResponse A) → Go S (Answer A)
    unfolding with_content
    cors_middleware method next =
        if text_eq method (codes "OPTIONS")
        then pure (no_content 204)
        else do r ← next; pure (json (with_content r))

    -- the middlewares of NewRouter, in their order
    unfoldable pub new_router : (method : Text) → Go S (StandardResponse A) → Go S (Answer A)
    unfolding error_handling_middleware cors_middleware
    new_router method next = error_handling_middleware (cors_middleware method next)
