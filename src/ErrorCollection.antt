-- ===== src/ErrorCollection.antt =====
-- commons/error_handler/error_handler.go and commons/handler/gin_handler.go: the errors of a request
-- and the HTTP answer that is made of them.
pub mod Statuses
use dahlia.Common.{
  ℕ, String, Bool, not, Option, none, some, List, [], ◌∷◌, ◌++◌, leb, is_empty, if◌then◌else◌,
}
use dahlia.Errors.{Error}

-- response.Errors; the data of an error is an error text or nil
pub record ResponseError : Type 0 where
  pub error_code : ℕ
  pub message : String
  pub data_error : Option Error

pub record ErrorCollection : Type 0 where
  pub errors : List ResponseError

abbrev pub code_validation_error : ℕ
code_validation_error = 400

abbrev pub code_not_found : ℕ
code_not_found = 404

abbrev pub code_internal_server_error : ℕ
code_internal_server_error = 500

abbrev pub new_error_collection : ErrorCollection
new_error_collection = record { errors = [] }

unfoldable pub add_error : ℕ → String → Option Error → ErrorCollection → ErrorCollection
add_error code message data_error ec = record {
  errors =
      ec.errors ++ record { error_code = code; message = message; data_error = data_error } ∷ [];
}

unfoldable pub has_errors : ErrorCollection → Bool
has_errors ec = not (is_empty ec.errors)

-- The loop of GetHTTPStatus: the first error with a code from 400 on decides.
status_of : List ResponseError → ℕ
status_of [] = 400
status_of (e ∷ errors) =
    let rest = status_of errors in
    if leb 500 e.error_code then 500 else if leb 400 e.error_code then 400 else rest

unfoldable pub get_http_status : ErrorCollection → ℕ
unfolding has_errors status_of
get_http_status ec = if not (has_errors ec) then 200 else status_of ec.errors

pub data Status : Type 0 where
  success partial_success failed : Status

-- response.StandardResponse, with the HTTP status that it is sent with
pub record StandardResponse (A : Type 0) : Type 0 where
  pub http_status : ℕ
  pub status : Status
  pub error_code : ℕ
  pub message : String
  pub content : A
  pub errors : List ResponseError

primary_code : List ResponseError → ℕ
primary_code [] = code_internal_server_error
primary_code (e ∷ errors) = e.error_code

primary_message : List ResponseError → String
primary_message [] = "Internal server error"
primary_message (e ∷ errors) = e.message

module _ {A : Type 0} where
  unfoldable pub send_success_response : A → StandardResponse A
  send_success_response content = record {
    http_status = 200;
    status = success;
    error_code = 0;
    message = "Success";
    content = content;
    errors = [];
  }

  unfoldable pub send_error_response : A → ErrorCollection → StandardResponse A
  unfolding get_http_status primary_code primary_message
  send_error_response content ec = record {
    http_status = get_http_status ec;
    status = failed;
    error_code = primary_code ec.errors;
    message = primary_message ec.errors;
    content = content;
    errors = ec.errors;
  }

  -- the end of HandleFunc
  unfoldable pub respond : A → Option ErrorCollection → StandardResponse A
  unfolding send_success_response send_error_response has_errors
  respond content none = send_success_response content
  respond content (some ec) =
      if has_errors ec then send_error_response content ec else send_success_response content
