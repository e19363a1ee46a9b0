-- ===== src/Oauth/Error.antt =====
-- pkg/oauth/error.go
use go_identity.Common.{ℕ, String, Bool, ◌||◌, ◌==◌, eqb, if◌then◌else◌}
use go_identity.Failure.{OauthError, Error, oauth}

abbrev pub error_invalid_request : String
error_invalid_request = "invalid_request"

abbrev pub error_invalid_client : String
error_invalid_client = "invalid_client"

abbrev pub error_invalid_grant : String
error_invalid_grant = "invalid_grant"

abbrev pub error_unauthorized_client : String
error_unauthorized_client = "unauthorized_client"

abbrev pub error_unsupported_grant_type : String
error_unsupported_grant_type = "unsupported_grant_type"

abbrev pub error_unsupported_response_type : String
error_unsupported_response_type = "unsupported_response_type"

abbrev pub error_invalid_scope : String
error_invalid_scope = "invalid_scope"

abbrev pub error_access_denied : String
error_access_denied = "access_denied"

abbrev pub error_server_error : String
error_server_error = "server_error"

abbrev pub error_temporarily_unavailable : String
error_temporarily_unavailable = "temporarily_unavailable"

abbrev pub error_invalid_token : String
error_invalid_token = "invalid_token"

abbrev pub error_insufficient_scope : String
error_insufficient_scope = "insufficient_scope"

-- The HTTP status that `NewError` gives to a code.
unfoldable pub status_of : String → ℕ
status_of code =
    if code == error_invalid_client || code == error_invalid_token
    then 401
    else if code == error_insufficient_scope || code == error_access_denied
    then 403
    else if code == error_server_error
    then 500
    else if code == error_temporarily_unavailable
    then 503
    else 400

-- `NewError`
abbrev pub new_error : String → String → OauthError
new_error code description = record {
  code = code;
  description = description;
  uri = "";
  status = status_of code;
}

-- `NewError` as an `error`.
abbrev pub refusal : String → String → Error
refusal code description = oauth (new_error code description)

-- `AsError`
unfoldable pub as_error : Error → OauthError
as_error (oauth e) = e
as_error other_error =
    new_error error_server_error "the authorization server encountered an unexpected condition"

-- `serverError`, without its log line.
abbrev pub server_error : Error → Error
server_error e = oauth (as_error e)

-- What `WriteError` sends: the status, whether a Basic challenge is added, and the error as body.
pub record ErrorReply : Type 0 where
  pub status : ℕ
  pub challenge : Bool
  pub body : OauthError

-- `WriteError`
unfoldable pub write_error : OauthError → ErrorReply
write_error e = record {
  status = if eqb e.status 0 then 400 else e.status;
  challenge = e.code == error_invalid_client;
  body = e;
}
