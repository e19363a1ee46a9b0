-- ===== src/Oauth/AuthorizeRequest.antt =====
-- The validation and the replies of the authorization endpoint (pkg/oauth/authorize.go).
pub mod Valid
use go_identity.Common.{
  ℕ, String, Bool, true, false, ◌&&◌, ◌||◌, List, [], ◌∷◌, ◌++◌, Option, none, some, ◌==◌, ◌!=◌,
  not, ℤ, text_append, text_contains, if◌then◌else◌,
}
use go_identity.Failure.{◌>>=◌, ◌>>◌, OauthError, Error, Result, ok, err}
use go_identity.Effect.{
  Env, M, World, pure, fail, lift, read, write, refuse_if, map_error, recover, is_not_found, now,
}
use go_identity.Security.{new_id, new_token, hash_token}
use go_identity.Security.Pkce.{
  code_challenge_method_plain, is_supported_code_challenge_method, is_valid_code_verifier,
}
use go_identity.Identity.Token.{AuthorizationCode, add_duration}
use go_identity.Identity.Client.{
  Client, is_public, validate_grant_type, match_redirect_uri, lifetime_or,
  default_authorization_code_lifetime, response_type_code, response_type_token,
  grant_type_authorization_code, grant_type_implicit,
}
use go_identity.Identity.User.{User}
use go_identity.Account.Service.{can_sign_in, signs_in}
use go_identity.Oauth.Error.{
  new_error, refusal, as_error, server_error, error_invalid_request, error_invalid_client,
  error_unauthorized_client, error_unsupported_response_type, error_access_denied,
}
use go_identity.Oauth.Params.{Values, param, required_param, resolve_scopes}
use go_identity.Oauth.Server.{Server}
use go_identity.Oauth.Tokens.{TokenResponse, issue_tokens}

abbrev pub consent_allow : String
consent_allow = "allow"

-- `authorizeRequest`
pub record AuthorizeRequest : Type 0 where
  pub client : Client
  pub redirect_uri : String
  pub redirect_uri_param : String
  pub response_type : String
  pub state : String
  pub scopes : List String
  pub code_challenge : String
  pub code_challenge_method : String

-- An HTTP request to the endpoint: its parameters, if `r.ParseForm` read them, the posted consent
-- decision (empty unless the method is POST), and the answers of `Interaction`.
pub record Visit : Type 0 where
  pub params : Option Values
  pub decision : String
  pub current_user : Result (Option User)
  pub verify_consent : Bool

-- What the endpoint does in the end. A redirection keeps its registered URI apart from what is
-- added to it.
pub data Reply : Type 0 where
  error_page : OauthError → Reply
  login_page : String → Reply
  consent_page : AuthorizeRequest → User → Values → Reply
  redirect : String → String → Values → Reply
  no_reply : Reply

abbrev pub only_uri : List String → Result String
only_uri [] = err (refusal error_invalid_request "the redirect_uri parameter is missing")
only_uri (uri ∷ []) = ok uri
only_uri (uri ∷ uri' ∷ more) =
    err (refusal error_invalid_request "the redirect_uri parameter is missing")

-- The registered URI that the response is sent to.
unfoldable pub chosen_uri : Client → String → Result String
chosen_uri client redirect_uri =
    if redirect_uri == ""
    then only_uri client.redirect_uris
    else elim (match_redirect_uri client redirect_uri) [
      | none ↦
          err (refusal error_invalid_request "the redirect_uri is not registered for this client")
      | some registered ↦ ok registered
    ]

abbrev pub unknown_client : Error
unknown_client = refusal error_invalid_client "the client is unknown"

abbrev pub lookup_error : Error → Error
lookup_error e = if is_not_found e then unknown_client else server_error e

-- The tests of the response type.
unfoldable pub check_response_type : AuthorizeRequest → Result (Unit {0})
check_response_type req =
    if req.response_type == ""
    then err (refusal error_invalid_request "the response_type parameter is missing")
    else if req.response_type == response_type_code
    then if not (validate_grant_type req.client grant_type_authorization_code)
      then err (
          refusal error_unauthorized_client
            "the client is not authorized to use the authorization code grant")
      else ok tt
    else if req.response_type == response_type_token
    then if not (validate_grant_type req.client grant_type_implicit)
      then err (
          refusal error_unauthorized_client
            "the client is not authorized to use the implicit grant")
      else ok tt
    else err (refusal error_unsupported_response_type "the response_type is not supported")

-- The PKCE parameters of a request for a code.
unfoldable pub with_challenge : AuthorizeRequest → String → String → Result AuthorizeRequest
with_challenge req challenge method =
    let chosen = if method == "" then code_challenge_method_plain else method in
    if challenge == ""
    then if req.client.require_pkce || is_public req.client
      then err (refusal error_invalid_request "the code_challenge parameter is required")
      else ok req
    else if not (is_supported_code_challenge_method chosen)
    then err (refusal error_invalid_request "the code_challenge_method is not supported")
    else if not (is_valid_code_verifier challenge)
    then err (refusal error_invalid_request "the code_challenge is malformed")
    else ok (record req { code_challenge = challenge; code_challenge_method = chosen })

-- The part of `validateAuthorizeRequest` that follows the response type.
unfoldable pub validate_scope_and_challenge : AuthorizeRequest → Values → Result AuthorizeRequest
validate_scope_and_challenge req params = do
  scope ← param params "scope"
  scopes ← resolve_scopes req.client scope
  let scoped : AuthorizeRequest = record req { scopes = scopes }
  if req.response_type == response_type_code
      then (do
        challenge ← param params "code_challenge"
        method ← param params "code_challenge_method"
        with_challenge scoped challenge method)
      else ok scoped

-- A failed validation, with the request as far as it was filled in: its state and response type
-- decide how the error is sent.
abbrev pub Validated : Type 0
Validated = AuthorizeRequest × Result AuthorizeRequest

-- `validateAuthorizeRequest`
unfoldable pub validate_authorize_request : AuthorizeRequest → Values → Validated
validate_authorize_request req params = elim (param params "state") [
  | err e ↦ (req, err e)
  | ok state ↦
      let stated : AuthorizeRequest = record req { state = state } in
      elim (param params "response_type") [
        | err e ↦ (stated, err e)
        | ok response_type ↦
            let typed : AuthorizeRequest = record stated { response_type = response_type } in
            (typed, check_response_type typed >> validate_scope_and_challenge typed params)
      ]
]

abbrev pub with_state : AuthorizeRequest → Values → Values
with_state req values = if req.state != "" then values ++ ("state", req.state ∷ []) ∷ [] else values

abbrev pub optional_value : String → String → Values → Values
optional_value name value values = if value != "" then values ++ (name, value ∷ []) ∷ [] else values

-- The separator that `redirect` puts between the redirection URI and the parameters.
unfoldable pub separator : String → Bool → String
separator redirect_uri fragment =
    if fragment then "#" else if text_contains redirect_uri "?" then "&" else "?"

-- `redirect`
unfoldable pub send_redirect : String → Values → Bool → Reply
send_redirect redirect_uri values fragment =
    redirect redirect_uri (separator redirect_uri fragment) values

-- `redirectError`
unfoldable pub redirect_error : AuthorizeRequest → OauthError → Reply
unfolding send_redirect
redirect_error req e =
    send_redirect req.redirect_uri
      (with_state req (
        optional_value "error_uri" e.uri
          (optional_value "error_description" e.description (("error", e.code ∷ []) ∷ []))))
      (req.response_type == response_type_token)

abbrev csrf_field_name : String
csrf_field_name = "csrf_token"

-- `authorizeParams`
unfoldable pub authorize_params : Values → Values
authorize_params [] = []
authorize_params ((k, v) ∷ more) =
    let rest = authorize_params more in
    if k == "consent" || k == csrf_field_name then rest else (k, v) ∷ rest
