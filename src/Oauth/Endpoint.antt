-- ===== src/Oauth/Endpoint.antt =====
-- The token endpoint of pkg/oauth/token.go.
pub mod Access
use go_identity.Common.{
  ℕ, String, Bool, true, false, List, [], ◌∷◌, Option, none, some, ◌==◌, not, if◌then◌else◌,
}
use go_identity.Failure.{Error, Result, ok, err}
use go_identity.Effect.{M, World, ◌>>=◌, ◌>>◌, pure, fail, lift, refuse_if, map_error}
use go_identity.Identity.Client.{
  validate_grant_type, grant_type_authorization_code, grant_type_password,
  grant_type_client_credentials, grant_type_refresh_token,
}
use go_identity.Oauth.Error.{
  refusal, server_error, as_error, ErrorReply, write_error, error_unsupported_grant_type,
  error_unauthorized_client,
}
use go_identity.Oauth.Params.{Request, parse_post_form, required_param}
use go_identity.Oauth.Server.{Server, authenticate_client}
use go_identity.Oauth.Tokens.{TokenResponse}
use go_identity.Oauth.Grants.{
  TokenRequest, authorization_code_grant, password_grant, client_credentials_grant,
  refresh_token_grant,
}

-- `GrantHandler`
abbrev pub GrantHandler : Type 0 → Type 0
GrantHandler S = TokenRequest → M S TokenResponse

-- `s.grants`, the handlers that were registered.
abbrev pub Grants : Type 0 → Type 0
Grants S = List (String × GrantHandler S)

module _ {S : Type 0} where
  -- `RegisterGrant`
  unfoldable pub register_grant : String → GrantHandler S → Grants S → Grants S
  register_grant grant_type handler [] = (grant_type, handler) ∷ []
  register_grant grant_type handler ((g, h) ∷ more) =
      if g == grant_type
      then (grant_type, handler) ∷ more
      else (g, h) ∷ register_grant grant_type handler more

  -- `s.grants[grantType]`
  unfoldable pub handler_of : Grants S → String → Option (GrantHandler S)
  handler_of [] grant_type = none
  handler_of ((g, h) ∷ more) grant_type =
      if g == grant_type then some h else handler_of more grant_type

  abbrev pub supported : Option (GrantHandler S) → Result (GrantHandler S)
  supported none = err (refusal error_unsupported_grant_type "the grant type is not supported")
  supported (some h) = ok h

-- What `HandleToken` writes: a token response with status 200, or an error.
pub data TokenReply : Type 0 where
  granted : TokenResponse → TokenReply
  refused : ErrorReply → TokenReply

abbrev pub reply_of : Result TokenResponse → TokenReply
reply_of (ok response) = granted response
reply_of (err e) = refused (write_error (as_error e))

module _ {S : Type 0} (srv : Server S) where
  -- The handlers that `New` registers.
  unfoldable pub built_in_grants : Grants S
  unfolding register_grant
  built_in_grants = register_grant grant_type_refresh_token (refresh_token_grant srv) (
      register_grant grant_type_client_credentials (client_credentials_grant srv) (
        register_grant grant_type_password (password_grant srv)
          (register_grant grant_type_authorization_code (authorization_code_grant srv) [])))

module _ {S : Type 0} (srv : Server S) (grants : Grants S) where
  -- `token`
  unfoldable pub token : Request → M S TokenResponse
  token r = do
    form ← lift (parse_post_form r)
    client ← authenticate_client srv r form
    grant_type ← lift (required_param form "grant_type")
    handler ← lift (supported (handler_of grants grant_type))
    refuse_if (not (validate_grant_type client grant_type))
        (refusal error_unauthorized_client "the client is not authorized to use this grant type")
    map_error server_error
        (handler (record { client = client; grant_type = grant_type; form = form }))

  -- `HandleToken`
  unfoldable pub handle_token : Request → World S → TokenReply × World S
  handle_token r w = (reply_of (token r w).0, (token r w).1)
