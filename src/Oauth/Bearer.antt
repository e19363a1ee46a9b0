-- ===== src/Oauth/Bearer.antt =====
-- Bearer token validation: pkg/oauth/bearer.go.
pub mod Validate
use go_identity.Common.{
  ℕ, String, Bool, true, false, ◌&&◌, ◌||◌, List, [], ◌∷◌, Option, none, some, ◌==◌, ◌!=◌, not,
  cut_space, if◌then◌else◌,
}
use go_identity.Failure.{Error, Result, ok, err, OauthError}
use go_identity.Effect.{
  Env, M, World, ◌>>=◌, ◌>>◌, pure, fail, lift, read, refuse_if, map_error, not_found_as, now,
}
use go_identity.Security.{hash_token}
use go_identity.Identity.Scope.{has_scope}
use go_identity.Identity.Token.{AccessToken, access_token_has_expired}
use go_identity.Identity.Client.{Client}
use go_identity.Identity.User.{User}
use go_identity.Account.Service.{can_sign_in, signs_in}
use go_identity.Oauth.Error.{
  refusal, server_error, error_invalid_token, error_invalid_request, error_insufficient_scope,
}
use go_identity.Oauth.Server.{Server}

-- `TokenInfo`
pub record TokenInfo : Type 0 where
  pub token : AccessToken
  pub client : Client
  pub user : Option User

abbrev pub invalid_token : String → Error
invalid_token description = refusal error_invalid_token description

module _ {S : Type 0} (srv : Server S) where
  -- The user of an access token, who must be able to sign in.
  unfoldable pub token_user : AccessToken → M S (Option User)
  token_user token =
      if token.user_id != ""
      then (do
        user ←
            map_error
              (not_found_as (invalid_token "the resource owner of the access token is not active"))
              (read (srv.store.get_user_by_id token.user_id))
        refuse_if (not (signs_in (can_sign_in srv.accounts user)))
            (invalid_token "the resource owner of the access token is not active")
        pure (some user))
      else pure none

  -- `ValidateAccessToken`
  unfoldable pub validate_access_token : String → M S TokenInfo
  validate_access_token value = do
    token ←
        map_error (not_found_as (invalid_token "the access token is invalid"))
          (read (srv.store.get_access_token_by_hash (hash_token srv.env value)))
    t ← now srv.env
    refuse_if (access_token_has_expired token t) (invalid_token "the access token has expired")
    client ←
        map_error (not_found_as (invalid_token "the client of the access token is not active"))
          (read (srv.store.get_client_by_id token.client_id))
    refuse_if (not client.enabled) (invalid_token "the client of the access token is not active")
    user ← token_user token
    pure (record { token = token; client = client; user = user })

-- The token of an Authorization header of the scheme Bearer.
unfoldable pub bearer_value : Env → Option (String × String) → Result String
bearer_value env none = err (refusal error_invalid_request "the authorization header is malformed")
bearer_value env (some (scheme, token)) =
    if not (env.equal_fold scheme "Bearer") || env.trim_space token == ""
    then err (refusal error_invalid_request "the authorization header is malformed")
    else ok (env.trim_space token)

-- The loop over the required scopes.
unfoldable pub missing_scope : List String → List String → Bool
missing_scope granted [] = false
missing_scope granted (scope ∷ scopes) =
    if not (has_scope granted scope) then true else missing_scope granted scopes

module _ {S : Type 0} (srv : Server S) where
  -- `RequireBearer`: what the protected handler is given, or the error that is written.
  unfoldable pub require_bearer : List String → String → M S TokenInfo
  require_bearer scopes header = do
    refuse_if (header == "") (invalid_token "an access token is required")
    value ← lift (bearer_value srv.env (cut_space header))
    info ← map_error server_error (validate_access_token srv value)
    refuse_if (missing_scope info.token.scopes scopes)
        (refusal error_insufficient_scope "the access token doesn't have the required scope")
    pure info
