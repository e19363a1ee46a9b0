-- ===== src/Oauth/Tokens.antt =====
-- Token issuance of pkg/oauth/token.go.
use go_identity.Common.{
  ℕ, String, Bool, ◌&&◌, List, Option, none, some, ◌==◌, not, ℤ, quot, sub_ℕ, if◌then◌else◌,
}
use go_identity.Effect.{M, ◌>>=◌, ◌>>◌, pure, read, write, refuse_if, map_error, not_found_as, now}
use go_identity.Security.{new_id, new_token, hash_token}
use go_identity.Identity.Scope.{format_scope}
use go_identity.Identity.Token.{
  AccessToken, RefreshToken, add_duration, refresh_token_expiration_absolute,
}
use go_identity.Identity.Client.{
  Client, validate_grant_type, lifetime_or, default_access_token_lifetime,
  default_refresh_token_lifetime, grant_type_refresh_token,
}
use go_identity.Identity.User.{User}
use go_identity.Store.{TokenFilter, no_filter}
use go_identity.Account.Service.{can_sign_in, signs_in}
use go_identity.Oauth.Error.{refusal, error_invalid_grant}
use go_identity.Oauth.Server.{Server}

abbrev pub token_type_bearer : String
token_type_bearer = "Bearer"

-- `TokenResponse`
pub record TokenResponse : Type 0 where
  pub access_token : String
  pub token_type : String
  pub expires_in : ℤ
  pub refresh_token : String
  pub scope : String

-- `IssueOptions`
pub record IssueOptions : Type 0 where
  pub refresh_token : Bool
  pub authorization_code_id : String

abbrev pub user_id_of : Option User → String
user_id_of none = ""
user_id_of (some user) = user.id

-- `int(t.ExpiresAt.Sub(t.CreatedAt).Seconds())`
unfoldable pub expires_in : AccessToken → ℤ
expires_in t = quot (sub_ℕ t.expires_at t.created_at) 1_000_000_000

-- The response to a request for an access token, before a refresh token is added.
abbrev pub new_response : AccessToken → String → List String → TokenResponse
new_response token value scopes = record {
  access_token = value;
  token_type = token_type_bearer;
  expires_in = expires_in token;
  refresh_token = "";
  scope = format_scope scopes;
}

module _ {S : Type 0} (srv : Server S) where
  -- `createAccessToken`
  unfoldable pub create_access_token :
      Client → Option User → List String → String → M S (AccessToken × String)
  create_access_token client user scopes code_id = do
    t ← now srv.env
    id ← new_id srv.env
    let token : AccessToken = record {
      id = id;
      token_hash = "";
      client_id = client.id;
      user_id = user_id_of user;
      scopes = scopes;
      authorization_code_id = code_id;
      created_at = t;
      expires_at =
          add_duration t (lifetime_or client.access_token_lifetime default_access_token_lifetime);
    }
    value ← srv.generate token client user
    let stored : AccessToken = record token { token_hash = hash_token srv.env value }
    write (srv.store.create_access_token stored)
    pure (stored, value)

  -- `newRefreshToken`
  unfoldable pub new_refresh_token : Client → AccessToken → M S RefreshToken
  new_refresh_token client access_token = do
    t ← now srv.env
    id ← new_id srv.env
    let lifetime = lifetime_or client.refresh_token_lifetime default_refresh_token_lifetime
    pure (record {
      id = id;
      token_hash = "";
      client_id = client.id;
      user_id = access_token.user_id;
      access_token_id = access_token.id;
      authorization_code_id = access_token.authorization_code_id;
      scopes = access_token.scopes;
      token_expiration = client.refresh_token_expiration;
      token_usage = client.refresh_token_usage;
      lifetime = lifetime;
      created_at = t;
      updated_at = t;
      expires_at = add_duration t lifetime;
    })

  -- `storeRefreshToken`
  unfoldable pub store_refresh_token : RefreshToken → M S String
  store_refresh_token token = do
    value ← new_token srv.env
    write (srv.store.create_refresh_token (record token { token_hash = hash_token srv.env value }))
    pure value

  -- `IssueTokens`
  unfoldable pub issue_tokens :
      Client → Option User → List String → IssueOptions → M S TokenResponse
  issue_tokens client user scopes opts = do
    (token, value) ← create_access_token client user scopes opts.authorization_code_id
    let response = new_response token value scopes
    if opts.refresh_token && validate_grant_type client grant_type_refresh_token
        then (do
          refresh ← new_refresh_token client token
          refresh_value ← store_refresh_token refresh
          pure (record response { refresh_token = refresh_value }))
        else pure response

  -- `RevokeGrant`
  unfoldable pub revoke_grant : String → M S (Unit {0})
  revoke_grant authorization_code_id = do
    let filter : TokenFilter = record no_filter { authorization_code_id = authorization_code_id }
    refresh ← write (srv.store.delete_refresh_tokens filter)
    access ← write (srv.store.delete_access_tokens filter)
    pure tt

  -- `lookupUser`
  unfoldable pub lookup_user : String → M S User
  lookup_user user_id = do
    user ←
        map_error (not_found_as (refusal error_invalid_grant "the resource owner doesn't exist"))
          (read (srv.store.get_user_by_id user_id))
    refuse_if (not (signs_in (can_sign_in srv.accounts user)))
        (refusal error_invalid_grant "the resource owner account is not active")
    pure user

-- `rotatedExpiresAt`
unfoldable pub rotated_expires_at : RefreshToken → ℕ → ℕ
rotated_expires_at old now =
    if old.token_expiration == refresh_token_expiration_absolute
    then old.expires_at
    else add_duration now old.lifetime
