-- ===== src/Oauth/Grants.antt =====
-- The grants of pkg/oauth/grants.go.
pub mod CodeGrant
pub mod Replay
pub mod Rotation
pub mod RefreshGrant
use go_identity.Common.{
  ℕ, String, Bool, true, false, ◌&&◌, ◌||◌, List, Option, none, some, ◌==◌, ◌!=◌, not,
  if◌then◌else◌,
}
use go_identity.Failure.{StoreError, AccountError, Error, Result, ok, err, store, account}
use go_identity.Effect.{
  M, ◌>>=◌, ◌>>◌, pure, fail, lift, read, write, attempt, refuse_if, map_error, not_found_as,
  is_not_found, ignore_not_found, recover, when, now,
}
use go_identity.Security.{hash_token, new_id}
use go_identity.Security.Pkce.{verify_code_challenge}
use go_identity.Identity.Scope.{parse_scope, validate_scope_syntax}
use go_identity.Identity.Token.{
  AccessToken, RefreshToken, AuthorizationCode, authorization_code_has_expired, is_consumed,
  authorization_code_validate_redirect_uri, refresh_token_has_expired,
  refresh_token_validate_scopes, touch, refresh_token_usage_onetime,
}
use go_identity.Identity.Client.{Client, is_public, validate_redirect_uri, validate_scopes}
use go_identity.Identity.User.{User}
use go_identity.Account.Authenticate.{authenticate}
use go_identity.Oauth.Error.{
  refusal, error_invalid_grant, error_invalid_scope, error_unauthorized_client,
}
use go_identity.Oauth.Params.{Values, param, required_param, resolve_scopes}
use go_identity.Oauth.Server.{Server}
use go_identity.Oauth.Tokens.{
  TokenResponse, IssueOptions, create_access_token, store_refresh_token, issue_tokens, revoke_grant,
  lookup_user, rotated_expires_at, new_response,
}

-- `TokenRequest`, without the HTTP request, which the grants do not read.
pub record TokenRequest : Type 0 where
  pub client : Client
  pub grant_type : String
  pub form : Values

-- An `invalid_grant` refusal.
abbrev pub invalid_grant : String → Error
invalid_grant description = refusal error_invalid_grant description

-- The redirect_uri of the token request does not fit the one of the authorization request.
unfoldable pub redirect_uri_mismatch : Client → AuthorizationCode → String → Bool
redirect_uri_mismatch client code redirect_uri =
    if code.redirect_uri != ""
    then not (authorization_code_validate_redirect_uri code redirect_uri)
    else redirect_uri != "" && not (validate_redirect_uri client redirect_uri)

-- The error of a password that is not accepted.
abbrev pub password_error : Error → Error
password_error (account AccountError.invalid_credentials) =
    invalid_grant "invalid username or password"
password_error (account AccountError.locked_out) = invalid_grant "the account is temporarily locked"
password_error (account AccountError.disabled) = invalid_grant "the account is not active"
password_error (account AccountError.not_activated) = invalid_grant "the account is not active"
password_error other_error = other_error

module _ {S : Type 0} (srv : Server S) where
  -- A code that was used before: the tokens issued for it are revoked.
  unfoldable pub refuse_used_code : {A : Type 0} → AuthorizationCode → M S A
  refuse_used_code code = do
    revoke_grant srv code.id
    fail (invalid_grant "the authorization code was already used")

  abbrev consume_failed : AuthorizationCode → Error → M S (Unit {0})
  consume_failed code (store StoreError.conflict) = refuse_used_code code
  consume_failed code (store StoreError.not_found) =
      fail (invalid_grant "the authorization code is invalid")
  consume_failed code other_error = fail other_error

  -- The PKCE part of `authorizationCodeGrant`.
  unfoldable pub check_code_verifier : AuthorizationCode → String → M S (Unit {0})
  check_code_verifier code code_verifier =
      if code.code_challenge != ""
      then (do
        refuse_if (code_verifier == "") (invalid_grant "the code_verifier parameter is missing")
        refuse_if
            (not (
              verify_code_challenge srv.env code.code_challenge code.code_challenge_method
                code_verifier))
            (invalid_grant "the code_verifier doesn't match the code_challenge"))
      else refuse_if (code_verifier != "")
          (invalid_grant "the authorization request didn't include a code_challenge")

  -- What follows the checks of `authorizationCodeGrant`: the code is consumed before tokens are
  -- issued for it.
  unfoldable pub redeem_code : Client → AuthorizationCode → ℕ → M S TokenResponse
  redeem_code client code t = do
    recover (write (srv.store.consume_authorization_code code.id t)) (consume_failed code)
    user ← lookup_user srv code.user_id
    issue_tokens srv client (some user) code.scopes
        (record { refresh_token = true; authorization_code_id = code.id })

  unfoldable pub authorization_code_grant : TokenRequest → M S TokenResponse
  authorization_code_grant req = do
    code_value ← lift (required_param req.form "code")
    redirect_uri ← lift (param req.form "redirect_uri")
    code_verifier ← lift (param req.form "code_verifier")
    code ←
        map_error (not_found_as (invalid_grant "the authorization code is invalid"))
          (read (srv.store.get_authorization_code_by_hash (hash_token srv.env code_value)))
    refuse_if (code.client_id != req.client.id)
        (invalid_grant "the authorization code was issued to another client")
    t ← now srv.env
    when (is_consumed code) (refuse_used_code code)
    refuse_if (authorization_code_has_expired code t)
        (invalid_grant "the authorization code has expired")
    refuse_if (redirect_uri_mismatch req.client code redirect_uri)
        (invalid_grant "the redirect_uri doesn't match the authorization request")
    check_code_verifier code code_verifier
    redeem_code req.client code t

  unfoldable pub password_grant : TokenRequest → M S TokenResponse
  password_grant req = do
    username ← lift (required_param req.form "username")
    password ← lift (required_param req.form "password")
    scope ← lift (param req.form "scope")
    scopes ← lift (resolve_scopes req.client scope)
    user ← map_error password_error (authenticate srv.accounts username password)
    issue_tokens srv req.client (some user) scopes
        (record { refresh_token = true; authorization_code_id = "" })

  unfoldable pub client_credentials_grant : TokenRequest → M S TokenResponse
  client_credentials_grant req = do
    refuse_if (is_public req.client)
        (refusal error_unauthorized_client "public clients can't use the client credentials grant")
    scope ← lift (param req.form "scope")
    scopes ← lift (resolve_scopes req.client scope)
    issue_tokens srv req.client none scopes
        (record { refresh_token = false; authorization_code_id = "" })

  -- The scope of a refreshed access token.
  unfoldable pub refreshed_scopes : Client → RefreshToken → String → M S (List String)
  refreshed_scopes client refresh_token scope = do
    let scopes = if scope != "" then parse_scope scope else refresh_token.scopes
    refuse_if (scope != "" && not (validate_scope_syntax scopes))
        (refusal error_invalid_scope "the requested scope is malformed")
    refuse_if (scope != "" && not (refresh_token_validate_scopes refresh_token scopes)) (
        refusal error_invalid_scope
          "the requested scope exceeds the scope granted by the resource owner")
    refuse_if (not (validate_scopes client scopes))
        (refusal error_invalid_scope "the requested scope is not allowed for this client")
    pure scopes

  -- The user of a refresh token, if it has one.
  unfoldable pub refreshed_user : RefreshToken → M S (Option User)
  refreshed_user refresh_token =
      if refresh_token.user_id != ""
      then (do user ← lookup_user srv refresh_token.user_id; pure (some user))
      else pure none

  -- The deletion found no refresh token: another request has used it.
  abbrev pub rotation_failed : AccessToken → Error → M S (Unit {0})
  rotation_failed access_token (store StoreError.not_found) = do
    deleted ← attempt (write (srv.store.delete_access_token access_token.id))
    fail (invalid_grant "the refresh token is invalid")
  rotation_failed access_token other_error = fail other_error

  -- A one-time refresh token is replaced.
  unfoldable pub rotate : RefreshToken → AccessToken → TokenResponse → ℕ → M S TokenResponse
  rotate refresh_token access_token response t = do
    recover (write (srv.store.delete_refresh_token refresh_token.id)) (rotation_failed access_token)
    id ← new_id srv.env
    let rotated : RefreshToken = record refresh_token {
      id = id;
      token_hash = "";
      access_token_id = access_token.id;
      created_at = t;
      updated_at = t;
      expires_at = rotated_expires_at refresh_token t;
    }
    value ← store_refresh_token srv rotated
    pure (record response { refresh_token = value })

  -- A refresh token for several uses is kept.
  unfoldable pub reuse : RefreshToken → AccessToken → TokenResponse → ℕ → M S TokenResponse
  reuse refresh_token access_token response t = do
    write (
        srv.store.update_refresh_token
          (touch (record refresh_token { access_token_id = access_token.id }) t))
    pure response

  -- What follows the checks of the refresh token.
  unfoldable pub renew : Client → RefreshToken → String → ℕ → M S TokenResponse
  renew client refresh_token scope t = do
    scopes ← refreshed_scopes client refresh_token scope
    user ← refreshed_user refresh_token
    when (refresh_token.access_token_id != "")
        (ignore_not_found (write (srv.store.delete_access_token refresh_token.access_token_id)))
    (access_token, access_value) ←
        create_access_token srv client user scopes refresh_token.authorization_code_id
    let response = new_response access_token access_value scopes
    if refresh_token.token_usage == refresh_token_usage_onetime
        then rotate refresh_token access_token response t
        else reuse refresh_token access_token response t

  unfoldable pub refresh_token_grant : TokenRequest → M S TokenResponse
  refresh_token_grant req = do
    value ← lift (required_param req.form "refresh_token")
    scope ← lift (param req.form "scope")
    refresh_token ←
        map_error (not_found_as (invalid_grant "the refresh token is invalid"))
          (read (srv.store.get_refresh_token_by_hash (hash_token srv.env value)))
    refuse_if (refresh_token.client_id != req.client.id)
        (invalid_grant "the refresh token was issued to another client")
    t ← now srv.env
    refuse_if (refresh_token_has_expired refresh_token t)
        (invalid_grant "the refresh token has expired")
    renew req.client refresh_token scope t
