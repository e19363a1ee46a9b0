-- ===== src/Oauth/Authorize.antt =====
-- The authorization endpoint: pkg/oauth/authorize.go.
pub mod Sent
pub mod Redirect
use go_identity.Common.{
  ℕ, String, Bool, true, false, ◌&&◌, ◌||◌, List, [], ◌∷◌, ◌++◌, Option, none, some, ◌==◌, ◌!=◌,
  not, ℤ, text_append, text_contains, if◌then◌else◌,
}
use go_identity.Failure.{OauthError, Error, Result, ok, err}
use go_identity.Effect.{
  Env, M, World, ◌>>=◌, ◌>>◌, pure, fail, lift, read, write, refuse_if, map_error, recover, attempt,
  is_not_found, now,
}
use go_identity.Security.{new_id, new_token, hash_token}
use go_identity.Security.Pkce.{
  code_challenge_method_plain, is_supported_code_challenge_method, is_valid_code_verifier,
}
use go_identity.Identity.Token.{AuthorizationCode, add_duration}
use go_identity.Identity.Client.{
  Client, is_public, validate_grant_type, match_redirect_uri, lifetime_or,
  default_authorization_code_lifetime, response_type_code, response_type_token,
  grant_type_authorization_code, grant_type_implicit,
}
use go_identity.Identity.User.{User}
use go_identity.Account.Service.{can_sign_in, signs_in}
use go_identity.Oauth.Error.{
  new_error, refusal, as_error, server_error, error_invalid_request, error_invalid_client,
  error_unauthorized_client, error_unsupported_response_type, error_access_denied,
}
use go_identity.Oauth.Params.{Values, param, required_param, resolve_scopes}
use go_identity.Oauth.Server.{Server}
use go_identity.Oauth.Tokens.{TokenResponse, issue_tokens}
use go_identity.Oauth.AuthorizeRequest.{
  AuthorizeRequest, Visit, Reply, error_page, login_page, consent_page, redirect, no_reply,
  chosen_uri, lookup_error, unknown_client, validate_authorize_request, send_redirect,
  redirect_error, authorize_params, consent_allow, with_state, optional_value,
}

module _ {S : Type 0} (srv : Server S) where
  -- `validateClientAndRedirect`
  unfoldable pub validate_client_and_redirect : Values → M S AuthorizeRequest
  validate_client_and_redirect params = do
    client_id ← lift (required_param params "client_id")
    client ← map_error lookup_error (read (srv.store.get_client_by_client_id client_id))
    refuse_if (not client.enabled) unknown_client
    redirect_uri ← lift (param params "redirect_uri")
    uri ← lift (chosen_uri client redirect_uri)
    pure (record {
      client = client;
      redirect_uri = uri;
      redirect_uri_param = redirect_uri;
      response_type = "";
      state = "";
      scopes = [];
      code_challenge = "";
      code_challenge_method = "";
    })

  -- `authorizeURL`
  unfoldable pub authorize_url : Values → String
  authorize_url params =
      text_append srv.base_path
        (text_append "/authorize" (text_append "?" (srv.env.url_encode (authorize_params params))))

  -- `issueCode` up to its redirection
  unfoldable pub create_code : AuthorizeRequest → User → M S String
  create_code req user = do
    t ← now srv.env
    value ← new_token srv.env
    id ← new_id srv.env
    write (
        srv.store.create_authorization_code (record {
          id = id;
          code_hash = hash_token srv.env value;
          client_id = req.client.id;
          user_id = user.id;
          scopes = req.scopes;
          redirect_uri = req.redirect_uri_param;
          code_challenge = req.code_challenge;
          code_challenge_method = req.code_challenge_method;
          created_at = t;
          expires_at = add_duration t (
              lifetime_or req.client.authorization_code_lifetime
                default_authorization_code_lifetime);
          consumed_at = none;
        }))
    pure value

  -- `issueCode`
  unfoldable pub issue_code : AuthorizeRequest → User → M S Reply
  issue_code req user =
      recover
        (do
          value ← create_code req user
          pure (send_redirect req.redirect_uri (with_state req (("code", value ∷ []) ∷ [])) false))
        (λ e. pure (redirect_error req (as_error e)))

  -- The parameters of a response with an access token.
  abbrev pub token_values : AuthorizeRequest → TokenResponse → Values
  token_values req response = with_state req (
      optional_value "scope" response.scope (
        ("access_token", response.access_token ∷ [])
        ∷ ("token_type", response.token_type ∷ [])
        ∷ ("expires_in", srv.env.itoa response.expires_in ∷ [])
        ∷ []))

  -- `issueImplicitToken`
  unfoldable pub issue_implicit_token : AuthorizeRequest → User → M S Reply
  issue_implicit_token req user =
      recover
        (do
          response ←
              issue_tokens srv req.client (some user) req.scopes
                (record { refresh_token = false; authorization_code_id = "" })
          pure (send_redirect req.redirect_uri (token_values req response) true))
        (λ e. pure (redirect_error req (as_error e)))

  -- The end of `HandleAuthorize`.
  unfoldable pub issue : AuthorizeRequest → User → M S Reply
  issue req user =
      if req.response_type == response_type_code
      then issue_code req user
      else if req.response_type == response_type_token
      then issue_implicit_token req user
      else pure no_reply

  -- The consent of the resource owner, if the client requires it.
  unfoldable pub with_consent : AuthorizeRequest → User → Values → Visit → M S Reply
  with_consent req user params visit =
      if req.client.require_consent
      then if visit.decision == ""
        then pure (consent_page req user (authorize_params params))
        else if not visit.verify_consent
        then pure (
            error_page
              (new_error error_invalid_request "the consent form has expired, please try again"))
        else if visit.decision != consent_allow
        then pure (
            redirect_error req
              (new_error error_access_denied "the resource owner denied the request"))
        else issue req user
      else issue req user

  -- The resource owner, once the request is validated.
  unfoldable pub with_user : AuthorizeRequest → Values → Visit → M S Reply
  with_user req params visit = elim visit.current_user [
    | err e ↦ pure (redirect_error req (as_error e))
    | ok none ↦ pure (login_page (authorize_url params))
    | ok (some user) ↦
        if not (signs_in (can_sign_in srv.accounts user))
        then pure (
            redirect_error req
              (new_error error_access_denied "the resource owner account is not active"))
        else with_consent req user params visit
  ]

  abbrev continue_with : Values → Visit → AuthorizeRequest × Result AuthorizeRequest → M S Reply
  continue_with params visit (req, err e) = pure (redirect_error req (as_error e))
  continue_with params visit (req, ok valid) = with_user valid params visit

  -- `HandleAuthorize`
  unfoldable pub handle_authorize : Visit → M S Reply
  handle_authorize visit = elim visit.params [
    | none ↦ pure (error_page (new_error error_invalid_request "the request is malformed"))
    | some params ↦ do
      req ← attempt (validate_client_and_redirect params)
      elim req [
        | err e ↦ pure (error_page (as_error e))
        | ok req ↦ continue_with params visit (validate_authorize_request req params)
      ]
  ]
