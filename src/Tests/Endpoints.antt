-- ===== src/Tests/Endpoints.antt =====
-- Requests to the endpoints of the sample server.
use go_identity.Oauth.AuthorizeRequest.{redirect}
use go_identity.Memory.Codes.{create_authorization_code}
use go_identity.Memory.Clients.{get_client_by_client_id}
use go_identity.Oauth.AuthorizeRequest.{separator}
use go_identity.Oauth.AuthorizeRequest.{redirect_error}
use go_identity.Memory.RefreshTokens.{get_refresh_token_by_hash}
use go_identity.Oauth.AuthorizeRequest.{send_redirect}
use go_identity.Effect.{attempt}
use go_identity.Oauth.Authorize.{create_code}
use go_identity.Identity.Client.{validate_scope}
use go_identity.Oauth.Authorize.{issue_code}
use go_identity.Oauth.Authorize.{issue}
use go_identity.Effect.{ignore_not_found}
use go_identity.Identity.Client.{validate_scopes}
use go_identity.Identity.Token.{refresh_token_has_expired}
use go_identity.Identity.Scope.{validate_scope_syntax}
use go_identity.Oauth.Authorize.{with_consent}
use go_identity.Memory.Clients.{get_client_by_id}
use go_identity.Identity.Token.{touch}
use go_identity.Oauth.Authorize.{with_user}
use go_identity.Identity.Scope.{parse_scope}
use go_identity.Memory.AccessTokens.{get_access_token_by_hash}
use go_identity.Oauth.Grants.{rotate}
use go_identity.Oauth.Params.{resolve_scopes}
use go_identity.Identity.Client.{match_uri}
use go_identity.Oauth.Bearer.Validate.{require_bearer_sound}
use go_identity.Oauth.Grants.{reuse}
use go_identity.Oauth.AuthorizeRequest.{with_challenge}
use go_identity.Identity.Token.{access_token_has_expired}
use go_identity.Oauth.Endpoint.{granted}
use go_identity.Identity.Client.{match_redirect_uri}
use go_identity.Oauth.Endpoint.{register_grant}
use go_identity.Oauth.AuthorizeRequest.{validate_scope_and_challenge}
use go_identity.Oauth.Bearer.{missing_scope}
use go_identity.Oauth.Bearer.Validate.{validate_access_token_iff}
use go_identity.Oauth.AuthorizeRequest.{chosen_uri}
use go_identity.Oauth.Endpoint.Access.{handle_token-granted}
use go_identity.Identity.Scope.{has_scope}
use go_identity.Oauth.Grants.{refreshed_user}
use go_identity.Oauth.Endpoint.{token}
use go_identity.Oauth.AuthorizeRequest.{check_response_type}
use go_identity.Oauth.Authorize.Redirect.{handle_authorize-redirect}
use go_identity.Oauth.Server.ClientAuth.{authenticate_client_iff}
use go_identity.Oauth.Endpoint.{built_in_grants}
use go_identity.Oauth.Bearer.Validate.{IsLive}
use go_identity.Oauth.Endpoint.{handler_of}
use go_identity.Oauth.Grants.RefreshGrant.{refresh_token_grant_sound}
use go_identity.Oauth.Bearer.{token_user}
use go_identity.Oauth.Authorize.{validate_client_and_redirect}
use go_identity.Oauth.AuthorizeRequest.Valid.{validate_authorize_request_sound}
use go_identity.Oauth.Grants.{refreshed_scopes}
use go_identity.Oauth.Endpoint.{Grants}
use go_identity.Oauth.Authorize.Redirect.{IsRegistered}
use go_identity.Oauth.Bearer.{TokenInfo}
use go_identity.Oauth.Server.ClientAuth.{IsAuthentic}
use go_identity.Oauth.Endpoint.{handle_token}
use go_identity.Oauth.Endpoint.{TokenReply}
use go_identity.Oauth.Endpoint.{GrantHandler}
use go_identity.Oauth.Bearer.{validate_access_token}
use go_identity.Oauth.AuthorizeRequest.{Reply}
use go_identity.Oauth.AuthorizeRequest.Valid.{IsValid}
use go_identity.Oauth.AuthorizeRequest.{Visit}
use go_identity.Oauth.Bearer.{bearer_value}
use go_identity.Oauth.AuthorizeRequest.{AuthorizeRequest}
use go_identity.Oauth.Grants.{renew}
use go_identity.Oauth.AuthorizeRequest.{validate_authorize_request}
use go_identity.Oauth.Bearer.{require_bearer}
use go_identity.Oauth.Grants.RefreshGrant.{IsRenewed}
use go_identity.Oauth.Authorize.{handle_authorize}
use go_identity.Common.Text.{join_spaces}
use go_identity.Oauth.Tokens.{expires_in}
use go_identity.Security.{base64_encode}
use go_identity.Common.Text.{bytes}
use go_identity.Security.{hex_encode}
use go_identity.Memory.Users.{get_user_by_id}
use go_identity.Memory.Codes.{consume_authorization_code}
use go_identity.Identity.Token.{add_duration}
use go_identity.Identity.Scope.{format_scope}
use go_identity.Identity.Client.{access_token_lifetime_seconds}
use go_identity.Oauth.Server.{opaque_token_generator}
use go_identity.Security.{new_id}
use go_identity.Security.{new_token}
use go_identity.Identity.Client.{validate_redirect_uri}
use go_identity.Identity.Token.{authorization_code_validate_redirect_uri}
use go_identity.Identity.Token.{authorization_code_has_expired}
use go_identity.Account.Service.{can_sign_in}
use go_identity.Effect.{recover}
use go_identity.Effect.{when}
use go_identity.Effect.{map_error}
use go_identity.Effect.{refuse_if}
use go_identity.Effect.{now}
use go_identity.Effect.{◌>>=◌}
use go_identity.Oauth.Tokens.{store_refresh_token}
use go_identity.Oauth.Tokens.{new_refresh_token}
use go_identity.Oauth.Tokens.{create_access_token}
use go_identity.Oauth.Tokens.{issue_tokens}
use go_identity.Oauth.Tokens.{lookup_user}
use go_identity.Oauth.Grants.{redeem_code}
use go_identity.Oauth.Grants.{redirect_uri_mismatch}
use go_identity.Memory.Codes.{get_authorization_code_by_hash}
use go_identity.Oauth.Grants.{check_code_verifier}
use go_identity.Common.{
  ℕ, suc, ◌<◌, ◌≡◌, refl, ◌≢◌, ◌↔◌, ◌⊎◌, String, Bool, true, false, List, [], ◌∷◌, Option, none,
  some, ne_of_test, pos, All, cut_space,
}
use go_identity.Failure.{Result, ok}
use go_identity.Memory.AccessTokens
use go_identity.Memory.RefreshTokens
use go_identity.Effect.{World, time}
use go_identity.Security.{hash_token}
use go_identity.Identity.Token.{RefreshToken, is_consumed}
use go_identity.Identity.Client.{Client, validate_grant_type}
use go_identity.Memory.State.{Memory}
use go_identity.Oauth.Params.{Values, Request, param, required_param, parse_post_form}
use go_identity.Oauth.Server.{Credentials, read_credentials, authenticate_client}
use go_identity.Oauth.Tokens.{TokenResponse}
use go_identity.Oauth.Grants.{TokenRequest, authorization_code_grant, refresh_token_grant}
use go_identity.Tests.Samples.{env, server, app, alice, access_token, fresh_code, stored, world}

abbrev token_request : Request
token_request = record {
  method = "POST";
  media_type = some "application/x-www-form-urlencoded";
  post_form = some (
      ("grant_type", "authorization_code" ∷ [])
      ∷ ("client_id", "app" ∷ [])
      ∷ ("client_secret", "secret" ∷ [])
      ∷ ("code", "c" ∷ [])
      ∷ []);
  authorization = "";
}

abbrev start : World Memory
start = world fresh_code

abbrev grants : Grants Memory
grants = built_in_grants server

abbrev token_run : TokenReply × World Memory
token_run = handle_token server grants token_request start

abbrev token_response : TokenResponse
token_response = record {
  access_token = "AQ";
  token_type = "Bearer";
  expires_in = pos 3_600;
  refresh_token = "Aw";
  scope = "read";
}

token_granted : token_run ≡ (granted token_response, token_run.1)
unfolding handle_token token built_in_grants register_grant handler_of authenticate_client
    read_credentials parse_post_form authorization_code_grant check_code_verifier
    redirect_uri_mismatch redeem_code lookup_user issue_tokens create_access_token new_refresh_token
    store_refresh_token ◌>>=◌ now refuse_if map_error when recover can_sign_in is_consumed
    authorization_code_has_expired authorization_code_validate_redirect_uri validate_redirect_uri
    hash_token new_token new_id required_param param opaque_token_generator validate_grant_type
    add_duration get_authorization_code_by_hash consume_authorization_code get_user_by_id
    AccessTokens.create_access_token RefreshTokens.create_refresh_token hex_encode bytes
    base64_encode expires_in format_scope join_spaces get_client_by_client_id
    go_identity.Identity.Client.is_public
token_granted = refl

handle_token-granted_example :
    (form : Values) × (credentials : Credentials) × (client : Client) × (grant_type : String)
    × (handler : GrantHandler Memory) × (parse_post_form token_request ≡ ok form)
    × (read_credentials env token_request form ≡ ok credentials)
    × IsAuthentic server (stored fresh_code) credentials client
    × (required_param form "grant_type" ≡ ok grant_type)
    × (handler_of grants grant_type ≡ some handler)
    × (validate_grant_type client grant_type ≡ true)
    × (handler (record { client = client; grant_type = grant_type; form = form }) start
        ≡ (ok token_response, token_run.1))
handle_token-granted_example =
    handle_token-granted server grants token_request start token_run.1 token_response token_granted

authenticate_client_iff_example :
    (authenticate_client server token_request (("client_id", "app" ∷ []) ∷ []) start
      ≡ (ok app, start))
    ↔ ((c : Credentials) × (read_credentials env token_request (("client_id", "app" ∷ []) ∷ [])
          ≡ ok c)
        × IsAuthentic server (stored fresh_code) c app
        × (start ≡ start))
authenticate_client_iff_example =
    authenticate_client_iff server token_request (("client_id", "app" ∷ []) ∷ []) app start start

abbrev refresh_request : TokenRequest
refresh_request = record {
  client = app;
  grant_type = "refresh_token";
  form = ("refresh_token", "r" ∷ []) ∷ [];
}

abbrev refresh_run : Result TokenResponse × World Memory
refresh_run = refresh_token_grant server refresh_request start

abbrev refreshed : TokenResponse
refreshed = record token_response { access_token = "AQ"; refresh_token = "" }

refresh_granted : refresh_run ≡ (ok refreshed, refresh_run.1)
unfolding refresh_token_grant renew refreshed_scopes refreshed_user reuse rotate touch
    refresh_token_has_expired ignore_not_found validate_scopes validate_scope attempt
    get_refresh_token_by_hash AccessTokens.delete_access_token RefreshTokens.update_refresh_token
    check_code_verifier redirect_uri_mismatch redeem_code lookup_user issue_tokens
    create_access_token new_refresh_token store_refresh_token ◌>>=◌ now refuse_if map_error when
    recover can_sign_in is_consumed authorization_code_has_expired
    authorization_code_validate_redirect_uri validate_redirect_uri hash_token new_token new_id
    required_param param opaque_token_generator validate_grant_type add_duration
    get_authorization_code_by_hash consume_authorization_code get_user_by_id
    AccessTokens.create_access_token RefreshTokens.create_refresh_token hex_encode bytes
    base64_encode expires_in format_scope join_spaces
refresh_granted = refl

refresh_token_grant_sound_example :
    (value : String) × (scope : String) × (token : RefreshToken) × (required_param
        refresh_request.form "refresh_token"
      ≡ ok value)
    × (param refresh_request.form "scope" ≡ ok scope)
    × (server.store.get_refresh_token_by_hash (hash_token env value) (stored fresh_code) ≡ ok token)
    × (token.client_id ≡ "client-1")
    × (time env start < token.expires_at)
    × IsRenewed server (stored fresh_code) app token scope 2_000_000 refreshed refresh_run.1.db
refresh_token_grant_sound_example =
    refresh_token_grant_sound server refresh_request start refreshed refresh_run.1 refresh_granted

abbrev info : TokenInfo
info = record { token = access_token; client = app; user = some alice }

validate_access_token_iff_example :
    (validate_access_token server "a" start ≡ (ok info, record start { ticks = 1 }))
    ↔ (IsLive server start "a" info × (record start { ticks = 1 } ≡ record start { ticks = 1 }))
validate_access_token_iff_example =
    validate_access_token_iff server "a" info start (record start { ticks = 1 })

abbrev required : List String
required = "read" ∷ []

abbrev bearer_run : Result TokenInfo × World Memory
bearer_run = require_bearer server required "Bearer a" start

bearer_accepted : bearer_run ≡ (ok info, bearer_run.1)
unfolding require_bearer validate_access_token token_user missing_scope bearer_value
    access_token_has_expired get_access_token_by_hash get_client_by_id has_scope cut_space
    check_code_verifier redirect_uri_mismatch redeem_code lookup_user issue_tokens
    create_access_token new_refresh_token store_refresh_token ◌>>=◌ now refuse_if map_error when
    recover can_sign_in is_consumed authorization_code_has_expired
    authorization_code_validate_redirect_uri validate_redirect_uri hash_token new_token new_id
    required_param param opaque_token_generator validate_grant_type add_duration
    get_authorization_code_by_hash consume_authorization_code get_user_by_id
    AccessTokens.create_access_token RefreshTokens.create_refresh_token hex_encode bytes
    base64_encode expires_in format_scope join_spaces
bearer_accepted = refl

require_bearer_sound_example :
    (value : String) × (bearer_value env (cut_space "Bearer a") ≡ ok value)
    × IsLive server start value info
    × All (λ s. has_scope info.token.scopes s ≡ true) required
require_bearer_sound_example =
    require_bearer_sound server required "Bearer a" info start bearer_run.1 bearer_accepted

abbrev params : Values
params =
    ("client_id", "app" ∷ [])
    ∷ ("response_type", "code" ∷ [])
    ∷ ("redirect_uri", "https://app.example/callback" ∷ [])
    ∷ ("state", "xyz" ∷ [])
    ∷ []

abbrev visit : Visit
visit = record {
  params = some params;
  decision = "";
  current_user = ok (some alice);
  verify_consent = true;
}

abbrev authorize_run : Result Reply × World Memory
authorize_run = handle_authorize server visit start

abbrev answer : Values
answer = ("code", "AA" ∷ []) ∷ ("state", "xyz" ∷ []) ∷ []

redirected :
    authorize_run ≡ (ok (redirect "https://app.example/callback" "?" answer), authorize_run.1)
unfolding handle_authorize validate_client_and_redirect chosen_uri match_redirect_uri match_uri
    validate_authorize_request check_response_type validate_scope_and_challenge with_challenge
    resolve_scopes with_user with_consent issue issue_code create_code send_redirect redirect_error
    separator attempt get_client_by_client_id create_authorization_code parse_scope
    validate_scope_syntax check_code_verifier redirect_uri_mismatch redeem_code lookup_user
    issue_tokens create_access_token new_refresh_token store_refresh_token ◌>>=◌ now refuse_if
    map_error when recover can_sign_in is_consumed authorization_code_has_expired
    authorization_code_validate_redirect_uri validate_redirect_uri hash_token new_token new_id
    required_param param opaque_token_generator validate_grant_type add_duration
    get_authorization_code_by_hash consume_authorization_code get_user_by_id
    AccessTokens.create_access_token RefreshTokens.create_refresh_token hex_encode bytes
    base64_encode expires_in format_scope join_spaces go_identity.Identity.Client.is_public
    go_identity.Common.text_contains
redirected = refl

handle_authorize-redirect_example :
    IsRegistered server (stored fresh_code) params "https://app.example/callback"
handle_authorize-redirect_example =
    handle_authorize-redirect server visit params "https://app.example/callback" "?" answer start
      authorize_run.1 refl redirected

abbrev checked : AuthorizeRequest
checked = record {
  client = app;
  redirect_uri = "https://app.example/callback";
  redirect_uri_param = "https://app.example/callback";
  response_type = "";
  state = "";
  scopes = [];
  code_challenge = "";
  code_challenge_method = "";
}

abbrev valid : AuthorizeRequest
valid = record checked { response_type = "code"; state = "xyz"; scopes = "read" ∷ [] }

validated : (validate_authorize_request checked params).1 ≡ ok valid
unfolding validate_authorize_request check_response_type validate_scope_and_challenge with_challenge
    resolve_scopes parse_scope validate_grant_type param validate_scope_syntax validate_scopes
    validate_scope go_identity.Identity.Client.is_public
validated = refl

validate_authorize_request_sound_example : IsValid checked valid params
validate_authorize_request_sound_example =
    validate_authorize_request_sound checked params valid validated
