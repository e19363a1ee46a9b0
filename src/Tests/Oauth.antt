-- ===== src/Tests/Oauth.antt =====
-- Requests to the sample server.
use go_identity.Common.Text.{join_spaces}
use go_identity.Oauth.Tokens.{expires_in}
use go_identity.Security.{base64_encode}
use go_identity.Common.Text.{bytes}
use go_identity.Security.{hex_encode}
use go_identity.Memory.Users.{get_user_by_id}
use go_identity.Memory.Codes.{consume_authorization_code}
use go_identity.Identity.Token.{add_duration}
use go_identity.Identity.Scope.{format_scope}
use go_identity.Oauth.Server.{opaque_token_generator}
use go_identity.Security.{new_id}
use go_identity.Security.{new_token}
use go_identity.Identity.Client.{validate_redirect_uri}
use go_identity.Identity.Token.{authorization_code_validate_redirect_uri}
use go_identity.Identity.Token.{authorization_code_has_expired}
use go_identity.Account.Service.{can_sign_in}
use go_identity.Effect.{recover}
use go_identity.Effect.{when}
use go_identity.Effect.{map_error}
use go_identity.Effect.{refuse_if}
use go_identity.Effect.{now}
use go_identity.Effect.{◌>>=◌}
use go_identity.Oauth.Tokens.{store_refresh_token}
use go_identity.Oauth.Tokens.{new_refresh_token}
use go_identity.Oauth.Tokens.{create_access_token}
use go_identity.Oauth.Tokens.{issue_tokens}
use go_identity.Oauth.Tokens.{lookup_user}
use go_identity.Oauth.Grants.{redeem_code}
use go_identity.Oauth.Grants.{redirect_uri_mismatch}
use go_identity.Memory.Codes.{get_authorization_code_by_hash}
use go_identity.Oauth.Grants.{check_code_verifier}
use go_identity.Common.{
  ℕ, suc, ◌<◌, ◌≡◌, refl, ◌≢◌, ◌↔◌, ◌⊎◌, String, Bool, true, false, List, [], ◌∷◌, Option, none,
  some, ne_of_test, pos, All, cut_space,
}
use go_identity.Failure.{Result, ok, err}
use go_identity.Memory.AccessTokens
use go_identity.Memory.RefreshTokens
use go_identity.Effect.{World, time}
use go_identity.Security.{hash_token}
use go_identity.Identity.Token.{AuthorizationCode, is_consumed}
use go_identity.Identity.Client.{validate_grant_type}
use go_identity.Memory.{memory_store}
use go_identity.Memory.State.{Memory}
use go_identity.Oauth.Params.{param, required_param}
use go_identity.Oauth.Tokens.{TokenResponse, revoke_grant}
use go_identity.Oauth.Grants.{TokenRequest, invalid_grant, authorization_code_grant}
use go_identity.Oauth.Grants.CodeGrant.{IsRedeemable, IsRedeemed, authorization_code_grant_sound}
use go_identity.Oauth.Grants.Replay.{revoke_grant_sweeps, authorization_code_grant_replay}
use go_identity.Memory.Sweep.{IsRevoked}
use go_identity.Tests.Samples.{env, server, app, fresh_code, used_code, stored, world}
use go_identity.Tests.Stored.{used-IsWellFormed, fresh-IsWellFormed}

abbrev code_request : TokenRequest
code_request = record {
  client = app;
  grant_type = "authorization_code";
  form = ("code", "c" ∷ []) ∷ [];
}

-- The sample world after a run.
abbrev code_run : Result TokenResponse × World Memory
code_run = authorization_code_grant server code_request (world fresh_code)

abbrev code_response : TokenResponse
code_response = record {
  access_token = "AQ";
  token_type = "Bearer";
  expires_in = pos 3_600;
  refresh_token = "Aw";
  scope = "read";
}

code_granted : code_run ≡ (ok code_response, code_run.1)
unfolding authorization_code_grant check_code_verifier redirect_uri_mismatch redeem_code lookup_user
    issue_tokens create_access_token new_refresh_token store_refresh_token ◌>>=◌ now refuse_if
    map_error when recover can_sign_in is_consumed authorization_code_has_expired
    authorization_code_validate_redirect_uri validate_redirect_uri hash_token new_token new_id
    required_param param opaque_token_generator validate_grant_type add_duration
    get_authorization_code_by_hash consume_authorization_code get_user_by_id
    AccessTokens.create_access_token RefreshTokens.create_refresh_token hex_encode bytes
    base64_encode expires_in format_scope join_spaces
code_granted = refl

authorization_code_grant_sound_example :
    (value : String) × (redirect_uri : String) × (verifier : String) × (code : AuthorizationCode)
    × (required_param code_request.form "code" ≡ ok value)
    × (param code_request.form "redirect_uri" ≡ ok redirect_uri)
    × (param code_request.form "code_verifier" ≡ ok verifier)
    × (server.store.get_authorization_code_by_hash (hash_token env value) (stored fresh_code)
        ≡ ok code)
    × IsRedeemable server (world fresh_code) app code redirect_uri verifier
    × IsRedeemed server (stored fresh_code) code (time env (world fresh_code))
authorization_code_grant_sound_example =
    authorization_code_grant_sound server code_request (world fresh_code) code_response code_run.1
      code_granted

code_found :
    (memory_store env).get_authorization_code_by_hash (hash_token env "c") (stored used_code)
    ≡ ok used_code
unfolding get_authorization_code_by_hash hash_token go_identity.Security.hex_encode
    go_identity.Common.bytes
code_found = refl

code_value : required_param code_request.form "code" ≡ ok "c"
unfolding required_param
code_value = refl

no_value : (name : String) → param [] name ≡ ok ""
unfolding param
no_value name = refl

no_redirect_uri : param code_request.form "redirect_uri" ≡ ok ""
unfolding param
no_redirect_uri = refl

no_verifier : param code_request.form "code_verifier" ≡ ok ""
unfolding param
no_verifier = refl

code_used : is_consumed used_code ≡ true
unfolding is_consumed
code_used = refl

abbrev replay : Result TokenResponse × World Memory
replay = authorization_code_grant server code_request (world used_code)

authorization_code_grant_replay_example :
    (replay.0 ≡ err (invalid_grant "the authorization code was already used"))
    × IsRevoked
        (λ t. t.authorization_code_id)
        "code-1"
        (stored used_code).access_tokens
        replay.1.db.access_tokens
    × IsRevoked
        (λ t. t.authorization_code_id)
        "code-1"
        (stored used_code).refresh_tokens
        replay.1.db.refresh_tokens
authorization_code_grant_replay_example =
    authorization_code_grant_replay env server code_request "c" "" "" used_code (world used_code)
      code_value no_redirect_uri no_verifier code_found refl code_used (ne_of_test "code-1" "" refl)
      used-IsWellFormed

abbrev revoked : Result (Unit {0}) × World Memory
revoked = revoke_grant server "code-1" (world fresh_code)

revoke_grant_sweeps_example :
    (revoked.0 ≡ ok tt)
    × IsRevoked
        (λ t. t.authorization_code_id)
        "code-1"
        (stored fresh_code).access_tokens
        revoked.1.db.access_tokens
    × IsRevoked
        (λ t. t.authorization_code_id)
        "code-1"
        (stored fresh_code).refresh_tokens
        revoked.1.db.refresh_tokens
revoke_grant_sweeps_example =
    revoke_grant_sweeps env server "code-1" (world fresh_code) (ne_of_test "code-1" "" refl)
      fresh-IsWellFormed
