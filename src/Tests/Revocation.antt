-- ===== src/Tests/Revocation.antt =====
-- A client that tries to revoke a token of another one.
use go_identity.Common.{◌≡◌, refl, ◌≢◌, ◌∙◌, sym, arith, ne_of_test, bytes}
use go_identity.Failure.{ok}
use go_identity.Security.{hash_token, hex_encode}
use go_identity.Identity.Token.{AccessToken, RefreshToken}
use go_identity.Identity.Client.{Client}
use go_identity.Memory.AccessTokens.{get_access_token_by_hash}
use go_identity.Memory.RefreshTokens.{get_refresh_token_by_hash}
use go_identity.Oauth.Revoke.{revoke}
use go_identity.Oauth.Revoke.Foreign.{revoke_foreign}
use go_identity.Tests.Samples.{env, server, app, access_token, fresh_code, stored, world}

abbrev other_app : Client
other_app = record app { id = "client-2"; client_id = "other" }

token_stored :
    server.store.get_access_token_by_hash (hash_token env "a") (stored fresh_code) ≡ ok access_token
unfolding get_access_token_by_hash hash_token hex_encode bytes
token_stored = refl

owner_of : (t : AccessToken) → ok access_token ≡ ok t → t.client_id ≡ access_token.client_id
owner_of t e = ground arith

others_access :
    (t : AccessToken)
    → server.store.get_access_token_by_hash (hash_token env "a") (stored fresh_code) ≡ ok t
    → t.client_id ≢ other_app.id
others_access t e same =
    ne_of_test access_token.client_id other_app.id refl
      (sym (owner_of t (sym token_stored ∙ e)) ∙ same)

no_refresh_token :
    (t : RefreshToken)
    → server.store.get_refresh_token_by_hash (hash_token env "a") (stored fresh_code) ≡ ok t
    → t.client_id ≢ other_app.id
unfolding get_refresh_token_by_hash hash_token hex_encode bytes
no_refresh_token t e same = absurd (ground arith)

revoke_foreign_example :
    (revoke server other_app "a" "access_token" (world fresh_code)).1 ≡ world fresh_code
revoke_foreign_example =
    revoke_foreign server other_app "a" "access_token" (world fresh_code) others_access
      no_refresh_token
