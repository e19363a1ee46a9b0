-- ===== src/Memory/Invariant/Reachable.antt =====
-- The in-memory store after any sequence of its writing operations.
use go_identity.Common.{ℕ, ◌≢◌, String, List, [], ◌∷◌, All}
use go_identity.Identity.Token.{AccessToken, RefreshToken, AuthorizationCode, UserToken}
use go_identity.Identity.Client.{Client}
use go_identity.Identity.User.{User}
use go_identity.Store.{TokenFilter}
use go_identity.Memory.State.{Memory, new}
use go_identity.Memory.Clients.{create_client, update_client, delete_client}
use go_identity.Memory.Users.{create_user, update_user, delete_user}
use go_identity.Memory.AccessTokens.{create_access_token, delete_access_token, delete_access_tokens}
use go_identity.Memory.RefreshTokens.{
  create_refresh_token, update_refresh_token, delete_refresh_token, delete_refresh_tokens,
}
use go_identity.Memory.Codes.{
  create_authorization_code, consume_authorization_code, delete_authorization_code,
  delete_expired_authorization_codes, create_user_token, delete_user_token, delete_user_tokens,
  delete_expired_user_tokens,
}
use go_identity.Memory.Invariant.{IsWellFormed, new-IsWellFormed}
use go_identity.Memory.Invariant.Tokens.{
  delete_client_lem, delete_user_lem, create_access_token_lem, delete_access_token_lem,
  delete_access_tokens_lem, create_refresh_token_lem, delete_refresh_token_lem,
  delete_refresh_tokens_lem, create_authorization_code_lem, delete_authorization_code_lem,
  delete_expired_authorization_codes_lem, create_user_token_lem, delete_user_token_lem,
  delete_user_tokens_lem, delete_expired_user_tokens_lem,
}
use go_identity.Memory.Invariant.Entries.{
  create_client_lem, update_client_lem, create_user_lem, update_user_lem, update_refresh_token_lem,
  consume_authorization_code_lem,
}

-- A call of a writing operation.
pub data Write : Type 0 where
  adds_client : Client → Write
  updates_client : Client → Write
  deletes_client : String → Write
  adds_user : User → Write
  updates_user : User → Write
  deletes_user : String → Write
  adds_access_token : AccessToken → Write
  deletes_access_token : String → Write
  deletes_access_tokens : TokenFilter → Write
  adds_refresh_token : RefreshToken → Write
  updates_refresh_token : RefreshToken → Write
  deletes_refresh_token : String → Write
  deletes_refresh_tokens : TokenFilter → Write
  adds_code : AuthorizationCode → Write
  consumes_code : String → ℕ → Write
  deletes_code : String → Write
  deletes_expired_codes : ℕ → Write
  adds_user_token : UserToken → Write
  deletes_user_token : String → Write
  deletes_user_tokens : String → String → Write
  deletes_expired_user_tokens : ℕ → Write

-- The store after the call.
unfoldable pub apply : Write → Memory → Memory
unfolding create_client update_client delete_client create_user update_user delete_user
    create_access_token delete_access_token delete_access_tokens create_refresh_token
    update_refresh_token delete_refresh_token delete_refresh_tokens create_authorization_code
    consume_authorization_code delete_authorization_code delete_expired_authorization_codes
    create_user_token delete_user_token delete_user_tokens delete_expired_user_tokens
apply (adds_client client) s = (create_client client s).1
apply (updates_client client) s = (update_client client s).1
apply (deletes_client id) s = (delete_client id s).1
apply (adds_user user) s = (create_user user s).1
apply (updates_user user) s = (update_user user s).1
apply (deletes_user id) s = (delete_user id s).1
apply (adds_access_token token) s = (create_access_token token s).1
apply (deletes_access_token id) s = (delete_access_token id s).1
apply (deletes_access_tokens filter) s = (delete_access_tokens filter s).1
apply (adds_refresh_token token) s = (create_refresh_token token s).1
apply (updates_refresh_token token) s = (update_refresh_token token s).1
apply (deletes_refresh_token id) s = (delete_refresh_token id s).1
apply (deletes_refresh_tokens filter) s = (delete_refresh_tokens filter s).1
apply (adds_code code) s = (create_authorization_code code s).1
apply (consumes_code id t) s = (consume_authorization_code id t s).1
apply (deletes_code id) s = (delete_authorization_code id s).1
apply (deletes_expired_codes before) s = (delete_expired_authorization_codes before s).1
apply (adds_user_token token) s = (create_user_token token s).1
apply (deletes_user_token id) s = (delete_user_token id s).1
apply (deletes_user_tokens user_id purpose) s = (delete_user_tokens user_id purpose s).1
apply (deletes_expired_user_tokens before) s = (delete_expired_user_tokens before s).1

-- The calls in their order.
unfoldable pub apply_all : List Write → Memory → Memory
unfolding apply
apply_all [] s = s
apply_all (w ∷ ws) s = apply_all ws (apply w s)

-- What is written has an identifier.
abbrev pub IsNamed : Write → Type 0
IsNamed (adds_client client) = client.id ≢ ""
IsNamed (updates_client client) = client.id ≢ ""
IsNamed (deletes_client id) = Unit
IsNamed (adds_user user) = user.id ≢ ""
IsNamed (updates_user user) = user.id ≢ ""
IsNamed (deletes_user id) = Unit
IsNamed (adds_access_token token) = token.id ≢ ""
IsNamed (deletes_access_token id) = Unit
IsNamed (deletes_access_tokens filter) = Unit
IsNamed (adds_refresh_token token) = token.id ≢ ""
IsNamed (updates_refresh_token token) = token.id ≢ ""
IsNamed (deletes_refresh_token id) = Unit
IsNamed (deletes_refresh_tokens filter) = Unit
IsNamed (adds_code code) = code.id ≢ ""
IsNamed (consumes_code id t) = Unit
IsNamed (deletes_code id) = Unit
IsNamed (deletes_expired_codes before) = Unit
IsNamed (adds_user_token token) = token.id ≢ ""
IsNamed (deletes_user_token id) = Unit
IsNamed (deletes_user_tokens user_id purpose) = Unit
IsNamed (deletes_expired_user_tokens before) = Unit

apply-IsWellFormed :
    (w : Write) (s : Memory) → IsNamed w → IsWellFormed s → IsWellFormed (apply w s)
unfolding apply
apply-IsWellFormed (adds_client client) s n h = create_client_lem client s n h
apply-IsWellFormed (updates_client client) s n h = update_client_lem client s n h
apply-IsWellFormed (deletes_client id) s n h = delete_client_lem id s h
apply-IsWellFormed (adds_user user) s n h = create_user_lem user s n h
apply-IsWellFormed (updates_user user) s n h = update_user_lem user s n h
apply-IsWellFormed (deletes_user id) s n h = delete_user_lem id s h
apply-IsWellFormed (adds_access_token token) s n h = create_access_token_lem token s n h
apply-IsWellFormed (deletes_access_token id) s n h = delete_access_token_lem id s h
apply-IsWellFormed (deletes_access_tokens filter) s n h = delete_access_tokens_lem filter s h
apply-IsWellFormed (adds_refresh_token token) s n h = create_refresh_token_lem token s n h
apply-IsWellFormed (updates_refresh_token token) s n h = update_refresh_token_lem token s n h
apply-IsWellFormed (deletes_refresh_token id) s n h = delete_refresh_token_lem id s h
apply-IsWellFormed (deletes_refresh_tokens filter) s n h = delete_refresh_tokens_lem filter s h
apply-IsWellFormed (adds_code code) s n h = create_authorization_code_lem code s n h
apply-IsWellFormed (consumes_code id t) s n h = consume_authorization_code_lem id t s h
apply-IsWellFormed (deletes_code id) s n h = delete_authorization_code_lem id s h
apply-IsWellFormed (deletes_expired_codes before) s n h =
    delete_expired_authorization_codes_lem before s h
apply-IsWellFormed (adds_user_token token) s n h = create_user_token_lem token s n h
apply-IsWellFormed (deletes_user_token id) s n h = delete_user_token_lem id s h
apply-IsWellFormed (deletes_user_tokens user_id purpose) s n h =
    delete_user_tokens_lem user_id purpose s h
apply-IsWellFormed (deletes_expired_user_tokens before) s n h =
    delete_expired_user_tokens_lem before s h

apply_all_lem :
    (ws : List Write) (s : Memory) → All IsNamed ws → IsWellFormed s → IsWellFormed (apply_all ws s)
unfolding apply_all
apply_all_lem [] s n h = h
apply_all_lem (w ∷ ws) s (n, m) h = apply_all_lem ws (apply w s) m (apply-IsWellFormed w s n h)

-- After any calls of the writing operations on a new store, with whatever results, each map holds
-- its values under their own identifiers, no two clients have the same client_id, no two users the
-- same normalized username or e-mail address, and no two tokens or codes of a kind the same hash,
-- provided that nothing is written with an empty identifier.
pub apply_all-IsWellFormed : (ws : List Write) → All IsNamed ws → IsWellFormed (apply_all ws new)
apply_all-IsWellFormed ws n = apply_all_lem ws new n new-IsWellFormed
