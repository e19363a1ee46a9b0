-- ===== src/Memory/Codes.antt =====
-- The authorization codes and user tokens of pkg/store/memory/memory.go.
use go_identity.Common.{ℕ, String, ◌&&◌, Option, none, some, ◌==◌, not, ltb, if◌then◌else◌}
use go_identity.Failure.{Result, ok, err}
use go_identity.Identity.Token.{AuthorizationCode, UserToken, is_some}
use go_identity.Store.{err_not_found, err_duplicate, err_conflict}
use go_identity.Memory.State.{Memory}
use go_identity.Memory.Table.{get, put, delete, find, delete_where, count_where}
use go_identity.Memory.Clients.{found}

unfoldable pub get_authorization_code_by_hash : String → Memory → Result AuthorizationCode
unfolding find
get_authorization_code_by_hash code_hash s =
    found (find (λ c. c.code_hash == code_hash) s.authorization_codes)

unfoldable pub create_authorization_code : AuthorizationCode → Memory → Result (Unit {0}) × Memory
unfolding get put find
create_authorization_code code s =
    if is_some (get code.id s.authorization_codes)
    then (err err_duplicate, s)
    else if is_some (find (λ c. c.code_hash == code.code_hash) s.authorization_codes)
    then (err err_duplicate, s)
    else (ok tt, record s { authorization_codes = put code.id code s.authorization_codes })

abbrev pub consume : Option AuthorizationCode → String → ℕ → Memory → Result (Unit {0}) × Memory
consume none id consumed_at s = (err err_not_found, s)
consume (some c) id consumed_at s = if is_some c.consumed_at then (err err_conflict, s) else (
  ok tt,
  record s {
    authorization_codes =
        put id (record c { consumed_at = some consumed_at }) s.authorization_codes;
  },
)

unfoldable pub consume_authorization_code : String → ℕ → Memory → Result (Unit {0}) × Memory
unfolding get put
consume_authorization_code id consumed_at s =
    consume (get id s.authorization_codes) id consumed_at s

unfoldable pub delete_authorization_code : String → Memory → Result (Unit {0}) × Memory
unfolding get delete
delete_authorization_code id s =
    if not (is_some (get id s.authorization_codes))
    then (err err_not_found, s)
    else (ok tt, record s { authorization_codes = delete id s.authorization_codes })

unfoldable pub delete_expired_authorization_codes : ℕ → Memory → Result ℕ × Memory
unfolding delete_where count_where
delete_expired_authorization_codes before s = (
  ok (count_where (λ c. not (ltb before c.expires_at)) s.authorization_codes),
  record s {
    authorization_codes = delete_where (λ c. not (ltb before c.expires_at)) s.authorization_codes;
  },
)

unfoldable pub get_user_token_by_hash : String → String → Memory → Result UserToken
unfolding find
get_user_token_by_hash purpose token_hash s =
    found (find (λ t. t.purpose == purpose && t.token_hash == token_hash) s.user_tokens)

unfoldable pub create_user_token : UserToken → Memory → Result (Unit {0}) × Memory
unfolding get put find
create_user_token token s =
    if is_some (get token.id s.user_tokens)
    then (err err_duplicate, s)
    else if is_some (find (λ t. t.token_hash == token.token_hash) s.user_tokens)
    then (err err_duplicate, s)
    else (ok tt, record s { user_tokens = put token.id token s.user_tokens })

unfoldable pub delete_user_token : String → Memory → Result (Unit {0}) × Memory
unfolding get delete
delete_user_token id s =
    if not (is_some (get id s.user_tokens))
    then (err err_not_found, s)
    else (ok tt, record s { user_tokens = delete id s.user_tokens })

unfoldable pub delete_user_tokens : String → String → Memory → Result ℕ × Memory
unfolding delete_where count_where
delete_user_tokens user_id purpose s = (
  ok (count_where (λ t. t.user_id == user_id && t.purpose == purpose) s.user_tokens),
  record s {
    user_tokens = delete_where (λ t. t.user_id == user_id && t.purpose == purpose) s.user_tokens;
  },
)

unfoldable pub delete_expired_user_tokens : ℕ → Memory → Result ℕ × Memory
unfolding delete_where count_where
delete_expired_user_tokens before s = (
  ok (count_where (λ t. not (ltb before t.expires_at)) s.user_tokens),
  record s { user_tokens = delete_where (λ t. not (ltb before t.expires_at)) s.user_tokens },
)
