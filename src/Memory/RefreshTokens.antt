-- ===== src/Memory/RefreshTokens.antt =====
-- The refresh tokens of pkg/store/memory/memory.go.
use go_identity.Common.{ℕ, String, ◌&&◌, List, ◌==◌, ◌!=◌, not, if◌then◌else◌}
use go_identity.Failure.{Result, ok, err}
use go_identity.Identity.Token.{RefreshToken, is_some}
use go_identity.Store.{ListOptions, TokenFilter, err_not_found, err_duplicate}
use go_identity.Memory.State.{Memory, match_token, refresh_token_fields}
use go_identity.Memory.Table.{get, put, delete, find, delete_where, count_where, select}
use go_identity.Memory.Page.{page}
use go_identity.Memory.Clients.{found}

unfoldable pub list_refresh_tokens :
    TokenFilter → ListOptions → Memory → Result (List RefreshToken × ℕ)
unfolding page select match_token
list_refresh_tokens filter opts s = ok (
    page (λ t. (t.created_at, t.id))
      (select (λ t. match_token filter (refresh_token_fields t)) s.refresh_tokens) opts)

unfoldable pub get_refresh_token_by_id : String → Memory → Result RefreshToken
unfolding get
get_refresh_token_by_id id s = found (get id s.refresh_tokens)

unfoldable pub get_refresh_token_by_hash : String → Memory → Result RefreshToken
unfolding find
get_refresh_token_by_hash token_hash s =
    found (find (λ t. t.token_hash == token_hash) s.refresh_tokens)

unfoldable pub create_refresh_token : RefreshToken → Memory → Result (Unit {0}) × Memory
unfolding get put find
create_refresh_token token s =
    if is_some (get token.id s.refresh_tokens)
    then (err err_duplicate, s)
    else if is_some (find (λ t. t.token_hash == token.token_hash) s.refresh_tokens)
    then (err err_duplicate, s)
    else (ok tt, record s { refresh_tokens = put token.id token s.refresh_tokens })

unfoldable pub update_refresh_token : RefreshToken → Memory → Result (Unit {0}) × Memory
unfolding get put find
update_refresh_token token s =
    if not (is_some (get token.id s.refresh_tokens))
    then (err err_not_found, s)
    else if is_some
        (find (λ t. t.token_hash == token.token_hash && t.id != token.id) s.refresh_tokens)
    then (err err_duplicate, s)
    else (ok tt, record s { refresh_tokens = put token.id token s.refresh_tokens })

unfoldable pub delete_refresh_token : String → Memory → Result (Unit {0}) × Memory
unfolding get delete
delete_refresh_token id s =
    if not (is_some (get id s.refresh_tokens))
    then (err err_not_found, s)
    else (ok tt, record s { refresh_tokens = delete id s.refresh_tokens })

unfoldable pub delete_refresh_tokens : TokenFilter → Memory → Result ℕ × Memory
unfolding match_token delete_where count_where
delete_refresh_tokens filter s = (
  ok (count_where (λ t. match_token filter (refresh_token_fields t)) s.refresh_tokens),
  record s {
    refresh_tokens =
        delete_where (λ t. match_token filter (refresh_token_fields t)) s.refresh_tokens;
  },
)
