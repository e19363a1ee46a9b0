-- ===== src/Memory/AccessTokens.antt =====
-- The access tokens of pkg/store/memory/memory.go.
use go_identity.Common.{ℕ, String, List, ◌==◌, not, if◌then◌else◌}
use go_identity.Failure.{Result, ok, err}
use go_identity.Identity.Token.{AccessToken, is_some}
use go_identity.Store.{ListOptions, TokenFilter, err_not_found, err_duplicate}
use go_identity.Memory.State.{Memory, match_token, access_token_fields}
use go_identity.Memory.Table.{get, put, delete, find, delete_where, count_where, select}
use go_identity.Memory.Page.{page}
use go_identity.Memory.Clients.{found}

unfoldable pub list_access_tokens :
    TokenFilter → ListOptions → Memory → Result (List AccessToken × ℕ)
unfolding page select match_token
list_access_tokens filter opts s = ok (
    page (λ t. (t.created_at, t.id))
      (select (λ t. match_token filter (access_token_fields t)) s.access_tokens) opts)

unfoldable pub get_access_token_by_id : String → Memory → Result AccessToken
unfolding get
get_access_token_by_id id s = found (get id s.access_tokens)

unfoldable pub get_access_token_by_hash : String → Memory → Result AccessToken
unfolding find
get_access_token_by_hash token_hash s =
    found (find (λ t. t.token_hash == token_hash) s.access_tokens)

unfoldable pub create_access_token : AccessToken → Memory → Result (Unit {0}) × Memory
unfolding get put find
create_access_token token s =
    if is_some (get token.id s.access_tokens)
    then (err err_duplicate, s)
    else if is_some (find (λ t. t.token_hash == token.token_hash) s.access_tokens)
    then (err err_duplicate, s)
    else (ok tt, record s { access_tokens = put token.id token s.access_tokens })

unfoldable pub delete_access_token : String → Memory → Result (Unit {0}) × Memory
unfolding get delete
delete_access_token id s =
    if not (is_some (get id s.access_tokens))
    then (err err_not_found, s)
    else (ok tt, record s { access_tokens = delete id s.access_tokens })

unfoldable pub delete_access_tokens : TokenFilter → Memory → Result ℕ × Memory
unfolding match_token delete_where count_where
delete_access_tokens filter s = (
  ok (count_where (λ t. match_token filter (access_token_fields t)) s.access_tokens),
  record s {
    access_tokens = delete_where (λ t. match_token filter (access_token_fields t)) s.access_tokens;
  },
)
