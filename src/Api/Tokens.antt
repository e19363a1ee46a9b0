-- ===== src/Api/Tokens.antt =====
-- pkg/api/tokens.go
use go_identity.Common.{ℕ, String, Bool, List, some, ◌==◌, ◌!=◌, get_value, if◌then◌else◌}
use go_identity.Effect.{M, ◌>>=◌, ◌>>◌, pure, read, write, now, when, ignore_not_found}
use go_identity.Identity.Token.{
  AccessToken, RefreshToken, access_token_has_expired, refresh_token_has_expired,
}
use go_identity.Store.{TokenFilter, no_filter, is_empty}
use go_identity.Api.{
  Api, Target, Response, json, no_body, write_error, invalid_request, handled, ListResponse,
  list_options, respond_list,
}

-- `AccessToken` of the API.
pub record AccessTokenView : Type 0 where
  pub id : String
  pub client_id : String
  pub user_id : String
  pub scopes : List String
  pub authorization_code_id : String
  pub expired : Bool
  pub created_at : ℕ
  pub expires_at : ℕ

-- `RefreshToken` of the API.
pub record RefreshTokenView : Type 0 where
  pub id : String
  pub client_id : String
  pub user_id : String
  pub access_token_id : String
  pub authorization_code_id : String
  pub scopes : List String
  pub usage : String
  pub expiration : String
  pub expired : Bool
  pub created_at : ℕ
  pub updated_at : ℕ
  pub expires_at : ℕ

pub record DeleteResponse : Type 0 where
  pub deleted : ℕ

abbrev filter_required : {B : Type 0} → Response B
filter_required =
    write_error 400 invalid_request "a client_id, user_id or expired filter is required"

module _ {S : Type 0} (a : Api S) where
  -- `toAccessToken`
  unfoldable pub to_access_token : AccessToken → M S AccessTokenView
  to_access_token token = do
    t ← now a.env
    pure (record {
      id = token.id;
      client_id = token.client_id;
      user_id = token.user_id;
      scopes = token.scopes;
      authorization_code_id = token.authorization_code_id;
      expired = access_token_has_expired token t;
      created_at = token.created_at;
      expires_at = token.expires_at;
    })

  -- `toRefreshToken`
  unfoldable pub to_refresh_token : RefreshToken → M S RefreshTokenView
  to_refresh_token token = do
    t ← now a.env
    pure (record {
      id = token.id;
      client_id = token.client_id;
      user_id = token.user_id;
      access_token_id = token.access_token_id;
      authorization_code_id = token.authorization_code_id;
      scopes = token.scopes;
      usage = token.token_usage;
      expiration = token.token_expiration;
      expired = refresh_token_has_expired token t;
      created_at = token.created_at;
      updated_at = token.updated_at;
      expires_at = token.expires_at;
    })

  -- `tokenFilter`
  unfoldable pub token_filter : Target → M S TokenFilter
  token_filter r =
      let filter : TokenFilter = record no_filter {
        client_id = get_value r.query "client_id";
        user_id = get_value r.query "user_id";
      } in
      if get_value r.query "expired" == "true"
      then (do t ← now a.env; pure (record filter { expired_before = some t }))
      else pure filter

  unfoldable pub list_access_tokens : Target → M S (Response (ListResponse AccessTokenView))
  list_access_tokens r = list_options a r (λ opts. handled (do
    filter ← token_filter r
    page ← read (a.accounts.store.list_access_tokens filter opts)
    respond_list to_access_token page opts))

  unfoldable pub get_access_token : Target → M S (Response AccessTokenView)
  get_access_token r = handled (do
    token ← read (a.accounts.store.get_access_token_by_id r.id)
    view ← to_access_token token
    pure (json 200 view))

  unfoldable pub delete_access_token : Target → M S (Response (Unit {0}))
  delete_access_token r =
      handled (do write (a.accounts.store.delete_access_token r.id); pure (no_body 204))

  unfoldable pub delete_access_tokens : Target → M S (Response DeleteResponse)
  delete_access_tokens r = handled (do
    filter ← token_filter r
    if is_empty filter then pure filter_required else (do
      n ← write (a.accounts.store.delete_access_tokens filter)
      pure (json 200 (record { deleted = n }))))

  unfoldable pub list_refresh_tokens : Target → M S (Response (ListResponse RefreshTokenView))
  list_refresh_tokens r = list_options a r (λ opts. handled (do
    filter ← token_filter r
    page ← read (a.accounts.store.list_refresh_tokens filter opts)
    respond_list to_refresh_token page opts))

  unfoldable pub get_refresh_token : Target → M S (Response RefreshTokenView)
  get_refresh_token r = handled (do
    token ← read (a.accounts.store.get_refresh_token_by_id r.id)
    view ← to_refresh_token token
    pure (json 200 view))

  unfoldable pub delete_refresh_token : Target → M S (Response (Unit {0}))
  delete_refresh_token r = handled (do
    token ← read (a.accounts.store.get_refresh_token_by_id r.id)
    write (a.accounts.store.delete_refresh_token token.id)
    when (token.access_token_id != "")
        (ignore_not_found (write (a.accounts.store.delete_access_token token.access_token_id)))
    pure (no_body 204))

  unfoldable pub delete_refresh_tokens : Target → M S (Response DeleteResponse)
  delete_refresh_tokens r = handled (do
    filter ← token_filter r
    if is_empty filter then pure filter_required else (do
      n ← write (a.accounts.store.delete_refresh_tokens filter)
      pure (json 200 (record { deleted = n }))))
