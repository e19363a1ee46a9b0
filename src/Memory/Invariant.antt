-- ===== src/Memory/Invariant.antt =====
-- What holds of the in-memory store after any sequence of its writing operations.
pub mod Tokens
pub mod Entries
pub mod Reachable
use go_identity.Common.{
  ℕ, ◌≡◌, refl, ◌≢◌, String, Bool, true, false, List, [], ◌∷◌, Option, none, some, arith, ◌==◌,
  ◌!=◌, ◌&&◌, ◌||◌, eq_iff, Bool-cases, Option-cases, inl, inr, not, All,
}
use go_identity.Failure.{Result, ok, err}
use go_identity.Identity.Token.{AccessToken, RefreshToken, AuthorizationCode, UserToken, is_some}
use go_identity.Identity.Client.{Client}
use go_identity.Identity.User.{User}
use go_identity.Store.{TokenFilter}
use go_identity.Memory.State.{Memory, new}
use go_identity.Memory.Table.{Table, get, put, delete, find}
use go_identity.Memory.Unique.{
  IsIndexed, empty-IsIndexed, put-IsIndexed, delete-IsIndexed, delete_where-IsIndexed,
  replace-IsIndexed,
}
use go_identity.Memory.Clients.{create_client, update_client, delete_client, client_id_taken}
use go_identity.Memory.Users.{create_user, update_user, delete_user, user_taken}
use go_identity.Memory.AccessTokens.{create_access_token, delete_access_token, delete_access_tokens}
use go_identity.Memory.RefreshTokens.{
  create_refresh_token, update_refresh_token, delete_refresh_token, delete_refresh_tokens,
}
use go_identity.Memory.Codes.{
  create_authorization_code, consume_authorization_code, delete_authorization_code,
  delete_expired_authorization_codes, create_user_token, delete_user_token, delete_user_tokens,
  delete_expired_user_tokens,
}

-- Each map holds its values under their identifiers, with different hashes and names.
pub record IsWellFormed (s : Memory) : Type 0 where
  pub clients : IsIndexed (λ (c : Client). c.id) (λ c. c.client_id) s.clients
  pub users : IsIndexed (λ (u : User). u.id) (λ u. u.normalized_username) s.users
  pub emails : IsIndexed (λ (u : User). u.id) (λ u. u.normalized_email) s.users
  pub access_tokens : IsIndexed (λ (t : AccessToken). t.id) (λ t. t.token_hash) s.access_tokens
  pub refresh_tokens : IsIndexed (λ (t : RefreshToken). t.id) (λ t. t.token_hash) s.refresh_tokens
  pub authorization_codes :
      IsIndexed (λ (c : AuthorizationCode). c.id) (λ c. c.code_hash) s.authorization_codes
  pub user_tokens : IsIndexed (λ (t : UserToken). t.id) (λ t. t.token_hash) s.user_tokens

pub new-IsWellFormed : IsWellFormed new
new-IsWellFormed = record {
  clients = empty-IsIndexed _ _;
  users = empty-IsIndexed _ _;
  emails = empty-IsIndexed _ _;
  access_tokens = empty-IsIndexed _ _;
  refresh_tokens = empty-IsIndexed _ _;
  authorization_codes = empty-IsIndexed _ _;
  user_tokens = empty-IsIndexed _ _;
}

pub not_is_some : {A : Type 0} (o : Option A) → is_some o ≡ false → o ≡ none
not_is_some none h = refl
not_is_some (some a) h = cc

-- What a change of one map keeps.
module _ {s : Memory} (h : IsWellFormed s) where
  pub with_clients :
      {t : Table Client}
      → IsIndexed (λ x. x.id) (λ x. x.client_id) t
      → IsWellFormed (record s { clients = t })
  with_clients k = record {
    clients = k;
    users = h.users;
    emails = h.emails;
    access_tokens = h.access_tokens;
    refresh_tokens = h.refresh_tokens;
    authorization_codes = h.authorization_codes;
    user_tokens = h.user_tokens;
  }

  pub with_access_tokens :
      {t : Table AccessToken}
      → IsIndexed (λ x. x.id) (λ x. x.token_hash) t
      → IsWellFormed (record s { access_tokens = t })
  with_access_tokens k = record {
    clients = h.clients;
    users = h.users;
    emails = h.emails;
    access_tokens = k;
    refresh_tokens = h.refresh_tokens;
    authorization_codes = h.authorization_codes;
    user_tokens = h.user_tokens;
  }

  pub with_refresh_tokens :
      {t : Table RefreshToken}
      → IsIndexed (λ x. x.id) (λ x. x.token_hash) t
      → IsWellFormed (record s { refresh_tokens = t })
  with_refresh_tokens k = record {
    clients = h.clients;
    users = h.users;
    emails = h.emails;
    access_tokens = h.access_tokens;
    refresh_tokens = k;
    authorization_codes = h.authorization_codes;
    user_tokens = h.user_tokens;
  }

  pub with_authorization_codes :
      {t : Table AuthorizationCode}
      → IsIndexed (λ x. x.id) (λ x. x.code_hash) t
      → IsWellFormed (record s { authorization_codes = t })
  with_authorization_codes k = record {
    clients = h.clients;
    users = h.users;
    emails = h.emails;
    access_tokens = h.access_tokens;
    refresh_tokens = h.refresh_tokens;
    authorization_codes = k;
    user_tokens = h.user_tokens;
  }

  pub with_user_tokens :
      {t : Table UserToken}
      → IsIndexed (λ x. x.id) (λ x. x.token_hash) t
      → IsWellFormed (record s { user_tokens = t })
  with_user_tokens k = record {
    clients = h.clients;
    users = h.users;
    emails = h.emails;
    access_tokens = h.access_tokens;
    refresh_tokens = h.refresh_tokens;
    authorization_codes = h.authorization_codes;
    user_tokens = k;
  }

  pub with_users :
      {t : Table User}
      → IsIndexed (λ x. x.id) (λ x. x.normalized_username) t
      → IsIndexed (λ x. x.id) (λ x. x.normalized_email) t
      → IsWellFormed (record s { users = t })
  with_users k l = record {
    clients = h.clients;
    users = k;
    emails = l;
    access_tokens = h.access_tokens;
    refresh_tokens = h.refresh_tokens;
    authorization_codes = h.authorization_codes;
    user_tokens = h.user_tokens;
  }
