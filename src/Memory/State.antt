-- ===== src/Memory/State.antt =====
-- The state of the in-memory store, and the token filter, of pkg/store/memory/memory.go.
use go_identity.Common.{
  ℕ, String, Bool, true, false, ◌&&◌, ◌!=◌, ltb, Option, none, some, if◌then◌else◌, [],
}
use go_identity.Identity.Token.{AccessToken, RefreshToken, AuthorizationCode, UserToken}
use go_identity.Identity.Client.{Client}
use go_identity.Identity.User.{User}
use go_identity.Store.{TokenFilter}
use go_identity.Memory.Table.{Table}

-- `Store`; each method holds the lock for its whole run, so the methods are atomic.
pub record Memory : Type 0 where
  pub clients : Table Client
  pub users : Table User
  pub access_tokens : Table AccessToken
  pub refresh_tokens : Table RefreshToken
  pub authorization_codes : Table AuthorizationCode
  pub user_tokens : Table UserToken

-- `New`
abbrev pub new : Memory
new = record {
  clients = [];
  users = [];
  access_tokens = [];
  refresh_tokens = [];
  authorization_codes = [];
  user_tokens = [];
}

-- `tokenFields`
pub record TokenFields : Type 0 where
  pub client_id : String
  pub user_id : String
  pub code_id : String
  pub expires_at : ℕ

-- `t.After(*before)` for a bound that may be absent
abbrev after_bound : Option ℕ → ℕ → Bool
after_bound none t = false
after_bound (some before) t = ltb before t

-- `matchToken`
unfoldable pub match_token : TokenFilter → TokenFields → Bool
match_token f t =
    if f.client_id != "" && f.client_id != t.client_id
    then false
    else if f.user_id != "" && f.user_id != t.user_id
    then false
    else if f.authorization_code_id != "" && f.authorization_code_id != t.code_id
    then false
    else if after_bound f.expired_before t.expires_at
    then false
    else true

abbrev pub access_token_fields : AccessToken → TokenFields
access_token_fields t = record {
  client_id = t.client_id;
  user_id = t.user_id;
  code_id = t.authorization_code_id;
  expires_at = t.expires_at;
}

abbrev pub refresh_token_fields : RefreshToken → TokenFields
refresh_token_fields t = record {
  client_id = t.client_id;
  user_id = t.user_id;
  code_id = t.authorization_code_id;
  expires_at = t.expires_at;
}
