-- ===== src/Store.antt =====
-- pkg/store/store.go: what the identity server asks of a database. A store over a state `S` reads
-- with `S → Result A`, and writes with `S → Result A × S`.
use go_identity.Common.{
  ℕ, zero, suc, String, Bool, true, false, ◌&&◌, List, Option, none, some, ◌==◌, ltb, ℤ, pos,
  negsuc, if◌then◌else◌,
}
use go_identity.Failure.{StoreError, Error, Result, store}
use go_identity.Effect.{M, ◌>>=◌, pure, write}
use go_identity.Identity.Token.{AccessToken, RefreshToken, AuthorizationCode, UserToken}
use go_identity.Identity.Client.{Client}
use go_identity.Identity.User.{User}

abbrev pub err_not_found : Error
err_not_found = store StoreError.not_found

abbrev pub err_duplicate : Error
err_duplicate = store StoreError.duplicate

abbrev pub err_conflict : Error
err_conflict = store StoreError.conflict

abbrev pub default_limit : ℤ
default_limit = pos 50

abbrev pub max_limit : ℤ
max_limit = pos 500

pub record ListOptions : Type 0 where
  pub offset : ℤ
  pub limit : ℤ

abbrev normal_offset : ℤ → ℤ
normal_offset (pos n) = pos n
normal_offset (negsuc n) = pos 0

abbrev normal_limit : ℤ → ℤ
normal_limit (pos zero) = default_limit
normal_limit (pos (suc n)) = if ltb 500 (suc n) then max_limit else pos (suc n)
normal_limit (negsuc n) = default_limit

-- `ListOptions.Normalize`
unfoldable pub normalize : ListOptions → ListOptions
normalize o = record { offset = normal_offset o.offset; limit = normal_limit o.limit }

pub record UserFilter : Type 0 where
  pub search : String

pub record TokenFilter : Type 0 where
  pub client_id : String
  pub user_id : String
  pub authorization_code_id : String
  pub expired_before : Option ℕ

abbrev pub no_filter : TokenFilter
no_filter = record {
  client_id = "";
  user_id = "";
  authorization_code_id = "";
  expired_before = none;
}

-- `TokenFilter.IsEmpty`
unfoldable pub is_empty : TokenFilter → Bool
is_empty f =
    f.client_id == ""
    && f.user_id == ""
    && f.authorization_code_id == ""
    && (elim f.expired_before [ none ↦ true | some t ↦ false ])

-- `Store`, with the methods of the interfaces that it embeds.
pub record Store (S : Type 0) : Type 0 where
  pub list_clients : ListOptions → S → Result (List Client × ℕ)
  pub get_client_by_id : String → S → Result Client
  pub get_client_by_client_id : String → S → Result Client
  pub create_client : Client → S → Result (Unit {0}) × S
  pub update_client : Client → S → Result (Unit {0}) × S
  pub delete_client : String → S → Result (Unit {0}) × S
  pub list_users : UserFilter → ListOptions → S → Result (List User × ℕ)
  pub get_user_by_id : String → S → Result User
  pub get_user_by_normalized_username : String → S → Result User
  pub get_user_by_normalized_email : String → S → Result User
  pub create_user : User → S → Result (Unit {0}) × S
  pub update_user : User → S → Result (Unit {0}) × S
  pub delete_user : String → S → Result (Unit {0}) × S
  pub list_access_tokens : TokenFilter → ListOptions → S → Result (List AccessToken × ℕ)
  pub get_access_token_by_id : String → S → Result AccessToken
  pub get_access_token_by_hash : String → S → Result AccessToken
  pub create_access_token : AccessToken → S → Result (Unit {0}) × S
  pub delete_access_token : String → S → Result (Unit {0}) × S
  pub delete_access_tokens : TokenFilter → S → Result ℕ × S
  pub list_refresh_tokens : TokenFilter → ListOptions → S → Result (List RefreshToken × ℕ)
  pub get_refresh_token_by_id : String → S → Result RefreshToken
  pub get_refresh_token_by_hash : String → S → Result RefreshToken
  pub create_refresh_token : RefreshToken → S → Result (Unit {0}) × S
  pub update_refresh_token : RefreshToken → S → Result (Unit {0}) × S
  pub delete_refresh_token : String → S → Result (Unit {0}) × S
  pub delete_refresh_tokens : TokenFilter → S → Result ℕ × S
  pub get_authorization_code_by_hash : String → S → Result AuthorizationCode
  pub create_authorization_code : AuthorizationCode → S → Result (Unit {0}) × S
  pub consume_authorization_code : String → ℕ → S → Result (Unit {0}) × S
  pub delete_authorization_code : String → S → Result (Unit {0}) × S
  pub delete_expired_authorization_codes : ℕ → S → Result ℕ × S
  pub get_user_token_by_hash : String → String → S → Result UserToken
  pub create_user_token : UserToken → S → Result (Unit {0}) × S
  pub delete_user_token : String → S → Result (Unit {0}) × S
  pub delete_user_tokens : String → String → S → Result ℕ × S
  pub delete_expired_user_tokens : ℕ → S → Result ℕ × S

module _ {S : Type 0} (st : Store S) where
  -- `DeleteExpired`
  unfoldable pub delete_expired : ℕ → M S (Unit {0})
  delete_expired now = do
    let filter = record no_filter { expired_before = some now }
    access ← write (st.delete_access_tokens filter)
    refresh ← write (st.delete_refresh_tokens filter)
    codes ← write (st.delete_expired_authorization_codes now)
    tokens ← write (st.delete_expired_user_tokens now)
    pure tt
