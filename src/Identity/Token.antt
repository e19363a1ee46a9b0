-- ===== src/Identity/Token.antt =====
-- pkg/identity/token.go. A time is a number of nanoseconds from Go's zero time; a duration is a
-- signed number of nanoseconds; an absent `*time.Time` is `none`.
pub mod Lifetime
use go_identity.Common.{
  ℕ, ◌+◌, ◌-◌, suc, String, Bool, true, false, ◌&&◌, ◌||◌, List, [], ◌∷◌, Option, none, some, ◌==◌,
  ltb, not, all, contains, ℤ, pos, negsuc, if◌then◌else◌,
}

-- `t.Add(d)`
unfoldable pub add_duration : ℕ → ℤ → ℕ
add_duration t (pos d) = t + d
add_duration t (negsuc d) = t - suc d

-- `UserTokenPurpose`
abbrev pub user_token_purpose_activation : String
user_token_purpose_activation = "activation"

abbrev pub user_token_purpose_password_reset : String
user_token_purpose_password_reset = "password_reset"

-- `RefreshTokenExpirationType` and `RefreshTokenUsage` of client.go
abbrev pub refresh_token_expiration_absolute : String
refresh_token_expiration_absolute = "absolute"

abbrev pub refresh_token_expiration_sliding : String
refresh_token_expiration_sliding = "sliding"

abbrev pub refresh_token_usage_reuse : String
refresh_token_usage_reuse = "reuse"

abbrev pub refresh_token_usage_onetime : String
refresh_token_usage_onetime = "onetime"

pub record AccessToken : Type 0 where
  pub id : String
  pub token_hash : String
  pub client_id : String
  pub user_id : String
  pub scopes : List String
  pub authorization_code_id : String
  pub created_at : ℕ
  pub expires_at : ℕ

-- `AccessToken.HasExpired`
unfoldable pub access_token_has_expired : AccessToken → ℕ → Bool
access_token_has_expired token now = not (ltb now token.expires_at)

pub record RefreshToken : Type 0 where
  pub id : String
  pub token_hash : String
  pub client_id : String
  pub user_id : String
  pub access_token_id : String
  pub authorization_code_id : String
  pub scopes : List String
  pub token_expiration : String
  pub token_usage : String
  pub lifetime : ℤ
  pub created_at : ℕ
  pub updated_at : ℕ
  pub expires_at : ℕ

-- `RefreshToken.HasExpired`
unfoldable pub refresh_token_has_expired : RefreshToken → ℕ → Bool
refresh_token_has_expired token now = not (ltb now token.expires_at)

-- `RefreshToken.Touch`
unfoldable pub touch : RefreshToken → ℕ → RefreshToken
unfolding add_duration
touch token now =
    let used = record token { updated_at = now } in
    if token.token_expiration == refresh_token_expiration_sliding
    then record used { expires_at = add_duration now token.lifetime }
    else used

-- `RefreshToken.ValidateScope`
unfoldable pub refresh_token_validate_scope : RefreshToken → String → Bool
refresh_token_validate_scope token scope = contains token.scopes scope

-- `RefreshToken.ValidateScopes`
unfoldable pub refresh_token_validate_scopes : RefreshToken → List String → Bool
unfolding refresh_token_validate_scope
refresh_token_validate_scopes token scopes = all (refresh_token_validate_scope token) scopes

pub record AuthorizationCode : Type 0 where
  pub id : String
  pub code_hash : String
  pub client_id : String
  pub user_id : String
  pub scopes : List String
  pub redirect_uri : String
  pub code_challenge : String
  pub code_challenge_method : String
  pub created_at : ℕ
  pub expires_at : ℕ
  pub consumed_at : Option ℕ

-- `AuthorizationCode.HasExpired`
unfoldable pub authorization_code_has_expired : AuthorizationCode → ℕ → Bool
authorization_code_has_expired code now = not (ltb now code.expires_at)

abbrev pub is_some {ℓ} : {A : Type ℓ} → Option A → Bool
is_some none = false
is_some (some a) = true

-- `AuthorizationCode.IsConsumed`
unfoldable pub is_consumed : AuthorizationCode → Bool
is_consumed code = is_some code.consumed_at

-- `AuthorizationCode.ValidateRedirectUri`
unfoldable pub authorization_code_validate_redirect_uri : AuthorizationCode → String → Bool
authorization_code_validate_redirect_uri code redirect_uri = redirect_uri == code.redirect_uri

pub record UserToken : Type 0 where
  pub id : String
  pub user_id : String
  pub purpose : String
  pub token_hash : String
  pub created_at : ℕ
  pub expires_at : ℕ

-- `UserToken.HasExpired`
unfoldable pub user_token_has_expired : UserToken → ℕ → Bool
user_token_has_expired token now = not (ltb now token.expires_at)
