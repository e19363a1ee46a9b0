-- ===== src/Identity/User.antt =====
-- pkg/identity/user.go. `strings.TrimSpace`, `strings.ToLower` and `mail.ParseAddress` are fields
-- of `Env`.
use go_identity.Common.{
  ℕ, String, Bool, false, ◌&&◌, ◌||◌, Option, none, some, ◌==◌, ltb, leb, eqb, not, all, bytes,
  runes, length,
}
use go_identity.Failure.{Result, new_validation_error, ◌>>◌, refuse}
use go_identity.Effect.{Env}

pub record User : Type 0 where
  pub id : String
  pub username : String
  pub normalized_username : String
  pub email : String
  pub normalized_email : String
  pub password_hash : String
  pub email_verified : Bool
  pub enabled : Bool
  pub security_stamp : String
  pub failed_login_count : ℕ
  pub lockout_end : Option ℕ
  pub last_login_at : Option ℕ
  pub created_at : ℕ
  pub updated_at : ℕ

-- `IsLockedOut`
unfoldable pub is_locked_out : User → ℕ → Bool
is_locked_out u now = elim u.lockout_end [ none ↦ false | some lockout_end ↦ ltb now lockout_end ]

-- `NormalizeUsername`
unfoldable pub normalize_username : Env → String → String
normalize_username env username = env.to_lower (env.trim_space username)

-- `NormalizeEmail`
unfoldable pub normalize_email : Env → String → String
normalize_email env email = env.to_lower (env.trim_space email)

-- `User.Normalize`
unfoldable pub normalize : Env → User → User
unfolding normalize_username normalize_email
normalize env u =
    let username = env.trim_space u.username in
    let email = env.trim_space u.email in
    record u {
      username = username;
      email = email;
      normalized_username = normalize_username env username;
      normalized_email = normalize_email env email;
    }

abbrev is_username_rune : ℕ → Bool
is_username_rune r =
    leb b'a' r && leb r b'z'
    || leb b'A' r && leb r b'Z'
    || leb b'0' r && leb r b'9'
    || eqb r b'.'
    || eqb r b'_'
    || eqb r b'-'
    || eqb r b'@'

-- `ValidateUsername`
unfoldable pub validate_username : String → Result (Unit {0})
validate_username username = do
  refuse (ltb (length (runes username)) 3 || ltb 64 (length (runes username)))
      (new_validation_error "username" "must be between 3 and 64 characters")
  refuse (not (all is_username_rune (runes username)))
      (new_validation_error "username" "may only contain letters, digits, '.', '_', '-' and '@'")

abbrev is_plain_address : Option String → String → Bool
is_plain_address none email = false
is_plain_address (some address) email = address == email

-- `ValidateEmail`
unfoldable pub validate_email : Env → String → Result (Unit {0})
validate_email env email = do
  refuse (email == "" || ltb 254 (length (bytes email)))
      (new_validation_error "email" "is required")
  refuse (not (is_plain_address (env.parse_address email) email))
      (new_validation_error "email" "is not a valid email address")

-- `User.Validate`
unfoldable pub validate_user : Env → User → Result (Unit {0})
unfolding validate_username validate_email
validate_user env u = do validate_username u.username; validate_email env u.email
