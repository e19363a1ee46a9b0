-- ===== src/Account/Service.antt =====
-- The options and the lookups of pkg/account/account.go.
use go_identity.Common.{
  String, Bool, true, false, ◌&&◌, ◌==◌, not, ltb, ℤ, pos, runes, bytes, length, text_contains,
  if◌then◌else◌,
}
use go_identity.Failure.{
  AccountError, Error, Result, ok, err, account, new_validation_error, ◌>>◌, refuse,
}
use go_identity.Effect.{Env, Message, not_found_as, is_not_found}
use go_identity.Security.{Hasher, max_secret_length}
use go_identity.Identity.User.{User, normalize_username, normalize_email}
use go_identity.Identity.Client.{lifetime_or}
use go_identity.Store.{Store}
use go_identity.Memory.Page.{to_ℕ}

-- `Options`, without the parts that wire the service to its surroundings.
pub record Options : Type 0 where
  pub application_name : String
  pub require_activation : Bool
  pub activation_token_lifetime : ℤ
  pub password_reset_token_lifetime : ℤ
  pub min_password_length : ℤ
  pub max_failed_attempts : ℤ
  pub lockout_duration : ℤ

-- The defaults that `New` fills in: two days, an hour, eight characters, fifteen minutes.
unfoldable pub with_defaults : Options → Options
with_defaults o = record o {
  application_name = if o.application_name == "" then "Identity" else o.application_name;
  activation_token_lifetime = lifetime_or o.activation_token_lifetime (pos 172_800_000_000_000);
  password_reset_token_lifetime =
      lifetime_or o.password_reset_token_lifetime (pos 3_600_000_000_000);
  min_password_length = lifetime_or o.min_password_length (pos 8);
  lockout_duration = lifetime_or o.lockout_duration (pos 900_000_000_000);
}

-- `Service`: the store, the hasher, the mailer and the link builder that it is given.
pub record Service (S : Type 0) : Type 0 where
  pub store : Store S
  pub env : Env
  pub hasher : Hasher
  pub deliver : Message → Result (Unit {0})
  pub activation_url : String → String
  pub password_reset_url : String → String
  pub opts : Options

-- `s.opts.Hasher.Verify(hash, secret) == nil`
abbrev pub verifies : Hasher → String → String → Bool
verifies h hash secret = elim (h.verify hash secret) [ ok u ↦ true | err e ↦ false ]

-- The error of a store read, `ErrNotFound` replaced.
abbrev pub or_error {ℓ} : {A : Type ℓ} → Error → Result A → Result A
or_error e (ok a) = ok a
or_error e (err e') = err (not_found_as e e')

abbrev pub fails_not_found {ℓ} : {A : Type ℓ} → Result A → Bool
fails_not_found (ok a) = false
fails_not_found (err e) = is_not_found e

module _ {S : Type 0} (svc : Service S) where
  -- `ValidatePassword`
  unfoldable pub validate_password : String → Result (Unit {0})
  validate_password password = do
    refuse (ltb (length (runes password)) (to_ℕ svc.opts.min_password_length))
        (new_validation_error "password" "is too short")
    refuse (ltb max_secret_length (length (bytes password)))
        (new_validation_error "password" "is too long, the maximum is 72 bytes")

  -- `GetUser`
  unfoldable pub get_user : String → S → Result User
  get_user id s = or_error (account AccountError.no_such_user) (svc.store.get_user_by_id id s)

  -- `FindUser`
  unfoldable pub find_user : String → S → Result User
  find_user login s =
      let by_name =
        svc.store.get_user_by_normalized_username (normalize_username svc.env login) s in
      let by_email = svc.store.get_user_by_normalized_email (normalize_email svc.env login) s in
      or_error (account AccountError.no_such_user)
        (if fails_not_found by_name && text_contains login "@" then by_email else by_name)

  -- `CanSignIn`
  unfoldable pub can_sign_in : User → Result (Unit {0})
  can_sign_in user =
      if not user.enabled
      then err (account AccountError.disabled)
      else if svc.opts.require_activation && not user.email_verified
      then err (account AccountError.not_activated)
      else ok tt

-- `CanSignIn(user) == nil`
abbrev pub signs_in : Result (Unit {0}) → Bool
signs_in (ok u) = true
signs_in (err e) = false
