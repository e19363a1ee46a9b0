-- ===== src/Account/Authenticate.antt =====
-- `Authenticate` of pkg/account/account.go: the password check with its lockout. The verification
-- against a dummy hash, whose result the code drops, only spends time and is left out.
pub mod Sound
pub mod Lockout
pub mod Locked
use go_identity.Common.{
  ℕ, suc, ◌+◌, String, Bool, true, false, ◌&&◌, ◌||◌, Option, none, some, ◌==◌, not, leb, ℤ,
  is_nonpositive, if◌then◌else◌,
}
use go_identity.Failure.{AccountError, Error, Result, ok, err, account}
use go_identity.Effect.{M, ◌>>=◌, ◌>>◌, pure, fail, read, write, refuse_if, map_error, now, when}
use go_identity.Identity.Token.{add_duration}
use go_identity.Identity.User.{User, is_locked_out}
use go_identity.Memory.Page.{to_ℕ}
use go_identity.Account.Service.{Options, Service, verifies, find_user}

-- `errors.Is(err, ErrNotFound)` becomes `ErrInvalidCredentials`.
abbrev unknown_login : Error → Error
unknown_login (account AccountError.no_such_user) = account AccountError.invalid_credentials
unknown_login other_error = other_error

-- The user after one more failed attempt.
unfoldable pub count_failure : Options → ℕ → User → User
unfolding add_duration
count_failure opts now user =
    let failures = suc user.failed_login_count in
    if leb (to_ℕ opts.max_failed_attempts) failures
    then record user {
      failed_login_count = 0;
      lockout_end = some (add_duration now opts.lockout_duration);
      updated_at = now;
    }
    else record user { failed_login_count = failures; updated_at = now }

-- The user after a login.
unfoldable pub record_login : ℕ → User → User
record_login now user = record user {
  failed_login_count = 0;
  lockout_end = none;
  last_login_at = some now;
  updated_at = now;
}

module _ {S : Type 0} (svc : Service S) where
  -- The branch of a wrong password.
  unfoldable pub refuse_password : User → ℕ → M S User
  refuse_password user t = do
    when (not (is_nonpositive svc.opts.max_failed_attempts))
        (write (svc.store.update_user (count_failure svc.opts t user)))
    fail (account AccountError.invalid_credentials)

  -- The branch of a right password.
  unfoldable pub accept_password : User → ℕ → M S User
  accept_password user t = do
    refuse_if (not user.enabled) (account AccountError.disabled)
    refuse_if (svc.opts.require_activation && not user.email_verified)
        (account AccountError.not_activated)
    write (svc.store.update_user (record_login t user))
    pure (record_login t user)

  unfoldable pub authenticate : String → String → M S User
  authenticate login password = do
    t ← now svc.env
    user ← map_error unknown_login (read (find_user svc login))
    refuse_if (is_locked_out user t) (account AccountError.locked_out)
    if user.password_hash == "" || not (verifies svc.hasher user.password_hash password)
        then refuse_password user t
        else accept_password user t
