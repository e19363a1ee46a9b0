-- ===== src/Account/Password.antt =====
-- Changing and resetting passwords: pkg/account/account.go.
pub mod Change
pub mod Reset
pub mod Revocation
use go_identity.Common.{String, Bool, true, false, Option, none, some, not, ℕ, if◌then◌else◌}
use go_identity.Failure.{AccountError, Error, Result, ok, err, account}
use go_identity.Effect.{
  M, ◌>>=◌, ◌>>◌, pure, fail, lift, read, write, refuse_if, map_error, now, send, not_found_as,
}
use go_identity.Security.{new_token, hash_secret}
use go_identity.Identity.Token.{UserToken, user_token_purpose_password_reset}
use go_identity.Identity.User.{User}
use go_identity.Account.Service.{Service, validate_password, get_user}
use go_identity.Account.Email.{password_reset_message}
use go_identity.Account.Users.{revoke_tokens}
use go_identity.Account.UserTokens.{
  create_user_token, lookup_user_token, for_address, invalid_user_token,
}

module _ {S : Type 0} (svc : Service S) where
  -- `setPassword`, with the user as it was saved.
  unfoldable pub change_password : User → String → M S User
  change_password user password = do
    lift (validate_password svc password)
    hash ← hash_secret svc.hasher password
    stamp ← new_token svc.env
    t ← now svc.env
    let saved : User = record user {
      password_hash = hash;
      security_stamp = stamp;
      failed_login_count = 0;
      lockout_end = none;
      updated_at = t;
    }
    write (svc.store.update_user saved)
    revoke_tokens svc saved.id
    pure saved

  -- `SetPassword`
  unfoldable pub set_password : String → String → M S (Unit {0})
  set_password user_id password = do
    user ← read (get_user svc user_id)
    saved ← change_password user password
    pure tt

  -- `RequestPasswordReset`
  unfoldable pub request_password_reset : String → M S (Unit {0})
  request_password_reset email = for_address svc email (λ user.
      if not user.enabled then pure tt else (do
        token ←
            create_user_token svc user user_token_purpose_password_reset
              svc.opts.password_reset_token_lifetime
        send svc.deliver (
            password_reset_message svc.env svc.opts.application_name user
              (svc.password_reset_url token) svc.opts.password_reset_token_lifetime)))

  -- `VerifyPasswordResetToken`
  unfoldable pub verify_password_reset_token : String → M S (Unit {0})
  verify_password_reset_token token = do
    (user_token, user) ← lookup_user_token svc user_token_purpose_password_reset token
    refuse_if (not user.enabled) invalid_user_token

  -- `ResetPassword`
  unfoldable pub reset_password : String → String → M S User
  reset_password token password = do
    lift (validate_password svc password)
    (user_token, user) ← lookup_user_token svc user_token_purpose_password_reset token
    refuse_if (not user.enabled) invalid_user_token
    saved ← change_password (record user { email_verified = true }) password
    deleted ← write (svc.store.delete_user_tokens saved.id user_token_purpose_password_reset)
    pure saved
