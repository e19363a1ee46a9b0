-- ===== src/Account/UserTokens.antt =====
-- The tokens that are sent by mail, and the activation of an account: pkg/account/account.go.
pub mod Sound
use go_identity.Common.{
  String, Bool, true, false, ◌||◌, Option, none, some, ◌==◌, not, ℕ, ℤ, if◌then◌else◌,
}
use go_identity.Failure.{AccountError, Error, Result, ok, err, account}
use go_identity.Effect.{
  M, ◌>>=◌, ◌>>◌, pure, fail, read, write, refuse_if, map_error, now, send, not_found_as,
  ignore_not_found, is_not_found,
}
use go_identity.Security.{new_id, new_token, hash_token}
use go_identity.Identity.Token.{
  UserToken, add_duration, user_token_has_expired, user_token_purpose_activation,
}
use go_identity.Identity.User.{User, normalize_email}
use go_identity.Account.Service.{Service}
use go_identity.Account.Email.{activation_message}

abbrev pub invalid_user_token : Error
invalid_user_token = account AccountError.invalid_token

module _ {S : Type 0} (svc : Service S) where
  -- `createUserToken`
  unfoldable pub create_user_token : User → String → ℤ → M S String
  create_user_token user purpose lifetime = do
    deleted ← write (svc.store.delete_user_tokens user.id purpose)
    t ← now svc.env
    token ← new_token svc.env
    id ← new_id svc.env
    write (
        svc.store.create_user_token (record {
          id = id;
          user_id = user.id;
          purpose = purpose;
          token_hash = hash_token svc.env token;
          created_at = t;
          expires_at = add_duration t lifetime;
        }))
    pure token

  -- `lookupUserToken`
  unfoldable pub lookup_user_token : String → String → M S (UserToken × User)
  lookup_user_token purpose token = do
    refuse_if (token == "") invalid_user_token
    user_token ←
        map_error (not_found_as invalid_user_token)
          (read (svc.store.get_user_token_by_hash purpose (hash_token svc.env token)))
    t ← now svc.env
    refuse_if (user_token_has_expired user_token t) invalid_user_token
    user ←
        map_error (not_found_as invalid_user_token)
          (read (svc.store.get_user_by_id user_token.user_id))
    pure (user_token, user)

  -- `SendActivation`
  unfoldable pub send_activation : User → M S (Unit {0})
  send_activation user = do
    token ← create_user_token user user_token_purpose_activation svc.opts.activation_token_lifetime
    send svc.deliver (
        activation_message svc.env svc.opts.application_name user (svc.activation_url token)
          svc.opts.activation_token_lifetime)

  -- What follows a lookup by address: nothing, if nobody has it.
  abbrev pub with_known : Result User → (User → M S (Unit {0})) → M S (Unit {0})
  with_known (ok user) f = f user
  with_known (err e) f = if is_not_found e then pure tt else fail e

  -- The user of an address, if there is one.
  unfoldable pub for_address : String → (User → M S (Unit {0})) → M S (Unit {0})
  for_address email f w =
      with_known (svc.store.get_user_by_normalized_email (normalize_email svc.env email) w.db) f w

  -- `ResendActivation`
  unfoldable pub resend_activation : String → M S (Unit {0})
  resend_activation email =
      for_address email
        (λ user. if user.email_verified || not user.enabled then pure tt else send_activation user)

  -- `Activate`
  unfoldable pub activate : String → M S User
  activate token = do
    (user_token, user) ← lookup_user_token user_token_purpose_activation token
    t ← now svc.env
    let activated : User = record user { email_verified = true; updated_at = t }
    write (svc.store.update_user activated)
    ignore_not_found (write (svc.store.delete_user_token user_token.id))
    pure activated
