-- ===== src/Api/Users.antt =====
-- pkg/api/users.go
use go_identity.Common.{
  ℕ, String, Bool, true, Option, none, some, ◌!=◌, get_value, not, text_append, if◌then◌else◌,
}
use go_identity.Effect.{M, ◌>>=◌, ◌>>◌, pure, read, write, now}
use go_identity.Identity.User.{User, is_locked_out}
use go_identity.Store.{TokenFilter, no_filter}
use go_identity.Account.Service.{get_user}
use go_identity.Account.UserTokens.{send_activation}
use go_identity.Account.Users.{create_user, update_user, delete_user}
use go_identity.Account.Password.{set_password, request_password_reset}
use go_identity.Api.{
  Api, Target, Payload, Response, json, created, no_body, write_error, handled, decode,
  ListResponse, list_options, respond_list,
}

-- `User` of the API.
pub record UserView : Type 0 where
  pub id : String
  pub username : String
  pub email : String
  pub email_verified : Bool
  pub enabled : Bool
  pub has_password : Bool
  pub locked_out : Bool
  pub lockout_end : Option ℕ
  pub failed_login_count : ℕ
  pub last_login_at : Option ℕ
  pub created_at : ℕ
  pub updated_at : ℕ

pub record CreateUserRequest : Type 0 where
  pub username : String
  pub email : String
  pub password : String
  pub email_verified : Bool
  pub enabled : Option Bool
  pub send_activation : Bool

pub record UpdateUserRequest : Type 0 where
  pub username : String
  pub email : String
  pub email_verified : Bool
  pub enabled : Bool

pub record PasswordRequest : Type 0 where
  pub password : String

pub record RevokeResponse : Type 0 where
  pub access_tokens : ℕ
  pub refresh_tokens : ℕ

abbrev or_enabled : Option Bool → Bool
or_enabled none = true
or_enabled (some enabled) = enabled

module _ {S : Type 0} (a : Api S) where
  -- `toUser`
  unfoldable pub to_user : User → M S UserView
  to_user u = do
    t ← now a.env
    pure (record {
      id = u.id;
      username = u.username;
      email = u.email;
      email_verified = u.email_verified;
      enabled = u.enabled;
      has_password = u.password_hash != "";
      locked_out = is_locked_out u t;
      lockout_end = u.lockout_end;
      failed_login_count = u.failed_login_count;
      last_login_at = u.last_login_at;
      created_at = u.created_at;
      updated_at = u.updated_at;
    })

  -- `writeJSON(w, status, a.toUser(user))`
  abbrev with_user : (UserView → Response UserView) → User → M S (Response UserView)
  with_user f user = do view ← to_user user; pure (f view)

  unfoldable pub list_users : Target → M S (Response (ListResponse UserView))
  list_users r = list_options a r (λ opts. handled (do
    page ← read (a.accounts.store.list_users (record { search = get_value r.query "search" }) opts)
    respond_list to_user page opts))

  unfoldable pub get_user_view : Target → M S (Response UserView)
  get_user_view r = handled (do user ← read (get_user a.accounts r.id); with_user (json 200) user)

  unfoldable pub create_user_view : Target → Payload CreateUserRequest → M S (Response UserView)
  create_user_view r payload = decode payload (λ req. handled (do
    user ← create_user a.accounts (record {
      username = req.username;
      email = req.email;
      password = req.password;
      email_verified = req.email_verified;
      enabled = or_enabled req.enabled;
      send_activation = req.send_activation;
    })
    with_user (created (text_append r.path (text_append "/" user.id))) user))

  unfoldable pub update_user_view : Target → Payload UpdateUserRequest → M S (Response UserView)
  update_user_view r payload = decode payload (λ req. handled (do
    user ← read (get_user a.accounts r.id)
    saved ← update_user a.accounts (record user {
      username = req.username;
      email = req.email;
      email_verified = req.email_verified;
      enabled = req.enabled;
    })
    with_user (json 200) saved))

  unfoldable pub delete_user_view : Target → M S (Response (Unit {0}))
  delete_user_view r = handled (do delete_user a.accounts r.id; pure (no_body 204))

  unfoldable pub set_user_password : Target → Payload PasswordRequest → M S (Response (Unit {0}))
  set_user_password r payload =
      decode payload
        (λ req. handled (do set_password a.accounts r.id req.password; pure (no_body 204)))

  unfoldable pub unlock_user : Target → M S (Response UserView)
  unlock_user r = handled (do
    user ← read (get_user a.accounts r.id)
    saved ← update_user a.accounts (record user { lockout_end = none; failed_login_count = 0 })
    with_user (json 200) saved)

  unfoldable pub send_user_activation : Target → M S (Response (Unit {0}))
  send_user_activation r = handled (do
    user ← read (get_user a.accounts r.id)
    if user.email_verified
        then pure (write_error 409 "conflict" "the email address is already verified")
        else (do send_activation a.accounts user; pure (no_body 202)))

  unfoldable pub send_user_password_reset : Target → M S (Response (Unit {0}))
  send_user_password_reset r = handled (do
    user ← read (get_user a.accounts r.id)
    if not user.enabled
        then pure (write_error 409 "conflict" "the user is disabled")
        else (do request_password_reset a.accounts user.email; pure (no_body 202)))

  unfoldable pub revoke_user_tokens : Target → M S (Response RevokeResponse)
  revoke_user_tokens r = handled (do
    user ← read (get_user a.accounts r.id)
    let filter : TokenFilter = record no_filter { user_id = user.id }
    refresh ← write (a.accounts.store.delete_refresh_tokens filter)
    access ← write (a.accounts.store.delete_access_tokens filter)
    pure (json 200 (record { access_tokens = access; refresh_tokens = refresh })))
