-- ===== src/Account/Users.antt =====
-- Creating, updating and deleting users: pkg/account/account.go.
use go_identity.Common.{String, Bool, true, ◌&&◌, ◌||◌, none, ◌==◌, ◌!=◌, not, if◌then◌else◌}
use go_identity.Failure.{StoreError, AccountError, Error, Result, ok, err, store, account}
use go_identity.Effect.{
  M, ◌>>=◌, ◌>>◌, pure, lift, read, write, map_error, now, when, not_found_as, is_not_found, logged,
}
use go_identity.Security.{new_id, new_token, hash_secret}
use go_identity.Identity.Token.{user_token_purpose_activation, user_token_purpose_password_reset}
use go_identity.Identity.User.{User, normalize, validate_user}
use go_identity.Store.{TokenFilter, no_filter}
use go_identity.Account.Service.{Service, validate_password, get_user}
use go_identity.Account.UserTokens.{send_activation}

pub record CreateUserInput : Type 0 where
  pub username : String
  pub email : String
  pub password : String
  pub email_verified : Bool
  pub enabled : Bool
  pub send_activation : Bool

abbrev pub user_exists : Error
user_exists = account AccountError.user_exists

-- A lookup that finds another user refuses; one that finds nobody does not.
abbrev pub taken_by_other : String → Result User → Result (Unit {0})
taken_by_other id (ok existing) = if existing.id != id then err user_exists else ok tt
taken_by_other id (err e) = if is_not_found e then ok tt else err e

-- `errors.Is(err, store.ErrDuplicate)` becomes `ErrUserExists`.
abbrev pub duplicate_as_exists : Error → Error
duplicate_as_exists (store StoreError.duplicate) = user_exists
duplicate_as_exists other_error = other_error

module _ {S : Type 0} (svc : Service S) where
  -- `ensureUnique`
  unfoldable pub ensure_unique : User → M S (Unit {0})
  ensure_unique user = do
    read (λ s.
        taken_by_other user.id
          (svc.store.get_user_by_normalized_username user.normalized_username s))
    read (λ s.
        taken_by_other user.id (svc.store.get_user_by_normalized_email user.normalized_email s))

  -- `RevokeTokens`
  unfoldable pub revoke_tokens : String → M S (Unit {0})
  revoke_tokens user_id = do
    let filter : TokenFilter = record no_filter { user_id = user_id }
    refresh ← write (svc.store.delete_refresh_tokens filter)
    access ← write (svc.store.delete_access_tokens filter)
    pure tt

  -- The hash of an optional password.
  unfoldable pub initial_hash : String → M S String
  initial_hash password =
      if password != ""
      then (do lift (validate_password svc password); hash_secret svc.hasher password)
      else pure ""

  -- `CreateUser`
  unfoldable pub create_user : CreateUserInput → M S User
  create_user input = do
    t ← now svc.env
    id ← new_id svc.env
    stamp ← new_token svc.env
    let user : User = normalize svc.env (record {
      id = id;
      username = input.username;
      normalized_username = "";
      email = input.email;
      normalized_email = "";
      password_hash = "";
      email_verified = input.email_verified;
      enabled = input.enabled;
      security_stamp = stamp;
      failed_login_count = 0;
      lockout_end = none;
      last_login_at = none;
      created_at = t;
      updated_at = t;
    })
    lift (validate_user svc.env user)
    hash ← initial_hash input.password
    let created : User = record user { password_hash = hash }
    ensure_unique created
    map_error duplicate_as_exists (write (svc.store.create_user created))
    when (input.send_activation && not created.email_verified)
        (logged (send_activation svc created))
    pure created

  -- `Register`
  unfoldable pub register : String → String → String → M S User
  unfolding create_user
  register username email password = create_user (record {
    username = username;
    email = email;
    password = password;
    email_verified = not svc.opts.require_activation;
    enabled = true;
    send_activation = svc.opts.require_activation;
  })

  -- The stamp of an updated user: a new one if the account is disabled or its address changes.
  unfoldable pub renewed_stamp : User → User → M S String
  renewed_stamp current user =
      if not user.enabled && current.enabled || user.normalized_email != current.normalized_email
      then new_token svc.env
      else pure (if user.security_stamp == "" then current.security_stamp else user.security_stamp)

  abbrev update_error : Error → Error
  update_error (store StoreError.not_found) = account AccountError.no_such_user
  update_error other_error = duplicate_as_exists other_error

  -- `UpdateUser`, with the user as it was saved.
  unfoldable pub update_user : User → M S User
  update_user changed = do
    current ← read (get_user svc changed.id)
    let user : User = normalize svc.env changed
    lift (validate_user svc.env user)
    ensure_unique user
    t ← now svc.env
    stamp ← renewed_stamp current user
    let saved : User = record user {
      password_hash = current.password_hash;
      created_at = current.created_at;
      updated_at = t;
      security_stamp = stamp;
    }
    map_error update_error (write (svc.store.update_user saved))
    when (not user.enabled && current.enabled) (revoke_tokens saved.id)
    pure saved

  -- `DeleteUser`
  unfoldable pub delete_user : String → M S (Unit {0})
  delete_user id = do
    map_error (not_found_as (account AccountError.no_such_user)) (write (svc.store.delete_user id))
    revoke_tokens id
    activation ← write (svc.store.delete_user_tokens id user_token_purpose_activation)
    reset ← write (svc.store.delete_user_tokens id user_token_purpose_password_reset)
    pure tt
