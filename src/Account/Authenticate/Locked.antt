-- ===== src/Account/Authenticate/Locked.antt =====
-- A row of logins over the in-memory store: the last wrong password allowed and the next login.
use go_identity.Common.{
  ℕ, suc, ◌+◌, ◌<◌, String, ◌≡◌, refl, sym, ap, subst, ◌∙◌, inl, inr, true, false, ◌&&◌, ◌||◌, some,
  arith, ◌==◌, ◌!=◌, eq_iff, Option-cases, Bool-cases, eq_of_test, pos,
}
use go_identity.Failure.{AccountError, ok, err, account}
use go_identity.Effect.{Env, World, ◌>>=◌, refuse_if, map_error, now, time, when}
use go_identity.Identity.User.{User, is_locked_out, normalize_username}
use go_identity.Memory.State.{Memory}
use go_identity.Memory.Table.{get, put, find, get-put}
use go_identity.Memory.Unique.{IsIndexed, find-some, find_iff, replace-IsIndexed}
use go_identity.Memory.Invariant.{IsWellFormed}
use go_identity.Memory.Users.{update_user, get_user_by_normalized_username, user_taken}
use go_identity.Account.Service.{Options, Service, verifies, find_user}
use go_identity.Account.Password.Revocation.{accounts_in_memory}
use go_identity.Account.Authenticate.{authenticate, refuse_password, count_failure}

-- Nobody else has the names of a stored user.
user_taken-stored :
    (user u : User) (s : Memory)
    → IsWellFormed s
    → get user.id s.users ≡ some user
    → u.id ≡ user.id
    → u.normalized_username ≡ user.normalized_username
    → u.normalized_email ≡ user.normalized_email
    → user_taken u u.id s ≡ false
unfolding user_taken
user_taken-stored user u s wf stored i n e =
    elim (Option-cases (
      find
        (λ (v : User).
          v.id != u.id
          && (v.normalized_username == u.normalized_username
              || v.normalized_email == u.normalized_email))
        s.users)) [
          | inl nobody ↦ rw nobody refl
          | inr (v, taken) ↦
              let (k, g, p) = find-some _ s.users v wf.users.map taken in
              let same : v.id ≡ u.id =
                (wf.users.keyed k v g).0
                ∙ elim (Bool-cases (v.normalized_username == u.normalized_username)) [
                  | inl same_name ↦
                      wf.users.unique k user.id v user g stored (eq_of_test _ _ same_name ∙ n)
                  | inr other_name ↦ wf.emails.unique k user.id v user g stored (
                      eq_of_test v.normalized_email u.normalized_email (ground (arith, other_name))
                      ∙ e)
                ]
                ∙ sym i in
              absurd (ground (arith, eq_iff v.id u.id, same))
        ]

update_user-stored :
    (user u : User) (s : Memory)
    → IsWellFormed s
    → get user.id s.users ≡ some user
    → u.id ≡ user.id
    → u.normalized_username ≡ user.normalized_username
    → u.normalized_email ≡ user.normalized_email
    → update_user u s ≡ (ok tt, record s { users = put u.id u s.users })
unfolding update_user
update_user-stored user u s wf stored i n e =
    rw (user_taken-stored user u s wf stored i n e) (rw (i, stored) refl)

-- A stored user is found by the name.
find_user-stored :
    (env : Env) (svc : Service Memory) (login : String) (u : User) (s : Memory)
    → IsIndexed (λ (u : User). u.id) (λ u. u.normalized_username) s.users
    → get u.id s.users ≡ some u
    → u.normalized_username ≡ normalize_username svc.env login
    → find_user (accounts_in_memory env svc) login s ≡ ok u
unfolding find_user get_user_by_normalized_username
find_user-stored env svc login u s indexed stored named =
    rw
      ((find_iff (λ (u : User). u.id) (λ u. u.normalized_username)
          (normalize_username svc.env login) s.users u indexed).1
        (stored, named))
      refl

-- A user that replaces a stored one is found by the same name.
find_user-put :
    (env : Env) (svc : Service Memory) (login : String) (user u : User) (s : Memory)
    → IsWellFormed s
    → get user.id s.users ≡ some user
    → u.id ≡ user.id
    → u.normalized_username ≡ user.normalized_username
    → user.normalized_username ≡ normalize_username svc.env login
    → find_user (accounts_in_memory env svc) login (record s { users = put u.id u s.users }) ≡ ok u
find_user-put env svc login user u s wf stored i n named =
    find_user-stored env svc login u (record s { users = put u.id u s.users })
      (subst (λ k. IsIndexed (λ (u : User). u.id) (λ u. u.normalized_username) (put k u s.users))
        (sym i) (replace-IsIndexed _ _ user.id user u s.users wf.users stored i n))
      (rw (get-put u.id u.id u s.users) (ground (arith, eq_iff u.id u.id))) (n ∙ named)

-- A user who is locked until a time.
abbrev pub locked_until : ℕ → ℕ → User → User
locked_until t until user = record user {
  failed_login_count = 0;
  lockout_end = some until;
  updated_at = t;
}

count_failure-locked_until :
    (opts : Options) (m d t : ℕ) (user : User)
    → opts.max_failed_attempts ≡ pos (suc m)
    → opts.lockout_duration ≡ pos d
    → user.failed_login_count ≡ m
    → count_failure opts t user ≡ locked_until t (t + d) user
unfolding count_failure
count_failure-locked_until opts m d t user on dur last = rw (on, dur) (ground arith)

authenticate-wrong :
    {S : Type 0} (svc : Service S) (login wrong : String) (user : User) (m : ℕ) (w : World S)
    → svc.opts.max_failed_attempts ≡ pos (suc m)
    → find_user svc login w.db ≡ ok user
    → is_locked_out user (time svc.env w) ≡ false
    → verifies svc.hasher user.password_hash wrong ≡ false
    → (svc.store.update_user (count_failure svc.opts (time svc.env w) user) w.db).0 ≡ ok tt
    → authenticate svc login wrong w ≡ (
      err (account AccountError.invalid_credentials),
      record w {
        db = (svc.store.update_user (count_failure svc.opts (time svc.env w) user) w.db).1;
        ticks = suc w.ticks;
      },
    )
unfolding authenticate refuse_password ◌>>=◌ now map_error refuse_if when
authenticate-wrong svc login wrong user m w on known unlocked refused saved =
    rw (known, unlocked, refused, on) (ground (arith, saved))

authenticate-locked :
    {S : Type 0} (svc : Service S) (login password : String) (user : User) (w : World S)
    → find_user svc login w.db ≡ ok user
    → is_locked_out user (time svc.env w) ≡ true
    → authenticate svc login password w
      ≡ (err (account AccountError.locked_out), record w { ticks = suc w.ticks })
unfolding authenticate ◌>>=◌ now map_error refuse_if
authenticate-locked svc login password user w known locked = rw (known, locked)

module _ (env : Env) (svc : Service Memory) where
  -- The world after a user was locked by a login.
  abbrev pub locking : ℕ → User → World Memory → World Memory
  locking d user w = record w {
    db = record w.db {
      users = put user.id (locked_until (time svc.env w) (time svc.env w + d) user) w.db.users;
    };
    ticks = suc w.ticks;
  }

  -- On a well-formed in-memory store, a wrong password for an account with one failed attempt less
  -- than the limit is refused, and the stored user is locked for the lockout duration from the time
  -- of the login. The next login for the account before that, with any password, is refused as locked
  -- out and changes nothing.
  pub authenticate_locks :
      (login wrong password : String) (user : User) (m d : ℕ) (w : World Memory)
      → svc.opts.max_failed_attempts ≡ pos (suc m)
      → svc.opts.lockout_duration ≡ pos d
      → IsWellFormed w.db
      → get user.id w.db.users ≡ some user
      → user.normalized_username ≡ normalize_username svc.env login
      → is_locked_out user (time svc.env w) ≡ false
      → user.failed_login_count ≡ m
      → verifies svc.hasher user.password_hash wrong ≡ false
      → time svc.env (locking d user w) < time svc.env w + d
      → (authenticate (accounts_in_memory env svc) login wrong w
          ≡ (err (account AccountError.invalid_credentials), locking d user w))
        × (authenticate (accounts_in_memory env svc) login password (locking d user w) ≡ (
          err (account AccountError.locked_out),
          record (locking d user w) { ticks = suc (suc w.ticks) },
        ))
  unfolding is_locked_out
  authenticate_locks login wrong password user m d w on dur wf stored named unlocked last refused
        soon =
      let locked : User = locked_until (time svc.env w) (time svc.env w + d) user in
      let saved =
        ap (λ u. update_user u w.db)
          (count_failure-locked_until svc.opts m d (time svc.env w) user on dur last)
        ∙ update_user-stored user locked w.db wf stored refl refl refl in
      (
        authenticate-wrong (accounts_in_memory env svc) login wrong user m w on
              (find_user-stored env svc login user w.db wf.users stored named) unlocked refused
              (ap (λ p. p.0) saved)
            ∙ ap
                (λ p. (
                  err (account AccountError.invalid_credentials),
                  record w { db = p.1; ticks = suc w.ticks },
                ))
                saved,
        authenticate-locked (accounts_in_memory env svc) login password locked (locking d user w)
            (find_user-put env svc login user locked w.db wf stored refl refl named) (ground arith),
      )
