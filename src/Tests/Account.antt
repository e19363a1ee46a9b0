-- ===== src/Tests/Account.antt =====
-- Logins at the sample server.
use go_identity.Common.{◌+◌, ◌≡◌, refl, false, arith, ne_of_test, [], ◌∷◌, ◌++◌, none, some}
use go_identity.Failure.{AccountError, ok, err, account}
use go_identity.Effect.{World, time, ◌>>=◌, now, map_error, refuse_if, when}
use go_identity.Identity.User.{User, is_locked_out, normalize_username, normalize_email}
use go_identity.Account.Service.{find_user, can_sign_in}
use go_identity.Account.Authenticate.{authenticate, record_login, accept_password, refuse_password}
use go_identity.Account.Authenticate.Sound.{IsAdmitted, logged_in_at, authenticate_sound}
use go_identity.Account.Authenticate.Lockout.{failures, lockout_at_max}
use go_identity.Account.Authenticate.Locked.{locking, authenticate_locks}
use go_identity.Memory.State.{Memory, new}
use go_identity.Memory.Table.{get}
use go_identity.Memory.Invariant.Reachable.{adds_user, apply_all, apply_all-IsWellFormed}
use go_identity.Memory.Users.{
  get_user_by_normalized_username, get_user_by_normalized_email, update_user,
}
use go_identity.Tests.Samples.{env, options, accounts, alice, fresh_code, stored, world}

abbrev start : World Memory
start = world fresh_code

abbrev logged_in : User
logged_in = record alice { last_login_at = some 2_000_000; updated_at = 2_000_000 }

abbrev after_login : World Memory
after_login = record start {
  db = record (stored fresh_code) { users = ("user-1", logged_in) ∷ [] };
  ticks = 1;
}

login_runs : authenticate accounts "alice" "correct horse" start ≡ (ok logged_in, after_login)
unfolding authenticate accept_password refuse_password record_login ◌>>=◌ now map_error refuse_if
    when find_user can_sign_in is_locked_out normalize_username normalize_email
    get_user_by_normalized_username get_user_by_normalized_email update_user
login_runs = refl

authenticate_sound_example :
    (user : User) × IsAdmitted accounts start "alice" "correct horse" user
    × (logged_in ≡ logged_in_at (time env start) user)
    × (after_login.db ≡ (accounts.store.update_user logged_in start.db).1)
authenticate_sound_example =
    authenticate_sound accounts "alice" "correct horse" logged_in start after_login login_runs

lockout_at_max_example :
    ((failures options (1 ∷ 2 ∷ []) alice).lockout_end ≡ none)
    × ((failures options (1 ∷ 2 ∷ []) alice).failed_login_count ≡ 2)
    × ((failures options ((1 ∷ 2 ∷ []) ++ 3 ∷ []) alice).lockout_end ≡ some (3 + 900_000_000_000))
    × ((failures options ((1 ∷ 2 ∷ []) ++ 3 ∷ []) alice).failed_login_count ≡ 0)
lockout_at_max_example =
    lockout_at_max options 2 900_000_000_000 3 (1 ∷ 2 ∷ []) alice refl refl refl refl

-- The user after two wrong passwords, in a store that was filled by writes.
abbrev failing : User
failing = record alice { failed_login_count = 2 }

abbrev failing_world : World Memory
failing_world = record start { db = apply_all (adds_user failing ∷ []) new }

failing_stored : get "user-1" failing_world.db.users ≡ some failing
unfolding get apply_all go_identity.Memory.Users.create_user go_identity.Memory.Users.user_taken
failing_stored = refl

failing_named : "alice" ≡ normalize_username env "alice"
unfolding normalize_username
failing_named = refl

failing_unlocked : is_locked_out failing (time env failing_world) ≡ false
unfolding is_locked_out
failing_unlocked = refl

authenticate_locks_example :
    (authenticate accounts "alice" "wrong" failing_world ≡ (
      err (account AccountError.invalid_credentials),
      locking env accounts 900_000_000_000 failing failing_world,
    ))
    × (authenticate accounts "alice" "correct horse"
          (locking env accounts 900_000_000_000 failing failing_world)
        ≡ (
          err (account AccountError.locked_out),
          record (locking env accounts 900_000_000_000 failing failing_world) { ticks = 2 },
        ))
authenticate_locks_example =
    authenticate_locks env accounts "alice" "wrong" "correct horse" failing 2 900_000_000_000
      failing_world refl refl
      (apply_all-IsWellFormed (adds_user failing ∷ []) (ne_of_test "user-1" "" refl, tt))
      failing_stored failing_named failing_unlocked refl refl (omega arith)
