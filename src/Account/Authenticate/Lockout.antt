-- ===== src/Account/Authenticate/Lockout.antt =====
-- How many wrong passwords lock an account.
use go_identity.Common.{
  ℕ, suc, ◌+◌, ◌<◌, ◌≡◌, refl, ◌∙◌, some, List, [], ◌∷◌, ◌++◌, length, arith, pos,
}
use go_identity.Identity.User.{User}
use go_identity.Account.Service.{Options}
use go_identity.Account.Authenticate.{count_failure}

-- A row of failed attempts, at the given times.
pub failures : Options → List ℕ → User → User
failures opts [] user = user
failures opts (t ∷ ts) user = failures opts ts (count_failure opts t user)

failures-append :
    (opts : Options) (ts us : List ℕ) (user : User)
    → failures opts (ts ++ us) user ≡ failures opts us (failures opts ts user)
unfolding failures
failures-append opts [] us user = refl
failures-append opts (t ∷ ts) us user = failures-append opts ts us (count_failure opts t user)

module _ (opts : Options) (m : ℕ) (on : opts.max_failed_attempts ≡ pos m) where
  count_failure_below :
      (t : ℕ) (user : User)
      → suc user.failed_login_count < m
      → ((count_failure opts t user).failed_login_count ≡ suc user.failed_login_count)
        × ((count_failure opts t user).lockout_end ≡ user.lockout_end)
  unfolding count_failure
  count_failure_below t user h = rw on (ground arith, ground arith)

  failures_below :
      (ts : List ℕ) (user : User)
      → user.failed_login_count + length ts < m
      → ((failures opts ts user).failed_login_count ≡ user.failed_login_count + length ts)
        × ((failures opts ts user).lockout_end ≡ user.lockout_end)
  unfolding failures
  failures_below [] user h = (omega arith, refl)
  failures_below (t ∷ ts) user h =
      let one = count_failure_below t user (omega arith) in
      let more = failures_below ts (count_failure opts t user) (omega (arith, one.0)) in
      (omega (arith, one.0, more.0), more.1 ∙ one.1)

  count_failure_last :
      (t d : ℕ) (user : User)
      → opts.lockout_duration ≡ pos d
      → suc user.failed_login_count ≡ m
      → ((count_failure opts t user).failed_login_count ≡ 0)
        × ((count_failure opts t user).lockout_end ≡ some (t + d))
  unfolding count_failure
  count_failure_last t d user dur h = rw (on, dur) (ground arith, ground arith)

-- With a limit of `m + 1` failed attempts, an account without failures is not locked by `m` wrong
-- passwords, which are counted; the next one, at time `t`, locks it for the lockout duration and
-- sets the count back to zero.
pub lockout_at_max :
    (opts : Options) (m d t : ℕ) (ts : List ℕ) (user : User)
    → opts.max_failed_attempts ≡ pos (suc m)
    → opts.lockout_duration ≡ pos d
    → user.failed_login_count ≡ 0
    → length ts ≡ m
    → ((failures opts ts user).lockout_end ≡ user.lockout_end)
      × ((failures opts ts user).failed_login_count ≡ m)
      × ((failures opts (ts ++ t ∷ []) user).lockout_end ≡ some (t + d))
      × ((failures opts (ts ++ t ∷ []) user).failed_login_count ≡ 0)
unfolding failures
lockout_at_max opts m d t ts user on dur none_yet row =
    let below = failures_below opts (suc m) on ts user (omega arith) in
    let last =
      count_failure_last opts (suc m) on t d (failures opts ts user) dur (omega (arith, below.0)) in
    rw failures-append (below.1, omega (arith, below.0), last.1, last.0)
