-- ===== src/Account/Authenticate/Sound.antt =====
-- Who logs in.
use go_identity.Common.{
  ℕ, String, ◌≡◌, refl, ◌≢◌, inl, inr, true, false, ◌||◌, arith, ◌==◌, not, Bool-cases, ne_of_test,
  ◌∙◌, ap, sym, none, some,
}
use go_identity.Failure.{ok}
use go_identity.Effect.{World, ◌>>=◌, time}
use go_identity.Effect.Inversion.{
  read-then, write-then, map_error-then, refuse_if-then, now-then, pure-eq,
}
use go_identity.Identity.User.{User, is_locked_out}
use go_identity.Account.Service.{Service, verifies, find_user, can_sign_in}
use go_identity.Account.Authenticate.{authenticate, accept_password, refuse_password, record_login}

-- A user after a login at a time: no failures, no lock, and the time of the login.
abbrev pub logged_in_at : ℕ → User → User
logged_in_at t user = record user {
  failed_login_count = 0;
  lockout_end = none;
  last_login_at = some t;
  updated_at = t;
}

record_login_lem : (t : ℕ) (user : User) → record_login t user ≡ logged_in_at t user
unfolding record_login
record_login_lem t user = refl

module _ {S : Type 0} (svc : Service S) where
  -- The user whom a login names, with a password that verifies and an account that is open at the
  -- time of the login.
  pub record IsAdmitted (w : World S) (login password : String) (user : User) : Type 0 where
    pub known : find_user svc login w.db ≡ ok user
    pub unlocked : is_locked_out user (time svc.env w) ≡ false
    pub has_password : user.password_hash ≢ ""
    pub verified : verifies svc.hasher user.password_hash password ≡ true
    pub active : can_sign_in svc user ≡ ok tt
    pub saved : (svc.store.update_user (logged_in_at (time svc.env w) user) w.db).0 ≡ ok tt

  refuse_password-fails :
      (user : User) (t : ℕ) (w : World S) {a : User} → (refuse_password svc user t w).0 ≢ ok a
  unfolding refuse_password ◌>>=◌
  refuse_password-fails user t w h = ground arith

  accept_password_sound :
      (user : User) (t : ℕ) (w w' : World S) (a : User)
      → accept_password svc user t w ≡ (ok a, w')
      → (can_sign_in svc user ≡ ok tt)
        × ((svc.store.update_user (record_login t user) w.db).0 ≡ ok tt)
        × (record_login t user ≡ a)
        × (record w { db = (svc.store.update_user (record_login t user) w.db).1 } ≡ w')
  unfolding accept_password can_sign_in
  accept_password_sound user t w w' a h =
      let (enabled, h₁) = refuse_if-then _ _ _ w h in
      let (verified, h₂) = refuse_if-then _ _ _ w h₁ in
      let (u, saved, h₃) = write-then _ _ w h₂ in
      let (same, stays) = pure-eq _ _ h₃ in (rw (enabled, verified) refl, saved, same, stays)

  -- A login succeeds only for the user whom it names, whose account is not locked, enabled and, if
  -- the server requires it, activated, with the password that verifies against a hash that is set;
  -- the user is saved and returned with no failures, no lock, the time of the login, and otherwise
  -- as before.
  pub authenticate_sound :
      (login password : String) (logged_in : User) (w w' : World S)
      → authenticate svc login password w ≡ (ok logged_in, w')
      → (user : User) × IsAdmitted w login password user
        × (logged_in ≡ logged_in_at (time svc.env w) user)
        × (w'.db ≡ (svc.store.update_user logged_in w.db).1)
  unfolding authenticate
  authenticate_sound login password logged_in w w' h =
      let h₁ = now-then svc.env _ w h in
      let (user, known, h₂) = read-then _ _ _ (map_error-then _ _ _ _ h₁) in
      let (unlocked, h₃) = refuse_if-then _ _ _ _ h₂ in
      elim (Bool-cases
        (user.password_hash == "" || not (verifies svc.hasher user.password_hash password))) [
          | inl e ↦ absurd (refuse_password-fails user _ _ (ap (λ r. r.0) (rw e at h₃)))
          | inr e ↦
              let (active, saved, same, stays) =
                accept_password_sound user _ _ w' logged_in (rw e at h₃) in
              (
                user,
                record {
                  known = known;
                  unlocked = unlocked;
                  has_password = ne_of_test user.password_hash "" (ground (arith, e));
                  verified = ground (arith, e);
                  active = active;
                  saved =
                      ap (λ u. (svc.store.update_user u w.db).0)
                        (sym (record_login_lem (time svc.env w) user))
                      ∙ saved;
                },
                sym same ∙ record_login_lem (time svc.env w) user,
                ap (λ v. v.db) (sym stays) ∙ ap (λ u. (svc.store.update_user u w.db).1) same,
              )
        ]
