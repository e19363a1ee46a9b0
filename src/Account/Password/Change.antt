-- ===== src/Account/Password/Change.antt =====
-- What a change of the password does to the store.
use go_identity.Common.{ℕ, suc, String, ◌≡◌, sym, ap, ◌∙◌, subst, none}
use go_identity.Failure.{ok}
use go_identity.Effect.{World, time}
use go_identity.Effect.Inversion.{>>=-eq-ok, lift-then, write-then, now-then, pure-eq}
use go_identity.Security.{base64_encode, new_token, hash_secret}
use go_identity.Security.Draws.{new_token-db, hash_secret-db, new_token-ok, hash_secret-ok}
use go_identity.Identity.User.{User}
use go_identity.Store.{TokenFilter, no_filter}
use go_identity.Account.Service.{Service, validate_password}
use go_identity.Account.Users.{revoke_tokens}
use go_identity.Account.Password.{change_password}

-- The tokens of a user.
abbrev pub of_user : String → TokenFilter
of_user user_id = record no_filter { user_id = user_id }

-- A user with a new password hash and security stamp, whose lock is lifted.
abbrev pub with_password : User → String → String → ℕ → User
with_password user hash stamp t = record user {
  password_hash = hash;
  security_stamp = stamp;
  failed_login_count = 0;
  lockout_end = none;
  updated_at = t;
}

module _ {S : Type 0} (svc : Service S) where
  -- The store after the tokens of a user were deleted.
  abbrev pub without_tokens : String → S → S
  without_tokens user_id s =
      (svc.store.delete_access_tokens (of_user user_id)
        (svc.store.delete_refresh_tokens (of_user user_id) s).1).1

  pub revoke_tokens-ok :
      (user_id : String) (w w' : World S)
      → revoke_tokens svc user_id w ≡ (ok tt, w')
      → w'.db ≡ without_tokens user_id w.db
  unfolding revoke_tokens
  revoke_tokens-ok user_id w w' h =
      let (n, refresh, h₁) = write-then _ _ w h in
      let (k, access, h₂) = write-then _ _ _ h₁ in
      let (same, stays) = pure-eq _ _ h₂ in ap (λ v. v.db) (sym stays)

  -- What a password was replaced by, and the store afterwards.
  pub record IsChanged (user : User) (password : String) (w : World S) (saved : User) (w' : World S)
      : Type 0 where
    pub valid : validate_password svc password ≡ ok tt
    pub hashed : svc.hasher.hash w.drawn password ≡ ok saved.password_hash
    pub stamped : saved.security_stamp ≡ base64_encode (svc.env.entropy (suc w.drawn) 32)
    pub fields :
        saved ≡ with_password user saved.password_hash saved.security_stamp (time svc.env w)
    pub updated : (svc.store.update_user saved w.db).0 ≡ ok tt
    pub swept : w'.db ≡ without_tokens user.id (svc.store.update_user saved w.db).1

  pub change_password_ok :
      (user : User) (password : String) (w : World S) (saved : User) (w' : World S)
      → change_password svc user password w ≡ (ok saved, w')
      → IsChanged user password w saved w'
  unfolding change_password hash_secret
  change_password_ok user password w saved w' h =
      let (u, valid, h₁) = lift-then _ _ w h in
      let (hash, v₁, p₁, h₂) = >>=-eq-ok (hash_secret svc.hasher password) _ w h₁ in
      let (stamp, v₂, p₂, h₃) = >>=-eq-ok (new_token svc.env) _ v₁ h₂ in
      let (hashed, drawn) = hash_secret-ok svc.hasher password w v₁ p₁ in
      let (stamped, drawn_again) = new_token-ok svc.env v₁ v₂ p₂ in
      let twice : record w { drawn = suc (suc w.drawn) } ≡ v₂ =
        ap (λ (v : World S). record v { drawn = suc v.drawn }) drawn ∙ drawn_again in
      let h₄ = now-then svc.env _ v₂ h₃ in
      let (u', updated, h₅) = write-then _ _ _ h₄ in
      let (u'', v₃, p₃, h₆) = >>=-eq-ok (revoke_tokens svc user.id) _ _ h₅ in
      let (same, stays) = pure-eq _ _ h₆ in
      let db : v₂.db ≡ w.db =
        new_token-db svc.env v₁ v₂ p₂ ∙ hash_secret-db svc.hasher password w v₁ p₁ in
      let made : (svc.store.update_user (with_password user hash stamp (time svc.env v₂)) v₂.db)
          ≡ svc.store.update_user saved w.db =
        ap (λ d. svc.store.update_user (with_password user hash stamp (time svc.env v₂)) d) db
        ∙ ap (λ x. svc.store.update_user x w.db) same in
      record {
        valid = valid;
        hashed = hashed ∙ ap (λ x. ok x.password_hash) same;
        stamped = sym (
            subst
              (λ (v : World S). base64_encode (svc.env.entropy v.drawn 32) ≡ saved.security_stamp)
              (sym drawn) (stamped ∙ ap (λ x. x.security_stamp) same));
        fields =
            subst (λ x. x ≡ with_password user x.password_hash x.security_stamp (time svc.env w))
              same
              (ap (λ (v : World S). with_password user hash stamp (time svc.env v)) (sym twice));
        updated = ap (λ r. r.0) (sym made) ∙ updated;
        swept =
            ap (λ v. v.db) (sym stays)
            ∙ revoke_tokens-ok user.id _ v₃ p₃
            ∙ ap (λ r. without_tokens user.id r.1) made;
      }
