-- ===== src/Account/Password/Reset.antt =====
-- Who may reset a password.
use go_identity.Common.{suc, String, ◌≡◌, sym, ap, ◌∙◌, true, not-false, subst}
use go_identity.Failure.{ok}
use go_identity.Effect.{World}
use go_identity.Effect.Inversion.{>>=-eq-ok, lift-then, write-then, refuse_if-then, pure-eq}
use go_identity.Identity.Token.{UserToken, user_token_purpose_password_reset}
use go_identity.Identity.User.{User}
use go_identity.Account.Service.{Service}
use go_identity.Account.UserTokens.{lookup_user_token}
use go_identity.Account.UserTokens.Sound.{IsSentTo, lookup_user_token-ok}
use go_identity.Account.Password.{change_password, reset_password}
use go_identity.Account.Password.Change.{IsChanged, change_password_ok}

module _ {S : Type 0} (svc : Service S) where
  -- A reset that is allowed: by a token that was sent to an enabled user, whose password and address
  -- are confirmed by it and whose other reset tokens are deleted.
  pub record IsReset (value password : String) (w : World S) (saved : User) (w' : World S)
      : Type 0 where
    pub token : UserToken
    pub user : User
    pub sent : IsSentTo svc user_token_purpose_password_reset value w token user
    pub enabled : user.enabled ≡ true
    pub between : World S
    pub changed :
        IsChanged svc
          (record user { email_verified = true })
          password
          (record w { ticks = suc w.ticks })
          saved
          between
    pub spent :
        w'.db
        ≡ (svc.store.delete_user_tokens saved.id user_token_purpose_password_reset between.db).1

  -- A password is reset only with the value of a stored and unexpired token of the purpose
  -- password_reset, for the enabled user of that token. The password satisfies the rules, the user is
  -- saved with its hash, a new stamp, the lock lifted and the address verified, and the tokens of the
  -- user and the reset tokens are deleted.
  pub reset_password_sound :
      (value password : String) (w : World S) (saved : User) (w' : World S)
      → reset_password svc value password w ≡ (ok saved, w')
      → IsReset value password w saved w'
  unfolding reset_password
  reset_password_sound value password w saved w' h =
      let (u, valid, h₁) = lift-then _ _ w h in
      let ((token, user), v₁, p₁, h₂) =
        >>=-eq-ok (lookup_user_token svc user_token_purpose_password_reset value) _ w h₁ in
      let (sent, ticked) = lookup_user_token-ok svc _ value w token user v₁ p₁ in
      let (enabled, h₃) = refuse_if-then _ _ _ _ h₂ in
      let (saved₁, v₂, p₂, h₄) =
        >>=-eq-ok (change_password svc (record user { email_verified = true }) password) _ v₁ h₃ in
      let (n, deleted, h₅) = write-then _ _ _ h₄ in
      let (same, stays) = pure-eq _ _ h₅ in
      let verified : User = record user { email_verified = true } in
      record {
        token = token;
        user = user;
        sent = sent;
        enabled = not-false _ enabled;
        between = v₂;
        changed =
            subst (λ v. IsChanged svc verified password v saved v₂) ticked
              (subst (λ x. IsChanged svc verified password v₁ x v₂) same
                (change_password_ok svc verified password v₁ saved₁ v₂ p₂));
        spent =
            ap (λ v. v.db) (sym stays)
            ∙ ap
                (λ (x : User).
                  (svc.store.delete_user_tokens x.id user_token_purpose_password_reset v₂.db).1)
                same;
      }
