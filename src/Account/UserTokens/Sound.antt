-- ===== src/Account/UserTokens/Sound.antt =====
-- Which tokens of mails are accepted.
use go_identity.Common.{suc, String, ◌≡◌, ◌≢◌, sym, ap, ◌∙◌, false, ne_of_test}
use go_identity.Failure.{ok}
use go_identity.Effect.{World, time}
use go_identity.Effect.Inversion.{read-then, map_error-then, refuse_if-then, now-then, pure-eq}
use go_identity.Security.{hash_token}
use go_identity.Identity.Token.{UserToken, user_token_has_expired}
use go_identity.Identity.User.{User}
use go_identity.Account.Service.{Service}
use go_identity.Account.UserTokens.{lookup_user_token}

module _ {S : Type 0} (svc : Service S) where
  -- A token value that proves, for a purpose, to be sent to a user.
  pub record IsSentTo (purpose value : String) (w : World S) (token : UserToken) (user : User)
      : Type 0 where
    pub given : value ≢ ""
    pub stored : svc.store.get_user_token_by_hash purpose (hash_token svc.env value) w.db ≡ ok token
    pub alive : user_token_has_expired token (time svc.env w) ≡ false
    pub known : svc.store.get_user_by_id token.user_id w.db ≡ ok user

  pub lookup_user_token-ok :
      (purpose value : String) (w : World S) (token : UserToken) (user : User) (w' : World S)
      → lookup_user_token svc purpose value w ≡ (ok (token, user), w')
      → IsSentTo purpose value w token user × (w' ≡ record w { ticks = suc w.ticks })
  unfolding lookup_user_token
  lookup_user_token-ok purpose value w token user w' h =
      let (given, h₁) = refuse_if-then _ _ _ w h in
      let (token₁, stored, h₂) = read-then _ _ _ (map_error-then _ _ _ _ h₁) in
      let h₃ = now-then svc.env _ w h₂ in
      let (alive, h₄) = refuse_if-then _ _ _ _ h₃ in
      let (user₁, known, h₅) = read-then _ _ _ (map_error-then _ _ _ _ h₄) in
      let (same, stays) = pure-eq _ _ h₅ in
      let same_token : token₁ ≡ token = ap (λ p. p.0) same in
      (
        record {
          given = ne_of_test value "" given;
          stored = stored ∙ ap ok same_token;
          alive = ap (λ t. user_token_has_expired t (time svc.env w)) (sym same_token) ∙ alive;
          known =
              ap (λ (t : UserToken). svc.store.get_user_by_id t.user_id w.db) (sym same_token)
              ∙ known
              ∙ ap (λ p. ok p.1) same;
        },
        sym stays,
      )
