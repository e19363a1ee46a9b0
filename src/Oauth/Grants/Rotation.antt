-- ===== src/Oauth/Grants/Rotation.antt =====
-- What becomes of a refresh token that was exchanged.
use go_identity.Common.{
  ℕ, String, ◌≡◌, refl, ◌≢◌, ap, ◌∙◌, subst, ◌⊎◌, inl, inr, Bool, true, false, ◌==◌, arith,
  Bool-cases, eq_of_test, ne_of_test, if◌then◌else◌,
}
use go_identity.Failure.{Error, ok, store}
use go_identity.Effect.{World, ◌>>=◌, write}
use go_identity.Effect.Inversion.{>>=-eq-ok, write-then, recover_failing-then, pure-eq, pair-eq}
use go_identity.Security.{hash_token, new_id, new_token}
use go_identity.Security.Draws.{new_id-db, new_token-db}
use go_identity.Identity.Token.{AccessToken, RefreshToken, touch, refresh_token_usage_onetime}
use go_identity.Oauth.Server.{Server}
use go_identity.Oauth.Tokens.{TokenResponse, rotated_expires_at, store_refresh_token}
use go_identity.Oauth.Grants.{rotate, reuse, rotation_failed}

module _ {S : Type 0} (srv : Server S) where
  -- The token that replaces another one.
  abbrev pub successor : RefreshToken → AccessToken → String → String → ℕ → RefreshToken
  successor token issued id value t = record token {
    id = id;
    token_hash = hash_token srv.env value;
    access_token_id = issued.id;
    created_at = t;
    updated_at = t;
    expires_at = rotated_expires_at token t;
  }

  -- The token was deleted from the store and replaced by one that differs in its identifier, its
  -- value, its access token and its times.
  pub record IsRotated (token : RefreshToken) (issued : AccessToken) (value : String) (t : ℕ)
      (s s' : S) : Type 0 where
    pub deleted : (srv.store.delete_refresh_token token.id s).0 ≡ ok tt
    pub id : String
    pub created :
        srv.store.create_refresh_token
          (successor token issued id value t)
          (srv.store.delete_refresh_token token.id s).1
        ≡ (ok tt, s')

  -- A one-time token is replaced; another one is updated with the time of its use.
  abbrev pub IsSpent : RefreshToken → AccessToken → String → ℕ → S → S → Type 0
  IsSpent token issued value t s s' =
      ((token.token_usage ≡ refresh_token_usage_onetime) × IsRotated token issued value t s s')
      ⊎ ((token.token_usage ≢ refresh_token_usage_onetime)
          × (srv.store.update_refresh_token (touch (record token { access_token_id = issued.id }) t)
                s
              ≡ (ok tt, s')))

  rotation_failed-fails :
      (issued : AccessToken) (e : Error) (w : World S) → (rotation_failed srv issued e w).0 ≢ ok tt
  unfolding ◌>>=◌
  rotation_failed-fails issued (store e) w h = ground arith
  rotation_failed-fails issued _ w h = cc

  store_refresh_token-ok :
      (token : RefreshToken) (w : World S) {value : String} {w' : World S}
      → store_refresh_token srv token w ≡ (ok value, w')
      → srv.store.create_refresh_token (record token { token_hash = hash_token srv.env value }) w.db
        ≡ (ok tt, w'.db)
  unfolding store_refresh_token
  store_refresh_token-ok token w {value = value} {w' = w'} h =
      let (drawn, v, p, h₁) = >>=-eq-ok (new_token srv.env) _ w h in
      let (u, took, h₂) = write-then _ _ v h₁ in
      let (same, stays) = pure-eq _ _ h₂ in
      subst
        (λ y.
          srv.store.create_refresh_token (record token { token_hash = hash_token srv.env y }) w.db
          ≡ (ok tt, w'.db))
        same
        (subst
          (λ d.
            srv.store.create_refresh_token (record token { token_hash = hash_token srv.env drawn })
              d
            ≡ (ok tt, w'.db))
          (new_token-db srv.env w v p) (pair-eq _ took (ap (λ (z : World S). z.db) stays)))

  rotate-IsRotated :
      (token : RefreshToken) (issued : AccessToken) (response x : TokenResponse) (t : ℕ)
      (w w' : World S)
      → rotate srv token issued response t w ≡ (ok x, w')
      → IsRotated token issued x.refresh_token t w.db w'.db
  unfolding rotate write
  rotate-IsRotated token issued response x t w w' h =
      let (deleted, h₁) =
        recover_failing-then _ _ _ w (λ e v. rotation_failed-fails issued e v) h in
      let (id, w₂, q, h₂) = >>=-eq-ok (new_id srv.env) _ _ h₁ in
      let (value, w₃, r, h₃) = >>=-eq-ok _ _ w₂ h₂ in
      let (same, stays) = pure-eq _ w₃ h₃ in
      record {
        deleted = deleted;
        id = id;
        created =
            subst
              (λ (d : S).
                srv.store.create_refresh_token (successor token issued id x.refresh_token t) d
                ≡ (ok tt, w'.db))
              (new_id-db srv.env _ w₂ q)
              (subst
                (λ (y : String).
                  srv.store.create_refresh_token (successor token issued id y t) w₂.db
                  ≡ (ok tt, w'.db))
                (ap (λ (y : TokenResponse). y.refresh_token) same)
                (store_refresh_token-ok _ w₂ r ∙ ap (λ (z : World S). (ok tt, z.db)) stays));
      }

  reuse-ok :
      (token : RefreshToken) (issued : AccessToken) (response x : TokenResponse) (t : ℕ)
      (w w' : World S)
      → reuse srv token issued response t w ≡ (ok x, w')
      → srv.store.update_refresh_token (touch (record token { access_token_id = issued.id }) t) w.db
        ≡ (ok tt, w'.db)
  unfolding reuse
  reuse-ok token issued response x t w w' h =
      let (u, took, h₁) = write-then _ _ w h in
      let (same, stays) = pure-eq _ _ h₁ in pair-eq _ took (ap (λ (z : World S). z.db) stays)

  pub renewed-IsSpent :
      (token : RefreshToken) (issued : AccessToken) (response x : TokenResponse) (t : ℕ)
      (w w' : World S)
      → (if token.token_usage == refresh_token_usage_onetime
            then rotate srv token issued response t
            else reuse srv token issued response t)
          w
        ≡ (ok x, w')
      → IsSpent token issued x.refresh_token t w.db w'.db
  renewed-IsSpent token issued response x t w w' h =
      elim (Bool-cases (token.token_usage == refresh_token_usage_onetime)) [
        | inl e ↦
            inl (eq_of_test _ _ e, rotate-IsRotated token issued response x t w w' (rw e at h))
        | inr e ↦ inr (ne_of_test _ _ e, reuse-ok token issued response x t w w' (rw e at h))
      ]

  -- But for the refresh token, the response is the one of the access token.
  rotate-kept :
      (token : RefreshToken) (access : AccessToken) (response x : TokenResponse) (t : ℕ)
      (w w' : World S)
      → rotate srv token access response t w ≡ (ok x, w')
      → x ≡ record response { refresh_token = x.refresh_token }
  unfolding rotate
  rotate-kept token access response x t w w' h =
      let (u, w₁, p, h₁) = >>=-eq-ok _ _ w h in
      let (id, w₂, q, h₂) = >>=-eq-ok _ _ w₁ h₁ in
      let (value, w₃, r, h₃) = >>=-eq-ok _ _ w₂ h₂ in
      let (same, stays) = pure-eq _ w₃ h₃ in
      subst (λ y. y ≡ record response { refresh_token = y.refresh_token }) same refl

  reuse-kept :
      (token : RefreshToken) (access : AccessToken) (response x : TokenResponse) (t : ℕ)
      (w w' : World S)
      → reuse srv token access response t w ≡ (ok x, w')
      → x ≡ record response { refresh_token = x.refresh_token }
  unfolding reuse
  reuse-kept token access response x t w w' h =
      let (u, p, h₁) = write-then _ _ w h in
      let (same, stays) = pure-eq _ _ h₁ in
      subst (λ y. y ≡ record response { refresh_token = y.refresh_token }) same refl

  pub renewed-kept :
      (onetime : Bool) (token : RefreshToken) (access : AccessToken) (response x : TokenResponse)
      (t : ℕ) (w w' : World S)
      → (if onetime then rotate srv token access response t else reuse srv token access response t)
          w
        ≡ (ok x, w')
      → x ≡ record response { refresh_token = x.refresh_token }
  renewed-kept true = rotate-kept
  renewed-kept false = reuse-kept
