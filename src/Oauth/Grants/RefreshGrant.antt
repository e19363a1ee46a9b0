-- ===== src/Oauth/Grants/RefreshGrant.antt =====
-- When a refresh token is exchanged.
use go_identity.Common.{
  ℕ, ◌<◌, String, ◌≡◌, refl, sym, ap, subst, ◌⊎◌, inl, inr, true, false, ◌&&◌, List, Option, none,
  some, arith, ◌==◌, ◌!=◌, not, eq_of_not_ne, not-false, Bool-cases, eq_of_test, if◌then◌else◌,
}
use go_identity.Failure.{ok}
use go_identity.Effect.{World, time}
use go_identity.Effect.Inversion.{
  >>=-eq-ok, lift-then, read-then, map_error-then, refuse_if-then, now-then, pure-eq,
}
use go_identity.Security.{hash_token}
use go_identity.Identity.Client.{Client, validate_scopes}
use go_identity.Identity.Scope.{parse_scope, format_scope}
use go_identity.Identity.Token.{
  AccessToken, RefreshToken, refresh_token_has_expired, refresh_token_validate_scopes,
}
use go_identity.Identity.User.{User}
use go_identity.Account.Service.{can_sign_in}
use go_identity.Oauth.Params.{param, required_param}
use go_identity.Oauth.Server.{Server}
use go_identity.Oauth.Tokens.{TokenResponse, user_id_of, new_response, lookup_user}
use go_identity.Oauth.Lookup.{lookup_user_lem}
use go_identity.Oauth.Issued.{IsIssued, create_access_token-IsIssued}
use go_identity.Oauth.Grants.Rotation.{IsSpent, renewed-kept, renewed-IsSpent}
use go_identity.Oauth.Grants.{
  TokenRequest, refreshed_scopes, refreshed_user, renew, refresh_token_grant,
}

module _ {S : Type 0} (srv : Server S) where
  refresh_not_expired :
      (token : RefreshToken) (t : ℕ)
      → refresh_token_has_expired token t ≡ false
      → t < token.expires_at
  unfolding refresh_token_has_expired
  refresh_not_expired token t h = ground arith

  chosen_scopes_within :
      (token : RefreshToken) (scope : String)
      → (scope != ""
          && not (
              refresh_token_validate_scopes token
                (if scope != "" then parse_scope scope else token.scopes)))
        ≡ false
      → ((scope ≡ "") × ((if scope != "" then parse_scope scope else token.scopes) ≡ token.scopes))
        ⊎ (((if scope != "" then parse_scope scope else token.scopes) ≡ parse_scope scope)
            × (refresh_token_validate_scopes token
                  (if scope != "" then parse_scope scope else token.scopes)
                ≡ true))
  chosen_scopes_within token scope h = elim (Bool-cases (scope == "")) [
    | inl e ↦ inl (eq_of_test scope "" e, rw e refl)
    | inr e ↦ inr (rw e refl, ground arith)
  ]

  refreshed_scopes_lem :
      (client : Client) (token : RefreshToken) (scope : String) (w : World S) {scopes : List String}
      {w' : World S}
      → refreshed_scopes srv client token scope w ≡ (ok scopes, w')
      → (((scope ≡ "") × (scopes ≡ token.scopes))
          ⊎ ((scopes ≡ parse_scope scope) × (refresh_token_validate_scopes token scopes ≡ true)))
        × (validate_scopes client scopes ≡ true)
        × (w ≡ w')
  unfolding refreshed_scopes
  refreshed_scopes_lem client token scope w h =
      let (syntax, h₁) = refuse_if-then _ _ _ w h in
      let (within, h₂) = refuse_if-then _ _ _ w h₁ in
      let (allowed, h₃) = refuse_if-then _ _ _ w h₂ in
      let (same, stays) = pure-eq _ w h₃ in
      (
        rw (← same) (chosen_scopes_within token scope within),
        rw (← same) (not-false _ allowed),
        stays,
      )

  -- The user of the refresh token, if it has one, is in the store and may sign in, and has this
  -- identifier.
  pub IsOwned : S → RefreshToken → String → Type 0
  IsOwned db token user_id =
      ((token.user_id ≡ "") × (user_id ≡ ""))
      ⊎ ((u : User) × (srv.store.get_user_by_id token.user_id db ≡ ok u)
          × (can_sign_in srv.accounts u ≡ ok tt)
          × (user_id ≡ u.id))

  refreshed_user-IsOwned :
      (token : RefreshToken) (w : World S) {user : Option User} {w' : World S}
      → refreshed_user srv token w ≡ (ok user, w')
      → IsOwned w.db token (user_id_of user)
  unfolding IsOwned refreshed_user
  refreshed_user-IsOwned token w {user = user} {w' = w'} h =
      elim (Bool-cases (token.user_id == "")) [
        | inl e ↦
            let (same, stays) = pure-eq {A = Option User} none w (rw e at h) in
            inl (eq_of_test token.user_id "" e, ap user_id_of (sym same))
        | inr e ↦
            let (u, v, looked_up, h₁) = >>=-eq-ok (lookup_user srv token.user_id) _ w (rw e at h) in
            let (found, active, unchanged) = lookup_user_lem srv token.user_id w looked_up in
            let (same, stays) = pure-eq (some u) v h₁ in
            inr (u, found, active, ap user_id_of (sym same))
      ]

  -- What a renewal at time `t` has found in the store `db`, the access token that it has issued, and
  -- what has become of the refresh token in the store `db'` that it leaves.
  pub record IsRenewed (db : S) (client : Client) (token : RefreshToken) (scope : String) (t : ℕ)
      (x : TokenResponse) (db' : S) : Type 0 where
    pub scopes : List String
    pub within_grant :
        ((scope ≡ "") × (scopes ≡ token.scopes))
        ⊎ ((scopes ≡ parse_scope scope) × (refresh_token_validate_scopes token scopes ≡ true))
    pub allowed : validate_scopes client scopes ≡ true
    pub issued : AccessToken
    pub user_id : String
    pub after : S
    pub created :
        IsIssued srv client user_id scopes token.authorization_code_id
          (issued, x.access_token)
          after
    pub spent : IsSpent srv token issued x.refresh_token t after db'
    pub responded : x.scope ≡ format_scope scopes
    pub owned : IsOwned db token user_id

  renew-IsRenewed :
      (client : Client) (token : RefreshToken) (scope : String) (t : ℕ) (w : World S)
      (x : TokenResponse) (w' : World S)
      → renew srv client token scope t w ≡ (ok x, w')
      → IsRenewed w.db client token scope t x w'.db
  unfolding renew
  renew-IsRenewed client token scope t w x w' h =
      let (scopes, w₁, r, h₁) = >>=-eq-ok (refreshed_scopes srv client token scope) _ w h in
      let (within, allowed, same) = refreshed_scopes_lem client token scope w r in
      let (user, w₂, u, h₂) = >>=-eq-ok (refreshed_user srv token) _ w₁ h₁ in
      let (deleted, w₃, d, h₃) = >>=-eq-ok _ _ w₂ h₂ in
      let (created, w₄, c, h₄) = >>=-eq-ok _ _ w₃ h₃ in
      let kept : x
          ≡ record (new_response created.0 created.1 scopes) { refresh_token = x.refresh_token } =
        renewed-kept srv _ token created.0 (new_response created.0 created.1 scopes) x t w₄ w' h₄ in
      record {
        scopes = scopes;
        within_grant = within;
        allowed = allowed;
        issued = created.0;
        user_id = user_id_of user;
        after = w₄.db;
        spent =
            renewed-IsSpent srv token created.0 (new_response created.0 created.1 scopes) x t w₄ w'
              h₄;
        created =
            subst
              (λ y.
                IsIssued srv client (user_id_of user) scopes token.authorization_code_id
                  (created.0, y) w₄.db)
              (ap (λ y. y.access_token) (sym kept))
              (create_access_token-IsIssued srv client user scopes token.authorization_code_id w₃
                c);
        responded = ap (λ y. y.scope) kept;
        owned =
            subst (λ (v : World S). IsOwned v.db token (user_id_of user)) (sym same)
              (refreshed_user-IsOwned token w₁ u);
      }

  -- A refresh token is exchanged only if the store had a refresh token of that hash which was issued
  -- to this client and had not expired, for a scope that is the granted one or, if the request names
  -- a scope, within it, and that the client is allowed, and only if its user, where it has one, is in
  -- the store and may sign in. The store took an access token with the hash of the value in the
  -- response, which is one of this client, that user, the same code and exactly that scope, and the
  -- response names that scope. Afterwards a one-time refresh token was deleted and replaced by one
  -- with the hash of the value in the response and all granted scopes, and any other one was updated
  -- with the time of its use.
  pub refresh_token_grant_sound :
      (req : TokenRequest) (w : World S) (x : TokenResponse) (w' : World S)
      → refresh_token_grant srv req w ≡ (ok x, w')
      → (value : String) × (scope : String) × (token : RefreshToken) × (required_param req.form
            "refresh_token"
          ≡ ok value)
        × (param req.form "scope" ≡ ok scope)
        × (srv.store.get_refresh_token_by_hash (hash_token srv.env value) w.db ≡ ok token)
        × (token.client_id ≡ req.client.id)
        × (time srv.env w < token.expires_at)
        × IsRenewed w.db req.client token scope (time srv.env w) x w'.db
  unfolding refresh_token_grant
  refresh_token_grant_sound req w x w' h =
      let (value, p, h₁) = lift-then _ _ w h in
      let (scope, q, h₂) = lift-then _ _ w h₁ in
      let (token, s, h₃) = read-then _ _ w (map_error-then _ _ _ w h₂) in
      let (issued, h₄) = refuse_if-then _ _ _ w h₃ in
      let h₅ = now-then srv.env _ w h₄ in
      let (unexpired, h₆) = refuse_if-then _ _ _ _ h₅ in
      (
        value,
        scope,
        token,
        p,
        q,
        s,
        eq_of_not_ne _ _ issued,
        refresh_not_expired token _ unexpired,
        renew-IsRenewed req.client token scope _ _ x w' h₆,
      )
