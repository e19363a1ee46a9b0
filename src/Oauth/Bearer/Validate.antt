-- ===== src/Oauth/Bearer/Validate.antt =====
-- Which bearer tokens are accepted.
use go_identity.Common.{
  ℕ, suc, ◌<◌, String, ◌≡◌, ◌≢◌, ◌↔◌, inl, inr, true, false, List, [], ◌∷◌, Option, none, some,
  arith, ◌==◌, eq_iff, Bool-cases, subst, ne_of_test, not-false, ◌∙◌, ap, sym, All,
}
use go_identity.Failure.{ok}
use go_identity.Effect.{World, ◌>>=◌, refuse_if, map_error, now, time}
use go_identity.Effect.Inversion.{
  >>=-eq-ok, lift-then, read-then, map_error-then, refuse_if-then, now-then, pure-eq,
}
use go_identity.Security.{hash_token}
use go_identity.Identity.Scope.{has_scope}
use go_identity.Identity.Token.{AccessToken, access_token_has_expired}
use go_identity.Identity.User.{User}
use go_identity.Account.Service.{can_sign_in}
use go_identity.Oauth.Server.{Server}
use go_identity.Oauth.Lookup.{signs_in-ok}
use go_identity.Oauth.Bearer.{
  TokenInfo, token_user, validate_access_token, bearer_value, missing_scope, require_bearer,
}
use go_identity.Common.{cut_space}

module _ {S : Type 0} (srv : Server S) where
  -- The resource owner of a token: nobody, or a user of the store who may sign in.
  pub data IsOwner (db : S) (token : AccessToken) (user : Option User) : Type 0 where
    nobody : token.user_id ≡ "" → user ≡ none → IsOwner db token user
    owned :
        (u : User)
        → token.user_id ≢ ""
        → srv.store.get_user_by_id token.user_id db ≡ ok u
        → can_sign_in srv.accounts u ≡ ok tt
        → user ≡ some u
        → IsOwner db token user

  -- A token value that the server accepts in the world `w`.
  pub record IsLive (w : World S) (value : String) (info : TokenInfo) : Type 0 where
    pub known : srv.store.get_access_token_by_hash (hash_token srv.env value) w.db ≡ ok info.token
    pub unexpired : time srv.env w < info.token.expires_at
    pub client : srv.store.get_client_by_id info.token.client_id w.db ≡ ok info.client
    pub enabled : info.client.enabled ≡ true
    pub owner : IsOwner w.db info.token info.user

  token_user_sound :
      (token : AccessToken) (w : World S) (user : Option User) (w' : World S)
      → token_user srv token w ≡ (ok user, w')
      → IsOwner w.db token user × (w ≡ w')
  unfolding token_user
  token_user_sound token w user w' h = elim (Bool-cases (token.user_id == "")) [
    | inl e ↦
        let (same, stays) = pure-eq none w (rw e at h) in
        (nobody ((eq_iff token.user_id "").0 e) (sym same), stays)
    | inr e ↦
        let (u, found, h₁) = read-then _ _ w (map_error-then _ _ _ w (rw e at h)) in
        let (active, h₂) = refuse_if-then _ _ _ w h₁ in
        let (same, stays) = pure-eq (some u) w h₂ in
        (owned u (ne_of_test token.user_id "" e) found (signs_in-ok _ active) (sym same), stays)
  ]

  token_user_complete :
      (token : AccessToken) (w : World S) (user : Option User)
      → IsOwner w.db token user
      → token_user srv token w ≡ (ok user, w)
  unfolding token_user ◌>>=◌ refuse_if map_error
  token_user_complete token w user (nobody e n) = ground (arith, eq_iff token.user_id "")
  token_user_complete token w user (owned u e found active s) =
      ground (arith, eq_iff token.user_id "", found, active)

  access_token_unexpired :
      (token : AccessToken) (t : ℕ)
      → (access_token_has_expired token t ≡ false) ↔ (t < token.expires_at)
  unfolding access_token_has_expired
  access_token_unexpired token t = (λ h. ground arith, λ h. ground arith)

  validate_access_token_sound :
      (value : String) (info : TokenInfo) (w w' : World S)
      → validate_access_token srv value w ≡ (ok info, w')
      → IsLive w value info × (record w { ticks = suc w.ticks } ≡ w')
  unfolding validate_access_token
  validate_access_token_sound value info w w' h =
      let (token, known, h₁) = read-then _ _ w (map_error-then _ _ _ w h) in
      let h₂ = now-then srv.env _ w h₁ in
      let (unexpired, h₃) = refuse_if-then _ _ _ _ h₂ in
      let (client, found, h₄) = read-then _ _ _ (map_error-then _ _ _ _ h₃) in
      let (enabled, h₅) = refuse_if-then _ _ _ _ h₄ in
      let (user, v, looked_up, h₆) = >>=-eq-ok (token_user srv token) _ _ h₅ in
      let (owner, same) = token_user_sound token _ user v looked_up in
      let (this, stays) = pure-eq _ v h₆ in
      (
        subst (IsLive w value) this (record {
          known = known;
          unexpired = (access_token_unexpired token _).0 unexpired;
          client = found;
          enabled = not-false _ enabled;
          owner = owner;
        }),
        same ∙ stays,
      )

  validate_access_token_complete :
      (value : String) (info : TokenInfo) (w : World S)
      → IsLive w value info
      → validate_access_token srv value w ≡ (ok info, record w { ticks = suc w.ticks })
  unfolding validate_access_token ◌>>=◌ refuse_if map_error now
  validate_access_token_complete value info w a = ground (
    arith,
    a.known,
    a.client,
    a.enabled,
    (access_token_unexpired info.token (time srv.env w)).1 a.unexpired,
    token_user_complete info.token (record w { ticks = suc w.ticks }) info.user a.owner,
  )

  -- A bearer token is accepted, with its client and user, exactly when the store has an access
  -- token of that hash which has not expired, its client is in the store and enabled, and it
  -- belongs to nobody or to a user of the store who may sign in; the store is not changed.
  pub validate_access_token_iff :
      (value : String) (info : TokenInfo) (w w' : World S)
      → (validate_access_token srv value w ≡ (ok info, w'))
        ↔ (IsLive w value info × (record w { ticks = suc w.ticks } ≡ w'))
  validate_access_token_iff value info w w' = (
    validate_access_token_sound value info w w',
    λ (a, e). validate_access_token_complete value info w a ∙ ap (λ v. (ok info, v)) e,
  )

  missing_scope-All :
      (granted scopes : List String)
      → missing_scope granted scopes ≡ false
      → All (λ s. has_scope granted s ≡ true) scopes
  unfolding missing_scope
  missing_scope-All granted [] h = tt
  missing_scope-All granted (s ∷ ss) h = (ground arith, missing_scope-All granted ss (ground arith))

  -- A protected handler is reached only with a live access token, taken from the Authorization
  -- header, that has every scope which the handler requires.
  pub require_bearer_sound :
      (scopes : List String) (header : String) (info : TokenInfo) (w w' : World S)
      → require_bearer srv scopes header w ≡ (ok info, w')
      → (value : String) × (bearer_value srv.env (cut_space header) ≡ ok value)
        × IsLive w value info
        × All (λ s. has_scope info.token.scopes s ≡ true) scopes
  unfolding require_bearer
  require_bearer_sound scopes header info w w' h =
      let (present, h₁) = refuse_if-then _ _ _ w h in
      let (value, p, h₂) = lift-then _ _ w h₁ in
      let (found, v, valid, h₃) = >>=-eq-ok _ _ w (map_error-then _ _ _ w h₂) in
      let (live, _) = validate_access_token_sound value found w v valid in
      let (scoped, h₄) = refuse_if-then _ _ _ v h₃ in
      let (same, stays) = pure-eq found v h₄ in
      (
        value,
        p,
        subst (IsLive w value) same live,
        subst (λ i. All (λ s. has_scope i.token.scopes s ≡ true) scopes) same
            (missing_scope-All found.token.scopes scopes scoped),
      )
