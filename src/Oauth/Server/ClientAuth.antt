-- ===== src/Oauth/Server/ClientAuth.antt =====
-- Which clients are authenticated.
use go_identity.Common.{
  ◌≡◌, ◌≢◌, ◌↔◌, true, false, ◌&&◌, ◌||◌, arith, ◌==◌, ◌!=◌, not, eq_iff, subst, ne_of_test,
  not-false, ◌∙◌, ap,
}
use go_identity.Failure.{ok}
use go_identity.Effect.{World, ◌>>=◌, lift, refuse_if, map_error}
use go_identity.Effect.Inversion.{lift-then, read-then, map_error-then, refuse_if-then, pure-eq}
use go_identity.Identity.Client.{Client, is_public}
use go_identity.Account.Service.{verifies}
use go_identity.Oauth.Params.{Request, Values}
use go_identity.Oauth.Server.{Server, Credentials, read_credentials, authenticate_client}

module _ {S : Type 0} (srv : Server S) where
  -- The client that is registered in the store under these credentials.
  pub record IsAuthentic (db : S) (c : Credentials) (client : Client) : Type 0 where
    pub named : c.client_id ≢ ""
    pub registered : srv.store.get_client_by_client_id c.client_id db ≡ ok client
    pub enabled : client.enabled ≡ true
    pub public : is_public client ≡ true → (c.used_basic ≡ false) × (c.client_secret ≡ "")
    pub confidential :
        is_public client ≡ false
        → (c.client_secret ≢ "")
          × (client.secret_hash ≢ "")
          × (verifies srv.hasher client.secret_hash c.client_secret ≡ true)

  public_checked :
      (c : Credentials) (client : Client)
      → (is_public client && (c.used_basic || c.client_secret != "")) ≡ false
      → is_public client ≡ true
      → (c.used_basic ≡ false) × (c.client_secret ≡ "")
  public_checked c client h p = (ground arith, ground (arith, eq_iff c.client_secret ""))

  confidential_checked :
      (c : Credentials) (client : Client)
      → (not (is_public client)
          && (c.client_secret == ""
              || client.secret_hash == ""
              || not (verifies srv.hasher client.secret_hash c.client_secret)))
        ≡ false
      → is_public client ≡ false
      → (c.client_secret ≢ "")
        × (client.secret_hash ≢ "")
        × (verifies srv.hasher client.secret_hash c.client_secret ≡ true)
  confidential_checked c client h p = (
    λ e. ground (arith, eq_iff c.client_secret "", e),
    λ e. ground (arith, eq_iff client.secret_hash "", e),
    ground arith,
  )

  authenticate_client_sound :
      (r : Request) (form : Values) (client : Client) (w w' : World S)
      → authenticate_client srv r form w ≡ (ok client, w')
      → (c : Credentials) × (read_credentials srv.env r form ≡ ok c)
        × IsAuthentic w.db c client
        × (w ≡ w')
  unfolding authenticate_client
  authenticate_client_sound r form client w w' h =
      let (c, p, h₁) = lift-then _ _ w h in
      let (named, h₂) = refuse_if-then _ _ _ w h₁ in
      let (client', found, h₃) = read-then _ _ w (map_error-then _ _ _ w h₂) in
      let (enabled, h₄) = refuse_if-then _ _ _ w h₃ in
      let (pub_checks, h₅) = refuse_if-then _ _ _ w h₄ in
      let (conf_checks, h₆) = refuse_if-then _ _ _ w h₅ in
      let (same, stays) = pure-eq client' w h₆ in
      (
        c,
        p,
        subst (λ x. IsAuthentic w.db c x) same
            (record {
              named = ne_of_test _ _ named;
              registered = found;
              enabled = not-false _ enabled;
              public = public_checked c client' pub_checks;
              confidential = confidential_checked c client' conf_checks;
            }),
        stays,
      )

  authenticate_client_complete :
      (r : Request) (form : Values) (client : Client) (w : World S) (c : Credentials)
      → read_credentials srv.env r form ≡ ok c
      → IsAuthentic w.db c client
      → authenticate_client srv r form w ≡ (ok client, w)
  unfolding authenticate_client ◌>>=◌ lift refuse_if map_error
  authenticate_client_complete r form client w c p a = rw p (
      ground (
        arith,
        eq_iff c.client_id "",
        eq_iff c.client_secret "",
        eq_iff client.secret_hash "",
        a.named,
        a.registered,
        a.enabled,
        a.public,
        a.confidential,
      ))

  -- A request is authenticated as a client exactly when its credentials can be read and name an
  -- enabled client of the store which, if it is public, sent no secret and, if it is not, sent one
  -- that verifies against its hash; nothing is written.
  pub authenticate_client_iff :
      (r : Request) (form : Values) (client : Client) (w w' : World S)
      → (authenticate_client srv r form w ≡ (ok client, w')) ↔ (
          (c : Credentials) × (read_credentials srv.env r form ≡ ok c)
          × IsAuthentic w.db c client
          × (w ≡ w'))
  authenticate_client_iff r form client w w' = (
    authenticate_client_sound r form client w w',
    λ (c, p, a, e). authenticate_client_complete r form client w c p a ∙ ap (λ v. (ok client, v)) e,
  )
