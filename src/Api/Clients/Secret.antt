-- ===== src/Api/Clients/Secret.antt =====
-- The secret of a new client.
use go_identity.Common.{
  ℕ, String, ◌≡◌, refl, ◌⊎◌, inl, inr, sym, ap, ◌∙◌, subst, true, false, Bool-cases,
}
use go_identity.Failure.{ok}
use go_identity.Effect.{World}
use go_identity.Effect.Inversion.{>>=-eq-ok, lift-then, write-then, now-then, pure-eq}
use go_identity.Security.{new_id, new_token, hash_secret}
use go_identity.Security.Draws.{new_token-db, new_id-db, hash_secret-db}
use go_identity.Identity.Client.{Client, is_public}
use go_identity.Api.{Api, Target, Payload, parsed, created}
use go_identity.Api.Created.{handled-created, decode-created}
use go_identity.Api.ClientRequest.{ClientRequest, ClientWithSecret, to_client, apply}
use go_identity.Api.Clients.{create_client, with_secret}

module _ {S : Type 0} (a : Api S) where
  -- A client without a secret if it is public, and otherwise with the hash of the secret.
  abbrev pub HasSecret : Client → String → Client → Type 0
  HasSecret filled secret client =
      ((is_public filled ≡ true) × (secret ≡ "") × (client ≡ filled))
      ⊎ ((is_public filled ≡ false)
          × (draw : ℕ) × (hash : String) × (a.hasher.hash draw secret ≡ ok hash)
          × (client ≡ record filled { secret_hash = hash }))

  with_secret_sound :
      (filled : Client) (w : World S) (secret : String) (client : Client) (w' : World S)
      → with_secret a filled w ≡ (ok (secret, client), w')
      → HasSecret filled secret client × (w'.db ≡ w.db)
  unfolding with_secret hash_secret
  with_secret_sound filled w secret client w' h = elim (Bool-cases (is_public filled)) [
    | inl public ↦
        let (same, stays) = pure-eq _ _ (rw public at h) in
        (
          inl (public, ap (λ p. p.0) (sym same), ap (λ p. p.1) (sym same)),
          ap (λ v. v.db) (sym stays),
        )
    | inr confidential ↦
        let (drawn, v₁, p₁, h₁) = >>=-eq-ok (new_token a.env) _ w (rw confidential at h) in
        let (hash, v₂, p₂, h₂) = >>=-eq-ok (hash_secret a.hasher drawn) _ v₁ h₁ in
        let (same, stays) = pure-eq _ _ h₂ in
        (
          inr (
            confidential,
            v₁.drawn,
            hash,
            ap (a.hasher.hash v₁.drawn) (ap (λ p. p.0) (sym same)) ∙ ap (λ r. r.0) p₂,
            ap (λ p. p.1) (sym same),
          ),
          ap (λ v. v.db) (sym stays)
              ∙ hash_secret-db a.hasher drawn v₁ v₂ p₂
              ∙ new_token-db a.env w v₁ p₁,
        )
  ]

  -- A client that was registered by a request.
  pub record IsRegistered (payload : Payload ClientRequest) (w : World S) (shown : ClientWithSecret)
      (w' : World S) : Type 0 where
    pub req : ClientRequest
    pub decoded : payload.decoded ≡ parsed req true
    pub empty_client : Client
    pub fresh : (empty_client.secret_hash ≡ "") × (empty_client.enabled ≡ true)
    pub filled : Client
    pub valid : apply a.is_absolute_uri req empty_client ≡ ok filled
    pub client : Client
    pub secret : HasSecret filled shown.client_secret client
    pub view : shown.client ≡ to_client client
    pub stored : (a.accounts.store.create_client client w.db).0 ≡ ok tt
    pub after : w'.db ≡ (a.accounts.store.create_client client w.db).1

  -- A client is reported as created only if the request is well formed and passes the checks of
  -- `apply`, and the store accepted the client that is shown; a public client gets no secret, and of
  -- the secret of another one, which the response alone holds, the hash is stored.
  pub create_client_sound :
      (r : Target) (payload : Payload ClientRequest) (w : World S) (location : String)
      (shown : ClientWithSecret) (w' : World S)
      → create_client a r payload w ≡ (ok (created location shown), w')
      → IsRegistered payload w shown w'
  unfolding create_client
  create_client_sound r payload w location shown w' h =
      let (req, decoded, h₁) = decode-created payload _ w h in
      let h₂ = handled-created _ w h₁ in
      let h₃ = now-then a.env _ w h₂ in
      let (id, v₁, p₁, h₄) = >>=-eq-ok (new_id a.env) _ _ h₃ in
      let (filled, valid, h₅) = lift-then _ _ v₁ h₄ in
      let ((secret, client), v₂, p₂, h₆) = >>=-eq-ok (with_secret a filled) _ v₁ h₅ in
      let (u, stored, h₇) = write-then _ _ v₂ h₆ in
      let (same, stays) = pure-eq _ _ h₇ in
      let view : ClientWithSecret = record { client = to_client client; client_secret = secret } in
      let shown_is : view ≡ shown = cc in
      let (has_secret, unchanged) = with_secret_sound filled v₁ secret client v₂ p₂ in
      let db : v₂.db ≡ w.db = unchanged ∙ new_id-db a.env _ v₁ p₁ in
      record {
        req = req;
        decoded = decoded;
        empty_client = _;
        fresh = (refl, refl);
        filled = filled;
        valid = valid;
        client = client;
        secret =
            subst (λ s. HasSecret filled s client) (ap (λ x. x.client_secret) shown_is) has_secret;
        view = ap (λ x. x.client) (sym shown_is);
        stored = ap (λ d. (a.accounts.store.create_client client d).0) (sym db) ∙ stored;
        after =
            ap (λ v. v.db) (sym stays) ∙ ap (λ d. (a.accounts.store.create_client client d).1) db;
      }
