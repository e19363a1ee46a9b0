-- ===== src/Oauth/Issued.antt =====
-- What an access token that was issued holds (pkg/oauth/token.go).
use go_identity.Common.{String, ◌≡◌, refl, ap, List, Option}
use go_identity.Failure.{ok}
use go_identity.Effect.{World}
use go_identity.Effect.Inversion.{>>=-eq-ok, write-then, now-then, pure-eq, pair-eq}
use go_identity.Security.{new_id, hash_token}
use go_identity.Identity.Token.{AccessToken}
use go_identity.Identity.Client.{Client}
use go_identity.Identity.User.{User}
use go_identity.Oauth.Server.{Server}
use go_identity.Oauth.Tokens.{user_id_of, create_access_token}
use go_identity.Common.{subst}

module _ {S : Type 0} (srv : Server S) where
  -- The value of the token is kept as its hash only, and the store took the token: one of this client
  -- and user, with these scopes.
  pub record IsIssued (client : Client) (user_id : String) (scopes : List String) (code_id : String)
      (issued : AccessToken × String) (after : S) : Type 0 where
    pub hashed : issued.0.token_hash ≡ hash_token srv.env issued.1
    pub of_client : issued.0.client_id ≡ client.id
    pub of_user : issued.0.user_id ≡ user_id
    pub of_scopes : issued.0.scopes ≡ scopes
    pub of_code : issued.0.authorization_code_id ≡ code_id
    pub before : S
    pub accepted : srv.store.create_access_token issued.0 before ≡ (ok tt, after)

  pub create_access_token-IsIssued :
      (client : Client) (user : Option User) (scopes : List String) (code_id : String) (w : World S)
      {issued : AccessToken × String} {w' : World S}
      → create_access_token srv client user scopes code_id w ≡ (ok issued, w')
      → IsIssued client (user_id_of user) scopes code_id issued w'.db
  unfolding create_access_token
  create_access_token-IsIssued client user scopes code_id w {w' = w'} h =
      let h₁ = now-then srv.env _ w h in
      let (id, v₁, p₁, h₂) = >>=-eq-ok (new_id srv.env) _ _ h₁ in
      let (value, v₂, p₂, h₃) = >>=-eq-ok _ _ v₁ h₂ in
      let (u, accepted, h₄) = write-then _ _ v₂ h₃ in
      let (same, stays) = pure-eq _ _ h₄ in
      subst (λ p. IsIssued client (user_id_of user) scopes code_id p w'.db) same
        (record {
          hashed = refl;
          of_client = refl;
          of_user = refl;
          of_scopes = refl;
          of_code = refl;
          before = v₂.db;
          accepted = pair-eq _ accepted (ap (λ (z : World S). z.db) stays);
        })
