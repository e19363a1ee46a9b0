-- ===== src/Oauth/Endpoint/Access.antt =====
-- Who is granted tokens at the token endpoint.
use go_identity.Common.{◌≡◌, String, true, Option, none, some, ap, not-false, subst, sym}
use go_identity.Failure.{Result, ok, err}
use go_identity.Effect.{World}
use go_identity.Effect.Inversion.{lift-then, refuse_if-then, map_error-ok, >>=-eq-ok}
use go_identity.Identity.Client.{Client, validate_grant_type}
use go_identity.Oauth.Params.{Request, Values, parse_post_form, required_param}
use go_identity.Oauth.Server.{Server, Credentials, read_credentials}
use go_identity.Oauth.Server.ClientAuth.{IsAuthentic, authenticate_client_iff}
use go_identity.Oauth.Tokens.{TokenResponse}
use go_identity.Oauth.Endpoint.{
  Grants, GrantHandler, handler_of, supported, token, handle_token, granted, reply_of,
}

module _ {S : Type 0} (srv : Server S) (grants : Grants S) where
  supported-some :
      (o : Option (GrantHandler S)) (h : GrantHandler S) → supported o ≡ ok h → o ≡ some h
  supported-some none h e = cc
  supported-some (some g) h e = cc

  granted-ok : (r : Result TokenResponse) (x : TokenResponse) → reply_of r ≡ granted x → r ≡ ok x
  granted-ok (ok y) x e = cc
  granted-ok (err y) x e = cc

  pair_eq :
      {p : Result TokenResponse × World S} {a : Result TokenResponse} {v : World S}
      → p.0 ≡ a
      → p.1 ≡ v
      → p ≡ (a, v)
  pair_eq e f = cc

  token_sound :
      (r : Request) (w w' : World S) (x : TokenResponse)
      → token srv grants r w ≡ (ok x, w')
      → (form : Values) × (credentials : Credentials) × (client : Client) × (grant_type : String)
        × (handler : GrantHandler S) × (parse_post_form r ≡ ok form)
        × (read_credentials srv.env r form ≡ ok credentials)
        × IsAuthentic srv w.db credentials client
        × (required_param form "grant_type" ≡ ok grant_type)
        × (handler_of grants grant_type ≡ some handler)
        × (validate_grant_type client grant_type ≡ true)
        × (handler (record { client = client; grant_type = grant_type; form = form }) w
            ≡ (ok x, w'))
  unfolding token
  token_sound r w w' x h =
      let (form, p, h₁) = lift-then _ _ w h in
      let (client, w₁, q, h₂) = >>=-eq-ok _ _ w h₁ in
      let (credentials, read, authentic, same) =
        (authenticate_client_iff srv r form client w w₁).0 q in
      let (grant_type, s, h₃) = lift-then _ _ w₁ h₂ in
      let (handler, t, h₄) = lift-then _ _ w₁ h₃ in
      let (allowed, h₅) = refuse_if-then _ _ _ w₁ h₄ in
      let h₆ = map_error-ok _ _ w₁ h₅ in
      (
        form,
        credentials,
        client,
        grant_type,
        handler,
        p,
        read,
        authentic,
        s,
        supported-some _ handler t,
        not-false _ allowed,
        subst
            (λ v.
              handler (record { client = client; grant_type = grant_type; form = form }) v
              ≡ (ok x, w'))
            (sym same) h₆,
      )

  -- The endpoint grants tokens only to a client that is registered, enabled and authenticated by
  -- the credentials of the request, for a grant type that the request names, that has a handler and
  -- that the client is allowed, and then answers with what that handler returned.
  pub handle_token-granted :
      (r : Request) (w w' : World S) (x : TokenResponse)
      → handle_token srv grants r w ≡ (granted x, w')
      → (form : Values) × (credentials : Credentials) × (client : Client) × (grant_type : String)
        × (handler : GrantHandler S) × (parse_post_form r ≡ ok form)
        × (read_credentials srv.env r form ≡ ok credentials)
        × IsAuthentic srv w.db credentials client
        × (required_param form "grant_type" ≡ ok grant_type)
        × (handler_of grants grant_type ≡ some handler)
        × (validate_grant_type client grant_type ≡ true)
        × (handler (record { client = client; grant_type = grant_type; form = form }) w
            ≡ (ok x, w'))
  unfolding handle_token token
  handle_token-granted r w w' x h =
      token_sound r w w' x
        (pair_eq (granted-ok (token srv grants r w).0 x (ap (λ p. p.0) h)) (ap (λ p. p.1) h))
