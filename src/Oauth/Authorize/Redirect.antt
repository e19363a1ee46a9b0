-- ===== src/Oauth/Authorize/Redirect.antt =====
-- Where the authorization endpoint sends the user agent.
use go_identity.Oauth.Authorize.Sent.{AllSentTo, redirect_error-sent, with_user-sent}
use go_identity.Common.{
  String, ◌≡◌, refl, true, List, [], ◌∷◌, some, arith, eq_iff, contains, not-false,
}
use go_identity.Failure.{Result, ok, err}
use go_identity.Effect.{World, M, ◌>>=◌, pure}
use go_identity.Effect.Inversion.{lift-then, read-then, map_error-then, refuse_if-then, pure-eq}
use go_identity.Identity.Client.{Client, match_redirect_uri, match_uri}
use go_identity.Oauth.Params.{Values, required_param}
use go_identity.Oauth.Server.{Server}
use go_identity.Oauth.AuthorizeRequest.{
  AuthorizeRequest, Visit, Reply, error_page, redirect, only_uri, Validated, chosen_uri,
  validate_authorize_request,
}
use go_identity.Oauth.AuthorizeRequest.Valid.{validate_authorize_request_sound}
use go_identity.Oauth.Error.{as_error}
use go_identity.Oauth.Authorize.{validate_client_and_redirect, continue_with, handle_authorize}

match_uri-contains :
    (uris : List String) (s uri : String) → match_uri uris s ≡ some uri → contains uris uri ≡ true
unfolding match_uri
match_uri-contains [] s uri h = cc
match_uri-contains (u ∷ uris) s uri h = ground (arith, eq_iff u uri, match_uri-contains uris s uri)

only_uri-contains :
    (uris : List String) (uri : String) → only_uri uris ≡ ok uri → contains uris uri ≡ true
only_uri-contains [] uri h = cc
only_uri-contains (u ∷ []) uri h = ground (arith, eq_iff u uri)
only_uri-contains (u ∷ u' ∷ more) uri h = cc

-- The chosen URI is registered for the client.
chosen_uri_registered :
    (client : Client) (s uri : String)
    → chosen_uri client s ≡ ok uri
    → contains client.redirect_uris uri ≡ true
unfolding chosen_uri match_redirect_uri
chosen_uri_registered client s uri h = ground (
  arith,
  only_uri-contains client.redirect_uris uri,
  match_uri-contains client.redirect_uris s uri,
)

-- The client that the store knows by its client_id and the URI that was chosen of those it
-- registered.
pub record IsRegistered {S : Type 0} (srv : Server S) (db : S) (params : Values) (uri : String)
    : Type 0 where
  pub client_id : String
  pub client : Client
  pub named : required_param params "client_id" ≡ ok client_id
  pub known : srv.store.get_client_by_client_id client_id db ≡ ok client
  pub enabled : client.enabled ≡ true
  pub registered : contains client.redirect_uris uri ≡ true

-- A failed validation keeps the redirection URI too.
validate_authorize_request-redirect_uri :
    (req : AuthorizeRequest) (params : Values)
    → (validate_authorize_request req params).0.redirect_uri ≡ req.redirect_uri
unfolding validate_authorize_request
validate_authorize_request-redirect_uri req params = ground arith

module _ {S : Type 0} (srv : Server S) where
  validate_client_and_redirect_sound :
      (params : Values) (req : AuthorizeRequest) (w w' : World S)
      → validate_client_and_redirect srv params w ≡ (ok req, w')
      → IsRegistered srv w.db params req.redirect_uri × (w ≡ w')
  unfolding validate_client_and_redirect
  validate_client_and_redirect_sound params req w w' h =
      let (client_id, named, h₁) = lift-then _ _ w h in
      let (client, known, h₂) = read-then _ _ w (map_error-then _ _ _ w h₁) in
      let (enabled, h₃) = refuse_if-then _ _ _ w h₂ in
      let (redirect_uri, p, h₄) = lift-then _ _ w h₃ in
      let (uri, chosen, h₅) = lift-then _ _ w h₄ in
      let (same, stays) = pure-eq _ w h₅ in
      (
        record {
          client_id = client_id;
          client = client;
          named = named;
          known = known;
          enabled = not-false _ enabled;
          registered = rw (← same) (chosen_uri_registered client redirect_uri uri chosen);
        },
        stays,
      )

  continue_with-sent :
      (params : Values) (visit : Visit) (uri : String) (v : Validated)
      → v.0.redirect_uri ≡ uri
      → ((valid : AuthorizeRequest) → v.1 ≡ ok valid → valid.redirect_uri ≡ uri)
      → AllSentTo S uri (continue_with srv params visit v)
  unfolding AllSentTo
  continue_with-sent params visit uri (r, err e) kept k w w' reply h =
      rw (← kept) (redirect_error-sent S r (as_error e) w w' reply h)
  continue_with-sent params visit uri (r, ok valid) kept k w w' reply h =
      rw (← k valid refl) (with_user-sent srv valid params visit w w' reply h)

  validated-sent :
      (params : Values) (visit : Visit) (req : AuthorizeRequest)
      → AllSentTo S req.redirect_uri
          (continue_with srv params visit (validate_authorize_request req params))
  validated-sent params visit req =
      continue_with-sent params visit req.redirect_uri (validate_authorize_request req params)
        (validate_authorize_request-redirect_uri req params)
        (λ valid e. (validate_authorize_request_sound req params valid e).redirect_uri)

  attempt_sent :
      (params : Values) (visit : Visit) (uri sep : String) (values : Values) (w w' : World S)
      (req : Result AuthorizeRequest × World S)
      → validate_client_and_redirect srv params w ≡ req
      → (elim req.0 as (λ r. M S Reply) [
        | err e ↦ pure (error_page (as_error e))
        | ok req ↦ continue_with srv params visit (validate_authorize_request req params)
      ])
          req.1
        ≡ (ok (redirect uri sep values), w')
      → IsRegistered srv w.db params uri
  unfolding AllSentTo
  attempt_sent params visit uri sep values w w' (err e, v) p h =
      let (same, stays) = pure-eq (error_page (as_error e)) v h in cc
  attempt_sent params visit uri sep values w w' (ok req, v) p h =
      rw (validated-sent params visit req v w' (redirect uri sep values) h)
        (validate_client_and_redirect_sound params req w v p).0

  -- The endpoint redirects the user agent only to a URI that an enabled client, the one that the
  -- request names, has registered.
  pub handle_authorize-redirect :
      (visit : Visit) (params : Values) (uri sep : String) (values : Values) (w w' : World S)
      → visit.params ≡ some params
      → handle_authorize srv visit w ≡ (ok (redirect uri sep values), w')
      → IsRegistered srv w.db params uri
  unfolding handle_authorize ◌>>=◌
  handle_authorize-redirect visit params uri sep values w w' p h =
      attempt_sent params visit uri sep values w w' (validate_client_and_redirect srv params w) refl
        (rw (handle_authorize, p) at h)
