-- ===== src/Oauth/Authorize/Sent.antt =====
-- Once the client and the redirection URI are known, every redirection goes to that URI.
use go_identity.Common.{
  String, ◌≡◌, refl, Bool, true, false, [], ◌∷◌, Option, none, some, ◌==◌, ◌!=◌, not, if◌then◌else◌,
}
use go_identity.Failure.{OauthError, Error, Result, ok, err}
use go_identity.Effect.{World, M, ◌>>=◌, pure, recover, recovered, continue}
use go_identity.Effect.Inversion.{pure-eq}
use go_identity.Identity.Client.{response_type_code, response_type_token}
use go_identity.Identity.User.{User}
use go_identity.Oauth.Params.{Values}
use go_identity.Oauth.Tokens.{issue_tokens}
use go_identity.Oauth.Server.{Server}
use go_identity.Oauth.AuthorizeRequest.{
  AuthorizeRequest, Visit, Reply, error_page, login_page, consent_page, redirect, no_reply,
  with_state, consent_allow, authorize_params, send_redirect, redirect_error,
}
use go_identity.Oauth.Error.{as_error, new_error, error_access_denied, error_invalid_request}
use go_identity.Account.Service.{can_sign_in, signs_in}
use go_identity.Oauth.Authorize.{
  authorize_url, token_values, issue_code, issue_implicit_token, issue, with_consent, with_user,
  create_code,
}

-- A redirection goes to this URI.
abbrev pub IsSentTo : String → Reply → Type 0
IsSentTo uri (error_page e) = Unit
IsSentTo uri (login_page u) = Unit
IsSentTo uri (consent_page req user form) = Unit
IsSentTo uri (redirect to sep values) = to ≡ uri
IsSentTo uri no_reply = Unit

module _ (S : Type 0) where
  -- Whatever a handler answers in whatever world, a redirection goes to this URI.
  unfoldable pub AllSentTo : String → M S Reply → Type 0
  AllSentTo uri m = (w w' : World S) (r : Reply) → m w ≡ (ok r, w') → IsSentTo uri r

  pure-sent : (uri : String) (r : Reply) → IsSentTo uri r → AllSentTo uri (pure r)
  unfolding AllSentTo
  pure-sent uri r h w w' r' e = let (p, q) = pure-eq r w e in rw (← p) h

  if-sent :
      (uri : String) (b : Bool) (m m' : M S Reply)
      → AllSentTo uri m
      → AllSentTo uri m'
      → AllSentTo uri (if b then m else m')
  if-sent uri true m m' h h' = h
  if-sent uri false m m' h h' = h'

  pub redirect_error-sent :
      (req : AuthorizeRequest) (e : OauthError)
      → AllSentTo req.redirect_uri (pure (redirect_error req e))
  unfolding redirect_error send_redirect
  redirect_error-sent req e = pure-sent req.redirect_uri (redirect_error req e) refl

  -- A value is computed and sent, or its error is.
  recover-sent :
      {A : Type 0} (req : AuthorizeRequest) (m : M S A) (f : A → Reply) (g : Error → OauthError)
      → ((a : A) → IsSentTo req.redirect_uri (f a))
      → AllSentTo req.redirect_uri
          (recover (m >>= λ a. pure (f a)) (λ e. pure (redirect_error req (g e))))
  unfolding recover AllSentTo ◌>>=◌
  recover-sent {A = A} req m f g h w w' r e = go (m w).0 (m w).1 e
    where
      go :
          (p : Result A) (v : World S)
          → recovered
              (λ e. pure (redirect_error req (g e)))
              (continue p (λ a. pure (f a)) v).0
              (continue p (λ a. pure (f a)) v).1
            ≡ (ok r, w')
          → IsSentTo req.redirect_uri r
      go (ok a) v q = rw (← (pure-eq (f a) v q).0) (h a)
      go (err x) v q = redirect_error-sent req (g x) v w' r q

module _ {S : Type 0} (srv : Server S) where
  issue-sent :
      (req : AuthorizeRequest) (user : User) → AllSentTo S req.redirect_uri (issue srv req user)
  unfolding issue issue_code issue_implicit_token send_redirect
  issue-sent req user =
      if-sent S req.redirect_uri (req.response_type == response_type_code) (issue_code srv req user)
        (if req.response_type == response_type_token
          then issue_implicit_token srv req user
          else pure no_reply)
        (recover-sent S req (create_code srv req user)
          (λ value.
            send_redirect req.redirect_uri (with_state req (("code", value ∷ []) ∷ [])) false)
          as_error (λ value. refl))
        (if-sent S req.redirect_uri (req.response_type == response_type_token)
          (issue_implicit_token srv req user) (pure no_reply)
          (recover-sent S req
            (issue_tokens srv req.client (some user) req.scopes
              (record { refresh_token = false; authorization_code_id = "" }))
            (λ response. send_redirect req.redirect_uri (token_values srv req response) true)
            as_error (λ response. refl))
          (pure-sent S req.redirect_uri no_reply tt))

  with_consent-sent :
      (req : AuthorizeRequest) (user : User) (params : Values) (visit : Visit)
      → AllSentTo S req.redirect_uri (with_consent srv req user params visit)
  unfolding with_consent
  with_consent-sent req user params visit =
      go req.client.require_consent (visit.decision == "") (not visit.verify_consent)
        (visit.decision != consent_allow)
    where
      go :
          (required undecided expired denied : Bool)
          → AllSentTo S req.redirect_uri (
              if required
              then if undecided
                then pure (consent_page req user (authorize_params params))
                else if expired
                then pure (
                    error_page (
                      new_error error_invalid_request
                        "the consent form has expired, please try again"))
                else if denied
                then pure (
                    redirect_error req
                      (new_error error_access_denied "the resource owner denied the request"))
                else issue srv req user
              else issue srv req user)
      go true true c d = pure-sent S req.redirect_uri _ tt
      go true false true d = pure-sent S req.redirect_uri _ tt
      go true false false true = redirect_error-sent S req _
      go true false false false = issue-sent req user
      go false b c d = issue-sent req user

  pub with_user-sent :
      (req : AuthorizeRequest) (params : Values) (visit : Visit)
      → AllSentTo S req.redirect_uri (with_user srv req params visit)
  unfolding with_user
  with_user-sent req params visit = go visit.current_user
    where
      go :
          (answer : Result (Option User))
          → AllSentTo S req.redirect_uri (elim answer as (λ a. M S Reply) [
            | err e ↦ pure (redirect_error req (as_error e))
            | ok none ↦ pure (login_page (authorize_url srv params))
            | ok (some user) ↦
                if not (signs_in (can_sign_in srv.accounts user))
                then pure (
                    redirect_error req
                      (new_error error_access_denied "the resource owner account is not active"))
                else with_consent srv req user params visit
          ])
      go (err e) = redirect_error-sent S req (as_error e)
      go (ok none) = pure-sent S req.redirect_uri _ tt
      go (ok (some user)) =
          if-sent S req.redirect_uri (not (signs_in (can_sign_in srv.accounts user)))
            (pure (
              redirect_error req
                (new_error error_access_denied "the resource owner account is not active")))
            (with_consent srv req user params visit) (redirect_error-sent S req _)
            (with_consent-sent req user params visit)
