-- ===== src/Ui/Interaction.antt =====
-- pkg/ui/ui.go: the user of a session, and the pages of the authorization endpoint.
pub mod Sound
pub mod Stale
use go_identity.Common.{
  ℕ, String, Bool, true, false, ◌||◌, List, [], ◌∷◌, Option, none, some, ◌==◌, ◌!=◌, eqb, not,
  text_append, if◌then◌else◌,
}
use go_identity.Failure.{AccountError, Error, Result, ok, err, account, OauthError}
use go_identity.Effect.{M, ◌>>=◌, pure, fail, read, clock_reading, attempt, recover}
use go_identity.Identity.Client.{Client}
use go_identity.Identity.User.{User}
use go_identity.Account.Service.{get_user, can_sign_in, signs_in}
use go_identity.Session.{Session, Cookie, Sender, get, destroy, verify_csrf}
use go_identity.Ui.{
  Ui, Request, Reply, url, redirect, render, message, titled, path_login, consent_data,
}

-- The user of a session, if any, and the cookies that were set.
abbrev pub Visitor : Type 0
Visitor = Option User × List Cookie

-- `oauth.ConsentRequest`
pub record ConsentRequest : Type 0 where
  pub client : Client
  pub user : User
  pub scopes : List String
  pub action : String
  pub params : List (String × List String)

-- `errors.Is(err, account.ErrNotFound)`
abbrev pub is_no_such_user : Error → Bool
is_no_such_user (account AccountError.no_such_user) = true
is_no_such_user other_error = false

module _ {S : Type 0} (u : Ui S) where
  -- The visitor whose cookie is removed.
  abbrev pub signed_out : Visitor
  signed_out = (none, destroy u.sessions ∷ [])

  -- The rest of `CurrentUser` for the user of a session.
  unfoldable pub of_session : Session → User → Visitor
  of_session s user =
      if user.security_stamp != s.security_stamp || not (signs_in (can_sign_in u.accounts user))
      then signed_out
      else (some user, [])

  abbrev visitor_of : Option Session → M S Visitor
  visitor_of none = pure (none, [])
  visitor_of (some s) =
      recover (do user ← read (get_user u.accounts s.user_id); pure (of_session s user))
        (λ e. if is_no_such_user e then pure signed_out else fail e)

  -- `CurrentUser`. One reading of the clock is taken whether or not there is a cookie.
  unfoldable pub current_user : Request → M S Visitor
  current_user r = do t ← clock_reading u.sessions.env; visitor_of (get u.sessions t r.sender)

  -- `Login`; `url.Values.Encode` makes the query of `return_to`.
  unfoldable pub login : String → Reply
  login return_to = redirect (
      text_append (url u path_login)
        (text_append "?" (u.env.url_encode (("return_to", return_to ∷ []) ∷ []))))

  -- `Consent`
  unfoldable pub consent : Request → ConsentRequest → M S Reply
  consent r req =
      let name = if req.client.name == "" then req.client.client_id else req.client.name in
      render u r 200 "consent" (record (titled (text_append "Authorize " name)) {
        user = some req.user;
        data_of = consent_data (record {
          client_name = name;
          description = req.client.description;
          scopes = req.scopes;
          action = req.action;
          params = req.params;
        });
      })

  -- `VerifyConsent`
  unfoldable pub verify_consent : Request → Bool
  verify_consent r = verify_csrf u.sessions r.sender

  -- `Error`
  unfoldable pub error_page : Request → OauthError → M S Reply
  error_page r e =
      let status = if eqb e.status 0 || eqb e.status 401 then 400 else e.status in
      let text = if e.description == "" then e.code else e.description in
      message u r status "Authorization failed"
        (text_append "The authorization request is invalid: " (text_append text ".")) []
