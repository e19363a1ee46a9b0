-- ===== src/Ui/Login.antt =====
-- pkg/ui/ui.go: the home page, signing in and signing out.
pub mod Sound
use go_identity.Common.{
  ℕ, String, Bool, true, false, ◌&&◌, List, [], ◌∷◌, ◌++◌, Option, none, some, ◌==◌, ◌!=◌, not,
  get_value, if◌then◌else◌,
}
use go_identity.Failure.{AccountError, Error, Result, ok, err, account}
use go_identity.Effect.{M, ◌>>=◌, pure, attempt, clock_reading}
use go_identity.Identity.User.{User}
use go_identity.Account.Authenticate.{authenticate}
use go_identity.Session.{Cookie, create, destroy}
use go_identity.Ui.{
  Ui, Request, Page, Reply, url, redirect, with_cookie, render, message, server_error, titled,
  csrf_holds, csrf_message, trimmed, safe_return_to, link, login_data, path_login,
}
use go_identity.Ui.Interaction.{Visitor, current_user}

-- The cookies that were set before the response.
abbrev pub after_cookies : List Cookie → Reply → Reply
after_cookies cookies reply = record reply { cookies = cookies ++ reply.cookies }

-- The message of a refused sign-in, and whether the activation is offered; `none` is another error.
abbrev login_message : Error → Option (String × Bool)
login_message (account AccountError.invalid_credentials) =
    some ("Invalid username or password.", false)
login_message (account AccountError.locked_out) = some (
  "Your account is temporarily locked because of too many failed sign in attempts. Please try again later.",
  false,
)
login_message (account AccountError.disabled) = some ("Your account is disabled.", false)
login_message (account AccountError.not_activated) =
    some ("Your account is not activated yet. Please use the link in the activation email.", true)
login_message other_error = none

module _ {S : Type 0} (u : Ui S) where
  -- A page for the current user, or for nobody; an error of the store is a page too.
  abbrev visited : Request → (Option User → M S Reply) → Result Visitor → M S Reply
  visited r f (err e) = server_error u r
  visited r f (ok (user, cookies)) = do reply ← f user; pure (after_cookies cookies reply)

  abbrev for_visitor : Request → (Option User → M S Reply) → M S Reply
  for_visitor r f = do visitor ← attempt (current_user u r); visited r f visitor

  abbrev home_page : Request → Option User → M S Reply
  home_page r none = pure (redirect (url u path_login))
  home_page r (some user) =
      render u r 200 "home" (record (titled "Your account") { user = some user })

  -- `home`
  unfoldable pub home : Request → M S Reply
  home r = for_visitor r (home_page r)

  abbrev pub login_shown : List (String × String) → String → Bool → Page
  login_shown form message show_resend = record (titled "Sign in") {
    error = message;
    form = form;
    data_of =
        login_data
          (record { allow_registration = u.allow_registration; show_resend = show_resend });
  }

  -- `renderLogin`
  unfoldable pub render_login : Request → ℕ → List (String × String) → String → Bool → M S Reply
  render_login r status form message show_resend =
      render u r status "login" (login_shown form message show_resend)

  abbrev is_present : Option User → Bool
  is_present none = false
  is_present (some user) = true

  -- `loginPage`
  unfoldable pub login_page : Request → M S Reply
  login_page r =
      let return_to = safe_return_to u (get_value r.query "return_to") in
      for_visitor r (λ user.
        if is_present user && get_value r.query "prompt" != "login"
        then pure (redirect return_to)
        else render_login r 200 (("return_to", return_to) ∷ []) "" false)

  abbrev pub refused_login : Request → List (String × String) → Option (String × Bool) → M S Reply
  refused_login r form none = server_error u r
  refused_login r form (some (message, show_resend)) = render_login r 401 form message show_resend

  -- The rest of `loginSubmit` once the password was checked.
  unfoldable pub finish_login : Request → List (String × String) → String → Result User → M S Reply
  finish_login r form return_to (err e) = refused_login r form (login_message e)
  finish_login r form return_to (ok user) = do
    t ← clock_reading u.sessions.env
    let (s, c) = create u.sessions t user.id user.security_stamp
    pure (with_cookie c (redirect return_to))

  -- `loginSubmit`
  unfoldable pub login_submit : Request → M S Reply
  login_submit r =
      let login = trimmed u r "login" in
      let return_to = safe_return_to u (get_value r.post_form "return_to") in
      let form = ("login", login) ∷ ("return_to", return_to) ∷ [] in
      if not (csrf_holds u r) then render_login r 400 form csrf_message false else (do
        outcome ← attempt (authenticate u.accounts login (get_value r.post_form "password"))
        finish_login r form return_to outcome)

  abbrev logout_for : Request → Option User → M S Reply
  logout_for r none =
      message u r 200 "Signed out" "You are signed out." (link (url u path_login) "Sign in")
  logout_for r (some user) =
      render u r 200 "logout" (record (titled "Sign out") { user = some user })

  -- `logoutPage`
  unfoldable pub logout_page : Request → M S Reply
  logout_page r = for_visitor r (logout_for r)

  -- `logoutSubmit`
  unfoldable pub logout_submit : Request → M S Reply
  logout_submit r =
      if not (csrf_holds u r)
      then render u r 400 "logout" (record (titled "Sign out") { error = csrf_message })
      else (do
        reply ←
            message u r 200 "Signed out" "You have been signed out."
              (link (url u path_login) "Sign in again")
        pure (with_cookie (destroy u.sessions) reply))
