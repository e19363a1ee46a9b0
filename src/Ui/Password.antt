-- ===== src/Ui/Password.antt =====
-- pkg/ui/ui.go: forgotten passwords.
pub mod Uniform
use go_identity.Common.{
  ℕ, String, Bool, true, false, List, [], ◌∷◌, ◌!=◌, not, get_value, text_append, if◌then◌else◌,
}
use go_identity.Failure.{AccountError, Error, Result, ok, err, account, validation}
use go_identity.Effect.{M, ◌>>=◌, pure, attempt}
use go_identity.Identity.User.{User}
use go_identity.Account.Password.{
  request_password_reset, verify_password_reset_token, reset_password,
}
use go_identity.Session.{destroy}
use go_identity.Ui.{
  Ui, Request, Reply, EmailFormData, url, with_cookie, render, message, server_error, titled,
  csrf_holds, csrf_message, trimmed, link, capitalize, password_page_data, email_form_data,
  path_login, path_password_forgot,
}

-- `forgotData`
abbrev forgot_data : EmailFormData
forgot_data = record {
  intro =
      "Enter the email address of your account and we'll send you a link to choose a new password.";
  action = path_password_forgot;
  button = "Send reset link";
}

module _ {S : Type 0} (u : Ui S) where
  -- `forgotPage`
  unfoldable pub forgot_page : Request → M S Reply
  forgot_page r =
      render u r 200 "email_form"
        (record (titled "Forgot your password?") { data_of = email_form_data forgot_data })

  abbrev finish_forgot : Request → String → Result (Unit {0}) → M S Reply
  finish_forgot r email (err e) = server_error u r
  finish_forgot r email (ok done) =
      message u r 200 "Check your email"
        (text_append "If an account exists for "
          (text_append email ", we sent a link to reset the password."))
        (link (url u path_login) "Back to sign in")

  -- `forgotSubmit`
  unfoldable pub forgot_submit : Request → M S Reply
  forgot_submit r =
      let email = trimmed u r "email" in
      if not (csrf_holds u r)
      then render u r 400 "email_form" (record (titled "Forgot your password?") {
        error = csrf_message;
        form = ("email", email) ∷ [];
        data_of = email_form_data forgot_data;
      })
      else (do
        outcome ← attempt (request_password_reset u.accounts email)
        finish_forgot r email outcome)

  -- `invalidResetLink`
  unfoldable pub invalid_reset_link : Request → M S Reply
  invalid_reset_link r =
      message u r 400 "Reset your password" "The password reset link is invalid or has expired."
        (link (url u path_password_forgot) "Request a new link")

  unfoldable pub finish_reset_page : Request → String → Result (Unit {0}) → M S Reply
  finish_reset_page r token (ok valid) =
      render u r 200 "password_reset" (record (titled "Choose a new password") {
        form = ("token", token) ∷ [];
        data_of = password_page_data u;
      })
  finish_reset_page r token (err (account AccountError.invalid_token)) = invalid_reset_link r
  finish_reset_page r token (err other_error) = server_error u r

  -- `resetPage`
  unfoldable pub reset_page : Request → M S Reply
  reset_page r = do
    let token = get_value r.query "token"
    outcome ← attempt (verify_password_reset_token u.accounts token)
    finish_reset_page r token outcome

  -- The page of a refused password.
  unfoldable pub reset_failed : Request → String → ℕ → String → M S Reply
  reset_failed r token status text =
      render u r status "password_reset" (record (titled "Choose a new password") {
        error = text;
        form = ("token", token) ∷ [];
        data_of = password_page_data u;
      })

  -- The rest of `resetSubmit` after `ResetPassword`.
  unfoldable pub finish_reset : Request → String → Result User → M S Reply
  finish_reset r token (ok user) = do
    reply ←
        message u r 200 "Password changed"
          "Your password has been changed. You can now sign in with your new password."
          (link (url u path_login) "Sign in")
    pure (with_cookie (destroy u.sessions) reply)
  finish_reset r token (err (validation field text)) =
      reset_failed r token 400
        (text_append (capitalize u.to_upper (text_append field (text_append " " text))) ".")
  finish_reset r token (err (account AccountError.invalid_token)) = invalid_reset_link r
  finish_reset r token (err other_error) = server_error u r

  -- `resetSubmit`
  unfoldable pub reset_submit : Request → M S Reply
  reset_submit r =
      let token = get_value r.post_form "token" in
      let password = get_value r.post_form "password" in
      if not (csrf_holds u r)
      then reset_failed r token 400 csrf_message
      else if password != get_value r.post_form "password_confirm"
      then reset_failed r token 400 "The passwords don't match."
      else (do
        outcome ← attempt (reset_password u.accounts token password)
        finish_reset r token outcome)
