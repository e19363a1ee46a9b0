-- ===== src/Ui/Registration.antt =====
-- pkg/ui/ui.go: registration and activation.
use go_identity.Common.{ℕ, String, List, [], ◌∷◌, ◌!=◌, not, get_value, text_append, if◌then◌else◌}
use go_identity.Failure.{AccountError, Result, ok, err, account, validation}
use go_identity.Effect.{M, ◌>>=◌, attempt}
use go_identity.Identity.User.{User}
use go_identity.Account.Users.{register}
use go_identity.Account.UserTokens.{activate, resend_activation}
use go_identity.Ui.{
  Ui, Request, Reply, EmailFormData, url, render, message, server_error, titled, csrf_holds,
  csrf_message, trimmed, link, capitalize, password_page_data, email_form_data, path_login,
  path_activation_resend,
}

-- `resendData`
abbrev resend_data : EmailFormData
resend_data = record {
  intro = "Enter the email address of your account and we'll send you a new activation link.";
  action = path_activation_resend;
  button = "Send activation link";
}

module _ {S : Type 0} (u : Ui S) where
  -- `registerPage`
  unfoldable pub register_page : Request → M S Reply
  register_page r =
      render u r 200 "register"
        (record (titled "Create an account") { data_of = password_page_data u })

  -- The page of a refused registration.
  unfoldable pub register_failed : Request → List (String × String) → ℕ → String → M S Reply
  register_failed r form status text =
      render u r status "register" (record (titled "Create an account") {
        error = text;
        form = form;
        data_of = password_page_data u;
      })

  abbrev registered : Request → String → M S Reply
  registered r email =
      if u.accounts.opts.require_activation
      then message u r 200 "Check your email"
          (text_append "Your account has been created. We sent an activation link to "
            (text_append email ". Please follow the link to activate your account."))
          (link (url u path_activation_resend) "Didn't receive the email?")
      else message u r 200 "Account created" "Your account has been created."
          (link (url u path_login) "Sign in")

  -- The rest of `registerSubmit` after `Register`.
  unfoldable pub finish_registration :
      Request → List (String × String) → String → Result User → M S Reply
  finish_registration r form email (ok user) = registered r email
  finish_registration r form email (err (validation field text)) =
      register_failed r form 400
        (text_append (capitalize u.to_upper (text_append field (text_append " " text))) ".")
  finish_registration r form email (err (account AccountError.user_exists)) =
      register_failed r form 409 "The username or email address is already in use."
  finish_registration r form email (err other_error) = server_error u r

  -- `registerSubmit`
  unfoldable pub register_submit : Request → M S Reply
  register_submit r =
      let username = trimmed u r "username" in
      let email = trimmed u r "email" in
      let form = ("username", username) ∷ ("email", email) ∷ [] in
      let password = get_value r.post_form "password" in
      if not (csrf_holds u r)
      then register_failed r form 400 csrf_message
      else if password != get_value r.post_form "password_confirm"
      then register_failed r form 400 "The passwords don't match."
      else (do
        outcome ← attempt (register u.accounts username email password)
        finish_registration r form email outcome)

  unfoldable pub finish_activation : Request → Result User → M S Reply
  finish_activation r (ok user) =
      message u r 200 "Account activated" "Your account is activated. You can now sign in."
        (link (url u path_login) "Sign in")
  finish_activation r (err (account AccountError.invalid_token)) =
      message u r 400 "Activation failed" "The activation link is invalid or has expired."
        (link (url u path_activation_resend) "Send a new activation link")
  finish_activation r (err other_error) = server_error u r

  -- `activate`
  unfoldable pub activate_page : Request → M S Reply
  activate_page r = do
    outcome ← attempt (activate u.accounts (get_value r.query "token"))
    finish_activation r outcome

  -- `resendPage`
  unfoldable pub resend_page : Request → M S Reply
  resend_page r =
      render u r 200 "email_form"
        (record (titled "Activate your account") { data_of = email_form_data resend_data })

  abbrev finish_resend : Request → String → Result (Unit {0}) → M S Reply
  finish_resend r email (err e) = server_error u r
  finish_resend r email (ok done) =
      message u r 200 "Check your email"
        (text_append "If an account that is not activated yet exists for "
          (text_append email ", we sent a new activation link to it."))
        (link (url u path_login) "Back to sign in")

  -- `resendSubmit`
  unfoldable pub resend_submit : Request → M S Reply
  resend_submit r =
      let email = trimmed u r "email" in
      if not (csrf_holds u r)
      then render u r 400 "email_form" (record (titled "Activate your account") {
        error = csrf_message;
        form = ("email", email) ∷ [];
        data_of = email_form_data resend_data;
      })
      else (do
        outcome ← attempt (resend_activation u.accounts email)
        finish_resend r email outcome)
