-- ===== src/Ui/Password/Uniform.antt =====
-- What the form for forgotten passwords tells about an address.
use go_identity.Common.{
  ℕ, String, ◌≡◌, refl, ◌≢◌, sym, ap, ◌∙◌, ◌⊎◌, inl, inr, true, ◌&&◌, [], &&-true, text_append,
}
use go_identity.Failure.{Error, Result, ok, err}
use go_identity.Effect.{Message, World, ◌>>=◌, pure, send}
use go_identity.Effect.Inversion.{>>=-ok}
use go_identity.Identity.User.{User, normalize_email}
use go_identity.Store.{err_not_found}
use go_identity.Account.UserTokens.{for_address}
use go_identity.Account.Password.{request_password_reset}
use go_identity.Session.{csrf_cookie_value, sign, verify_csrf}
use go_identity.Session.Csrf.{verify_csrf-cookie, csrf_token-known}
use go_identity.Ui.{
  Ui, Request, Page, Reply, page, render, message, message_data, server_error, titled, csrf_holds,
  trimmed, url, link, path_login,
}
use go_identity.Ui.Password.{forgot_submit}

module _ {S : Type 0} (u : Ui S) (r : Request) where
  -- The page for a sender whose CSRF cookie is known.
  abbrev page_reply : ℕ → String → Page → Reply
  page_reply status name shown = record {
    status = status;
    cookies = [];
    body = page name (record shown {
      app_name = u.application_name;
      csrf = sign u.sessions "csrf" (csrf_cookie_value u.sessions r.sender);
    });
  }

  render-known :
      (status : ℕ) (name : String) (shown : Page) (w : World S)
      → csrf_cookie_value u.sessions r.sender ≢ ""
      → render u r status name shown w ≡ (ok (page_reply status name shown), w)
  unfolding render ◌>>=◌
  render-known status name shown w known = rw (csrf_token-known u.sessions r.sender w known) refl

  abbrev forgot_shown : Page
  forgot_shown = record (titled "Check your email") {
    data_of = message_data (record {
      message =
          text_append "If an account exists for "
            (text_append (trimmed u r "email") ", we sent a link to reset the password.");
      links = link (url u path_login) "Back to sign in";
    });
  }

  -- The response of every request that returns.
  forgot_submit-sent :
      (w : World S)
      → csrf_holds u r ≡ true
      → (request_password_reset u.accounts (trimmed u r "email") w).0 ≡ ok tt
      → forgot_submit u r w ≡ (
        ok (page_reply 200 "message" forgot_shown),
        (request_password_reset u.accounts (trimmed u r "email") w).1,
      )
  unfolding forgot_submit ◌>>=◌ message csrf_holds
  forgot_submit-sent w valid sent =
      let holds : (r.form_parsed && verify_csrf u.sessions r.sender) ≡ true = valid in
      let (parsed, token) = &&-true r.form_parsed (verify_csrf u.sessions r.sender) holds in
      let (known, posted, same) = verify_csrf-cookie u.sessions r.sender w token in
      rw (valid, sent) (render-known 200 "message" forgot_shown _ known)

  abbrev error_shown : Page
  error_shown = record (titled "Something went wrong") {
    data_of =
        message_data (record {
          message = "An unexpected error occurred. Please try again later.";
          links = [];
        });
  }

  -- The response of every request that fails.
  forgot_submit-failed :
      (w : World S) (e : Error)
      → csrf_holds u r ≡ true
      → (request_password_reset u.accounts (trimmed u r "email") w).0 ≡ err e
      → (forgot_submit u r w).0 ≡ ok (page_reply 500 "message" error_shown)
  unfolding forgot_submit ◌>>=◌ server_error message csrf_holds
  forgot_submit-failed w e valid failed =
      let holds : (r.form_parsed && verify_csrf u.sessions r.sender) ≡ true = valid in
      let (parsed, token) = &&-true r.form_parsed (verify_csrf u.sessions r.sender) holds in
      let (known, posted, same) = verify_csrf-cookie u.sessions r.sender w token in
      rw (valid, failed) (ap (λ p. p.0) (render-known 500 "message" error_shown _ known))

  request_password_reset-unknown :
      (email : String) (w : World S)
      → u.accounts.store.get_user_by_normalized_email (normalize_email u.accounts.env email) w.db
        ≡ err err_not_found
      → request_password_reset u.accounts email w ≡ (ok tt, w)
  unfolding request_password_reset for_address pure
  request_password_reset-unknown email w h = rw h refl

  -- A request for an address whose enabled user cannot be sent mail fails.
  request_password_reset-undelivered :
      (email : String) (user : User) (w : World S)
      → u.accounts.store.get_user_by_normalized_email (normalize_email u.accounts.env email) w.db
        ≡ ok user
      → user.enabled ≡ true
      → ((m : Message) → u.accounts.deliver m ≢ ok tt)
      → (request_password_reset u.accounts email w).0 ≢ ok tt
  unfolding request_password_reset for_address send
  request_password_reset-undelivered email user w known enabled refused h =
      let (token, v, p, sent) = >>=-ok _ _ w (rw (known, enabled) at h) in refused _ sent

  Result-cases : (o : Result (Unit {0})) → (o ≡ ok tt) ⊎ ((e : Error) × (o ≡ err e))
  Result-cases (ok done) = inl refl
  Result-cases (err e) = inr (e, refl)

  -- With a valid CSRF token, the form for an address that nobody has changes nothing and sends
  -- nothing. The same form in any other world, where somebody may have the address, gets the same
  -- response if the request of the reset link returns without an error there, and a page with status
  -- 500 if it returns with one.
  pub forgot_submit_uniform :
      (w v : World S)
      → csrf_holds u r ≡ true
      → u.accounts.store.get_user_by_normalized_email
          (normalize_email u.accounts.env (trimmed u r "email"))
          w.db
        ≡ err err_not_found
      → ((forgot_submit u r w).1 ≡ w)
        × ((((request_password_reset u.accounts (trimmed u r "email") v).0 ≡ ok tt)
              × ((forgot_submit u r w).0 ≡ (forgot_submit u r v).0))
            ⊎ (((request_password_reset u.accounts (trimmed u r "email") v).0 ≢ ok tt)
                × ((reply : Reply) × ((forgot_submit u r v).0 ≡ ok reply) × (reply.status ≡ 500))))
  forgot_submit_uniform w v valid unknown =
      let nothing = request_password_reset-unknown (trimmed u r "email") w unknown in
      let first = forgot_submit-sent w valid (ap (λ p. p.0) nothing) in
      (
        ap (λ p. p.1) first ∙ ap (λ p. p.1) nothing,
        elim (Result-cases (request_password_reset u.accounts (trimmed u r "email") v).0) [
          | inl sent ↦
              inl
                (sent, ap (λ p. p.0) first ∙ ap (λ p. p.0) (sym (forgot_submit-sent v valid sent)))
          | inr (e, failed) ↦
              inr (
                λ sent. absurd (cc (sent, failed)),
                (_, forgot_submit-failed v e valid failed, refl),
              )
        ],
      )

  -- While no mail can be delivered, the form tells whether an enabled account has the address: with a
  -- valid CSRF token it is answered with status 200 if nobody has it, and with status 500 if an
  -- enabled user has it.
  pub forgot_submit_discloses :
      (w v : World S) (user : User)
      → csrf_holds u r ≡ true
      → u.accounts.store.get_user_by_normalized_email
          (normalize_email u.accounts.env (trimmed u r "email"))
          w.db
        ≡ err err_not_found
      → u.accounts.store.get_user_by_normalized_email
          (normalize_email u.accounts.env (trimmed u r "email"))
          v.db
        ≡ ok user
      → user.enabled ≡ true
      → ((m : Message) → u.accounts.deliver m ≢ ok tt)
      → ((reply : Reply) × ((forgot_submit u r w).0 ≡ ok reply) × (reply.status ≡ 200))
        × ((reply : Reply) × ((forgot_submit u r v).0 ≡ ok reply) × (reply.status ≡ 500))
  forgot_submit_discloses w v user valid unknown known enabled refused =
      let nothing = request_password_reset-unknown (trimmed u r "email") w unknown in
      let first = forgot_submit-sent w valid (ap (λ p. p.0) nothing) in
      (
        (_, ap (λ p. p.0) first, refl),
        elim (Result-cases (request_password_reset u.accounts (trimmed u r "email") v).0) [
          | inl sent ↦ absurd (
              request_password_reset-undelivered (trimmed u r "email") user v known enabled refused
                sent)
          | inr (e, failed) ↦ (_, forgot_submit-failed v e valid failed, refl)
        ],
      )
