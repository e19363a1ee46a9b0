-- ===== src/Ui/Login/Sound.antt =====
-- Who gets a session from the form of the login page.
use go_identity.Common.{
  ℕ, String, ◌≡◌, refl, ◌≢◌, sym, ap, ◌∙◌, ◌⊎◌, Bool, true, false, ◌&&◌, &&-true, List, [], ◌∷◌,
  Option, none, some, arith, Bool-cases, inl, inr, get_value,
}
use go_identity.Failure.{Result, ok, err}
use go_identity.Effect.{World, M, ◌>>=◌, clock_reading, unix}
use go_identity.Effect.Inversion.{pure-eq}
use go_identity.Identity.User.{User}
use go_identity.Account.Authenticate.{authenticate}
use go_identity.Session.{
  Session, Cookie, sign, create, session_value, csrf_cookie_value, verify_csrf,
}
use go_identity.Session.Csrf.{posted_token, verify_csrf-cookie}
use go_identity.Ui.{
  Ui, Request, Reply, redirect_to, csrf_holds, csrf_message, trimmed, safe_return_to,
}
use go_identity.Ui.Pages.{
  SetsCsrfOnly, render-status, server_error-status, render-SetsCsrfOnly, server_error-SetsCsrfOnly,
}
use go_identity.Ui.Login.{
  login_submit, finish_login, render_login, login_shown, refused_login, login_message,
}

module _ {S : Type 0} (u : Ui S) (r : Request) where
  -- The address that a sign-in returns to.
  abbrev pub destination : String
  destination = safe_return_to u (get_value r.post_form "return_to")

  -- The password check of the form.
  abbrev pub checked : M S User
  checked = authenticate u.accounts (trimmed u r "login") (get_value r.post_form "password")

  -- A sign-in that succeeded: the posted token is the one that is signed for the CSRF cookie, the
  -- password was right, and the response is a redirection that sets a session of that user only.
  pub record IsSignedIn (w : World S) (reply : Reply) : Type 0 where
    pub form_parsed : r.form_parsed ≡ true
    pub csrf_cookie : csrf_cookie_value u.sessions r.sender ≢ ""
    pub csrf_token :
        posted_token r.sender ≡ sign u.sessions "csrf" (csrf_cookie_value u.sessions r.sender)
    pub user : User
    pub after : World S
    pub authenticated : checked w ≡ (ok user, after)
    pub session : Session
    pub of_user : session.user_id ≡ user.id
    pub stamped : session.security_stamp ≡ user.security_stamp
    pub started : session.auth_time ≡ unix (u.sessions.env.clock after.ticks)
    pub set_cookie : Cookie
    pub named : set_cookie.name ≡ u.sessions.opts.cookie_name
    pub valued : set_cookie.value ≡ session_value u.sessions session
    pub answered :
        reply ≡ record { status = 303; cookies = set_cookie ∷ []; body = redirect_to destination }

  -- A sign-in that failed: the form was forged or the password check did not return a user, and the
  -- response is no redirection and sets no cookie but the one of the CSRF protection.
  pub record IsRefused (w : World S) (reply : Reply) : Type 0 where
    pub reason :
        ((r.form_parsed && verify_csrf u.sessions r.sender) ≡ false)
        ⊎ ((user : User) → (checked w).0 ≢ ok user)
    pub no_redirect : reply.status ≢ 303
    pub no_session : SetsCsrfOnly u.sessions reply.cookies

  -- A page: neither a redirection nor a new session.
  abbrev IsPage : Reply → Type 0
  IsPage reply = (reply.status ≢ 303) × SetsCsrfOnly u.sessions reply.cookies

  render_login-IsPage :
      (status : ℕ) (form : List (String × String)) (message : String) (resend : Bool) (w : World S)
      {reply : Reply} {w' : World S}
      → status ≢ 303
      → render_login u r status form message resend w ≡ (ok reply, w')
      → IsPage reply
  unfolding render_login
  render_login-IsPage status form message resend w other h = (
    λ e. other (sym (render-status u r status "login" (login_shown u form message resend) w h) ∙ e),
    render-SetsCsrfOnly u r status "login" (login_shown u form message resend) w h,
  )

  refused_login-IsPage :
      (form : List (String × String)) (o : Option (String × Bool)) (w : World S) {reply : Reply}
      {w' : World S}
      → refused_login u r form o w ≡ (ok reply, w')
      → IsPage reply
  refused_login-IsPage form none w h = (
    λ e. let s = server_error-status u r w h in absurd (ground arith),
    server_error-SetsCsrfOnly u r w h,
  )
  refused_login-IsPage form (some (message, resend)) w h =
      render_login-IsPage 401 form message resend w (ground arith) h

  finish_login_sound :
      (form : List (String × String)) (w : World S) (o : Result User) (v : World S) (reply : Reply)
      (w' : World S)
      → (r.form_parsed && verify_csrf u.sessions r.sender) ≡ true
      → checked w ≡ (o, v)
      → finish_login u r form destination o v ≡ (ok reply, w')
      → IsSignedIn w reply ⊎ IsRefused w reply
  unfolding finish_login ◌>>=◌ clock_reading create
  finish_login_sound form w (ok user) v reply w' valid e h =
      let (parsed, token) = &&-true r.form_parsed (verify_csrf u.sessions r.sender) valid in
      let (known, posted, same) = verify_csrf-cookie u.sessions r.sender w token in
      inl (record {
        form_parsed = parsed;
        csrf_cookie = known;
        csrf_token = same;
        user = user;
        after = v;
        authenticated = e;
        session = (create u.sessions (u.sessions.env.clock v.ticks) user.id user.security_stamp).0;
        of_user = refl;
        stamped = refl;
        started = refl;
        set_cookie =
            (create u.sessions (u.sessions.env.clock v.ticks) user.id user.security_stamp).1;
        named = refl;
        valued = refl;
        answered = sym (pure-eq _ _ h).0;
      })
  finish_login_sound form w (err x) v reply w' valid e h =
      let (no_redirect, no_session) = refused_login-IsPage form (login_message x) v h in
      inr (record {
        reason = inr (λ user same. absurd (cc (ap (λ p. p.0) e, same)));
        no_redirect = no_redirect;
        no_session = no_session;
      })

  -- The form of the login page is answered in one of two ways. Either the form was read and has the
  -- token of its CSRF cookie, the named user may sign in with the given password, and the response is
  -- a redirection to the safe address that sets a session cookie of that user; or the form does not
  -- pass the CSRF protection or the password check does not return a user, and the response is no
  -- redirection and sets no cookie but the one of the CSRF protection.
  pub login_submit_sound :
      (w : World S) (reply : Reply) (w' : World S)
      → login_submit u r w ≡ (ok reply, w')
      → IsSignedIn w reply ⊎ IsRefused w reply
  unfolding login_submit ◌>>=◌ csrf_holds
  login_submit_sound w reply w' h =
      elim (Bool-cases (r.form_parsed && verify_csrf u.sessions r.sender)) [
        | inl valid ↦ finish_login_sound _ w _ _ reply w' valid refl (rw valid at h)
        | inr forged ↦
            let (no_redirect, no_session) =
              render_login-IsPage 400 _ csrf_message false w (ground arith) (rw forged at h) in
            inr (record { reason = inl forged; no_redirect = no_redirect; no_session = no_session })
      ]
