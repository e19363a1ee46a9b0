-- ===== src/Ui/Pages.antt =====
-- The status of the pages, and the cookies that they set.
use go_identity.Common.{ℕ, String, ◌≡◌, refl, sym, ap, subst, List, All, ◌==◌, Bool-cases, inl, inr}
use go_identity.Failure.{ok}
use go_identity.Effect.{World}
use go_identity.Effect.Inversion.{>>=-eq-ok, pure-eq}
use go_identity.Security.{random_token}
use go_identity.Session.{Manager, Cookie, Sender, csrf_cookie_value, csrf_token}
use go_identity.Ui.{
  Ui, Request, Page, Reply, Link, render, message, server_error, titled, message_data,
}

-- Only the cookie of the CSRF protection is set, if any.
abbrev pub SetsCsrfOnly : Manager → List Cookie → Type 0
SetsCsrfOnly m cookies = All (λ (c : Cookie). c.name ≡ m.opts.csrf_cookie_name) cookies

csrf_token-SetsCsrfOnly :
    {S : Type 0} (m : Manager) (r : Sender) (w : World S) {token : String} {cookies : List Cookie}
    {w' : World S}
    → csrf_token m r w ≡ (ok (token, cookies), w')
    → SetsCsrfOnly m cookies
unfolding csrf_token
csrf_token-SetsCsrfOnly m r w h = elim (Bool-cases (csrf_cookie_value m r == "")) [
  | inl e ↦
      let (drawn, v, p, h₁) = >>=-eq-ok (random_token m.env 32) _ w (rw e at h) in
      let (same, stays) = pure-eq _ v h₁ in
      subst (λ (p : String × List Cookie). SetsCsrfOnly m p.1) same (refl, tt)
  | inr e ↦
      let (same, stays) = pure-eq _ w (rw e at h) in
      subst (λ (p : String × List Cookie). SetsCsrfOnly m p.1) same tt
]

module _ {S : Type 0} (u : Ui S) (r : Request) where
  pub render-status :
      (status : ℕ) (name : String) (shown : Page) (w : World S) {reply : Reply} {w' : World S}
      → render u r status name shown w ≡ (ok reply, w')
      → reply.status ≡ status
  unfolding render
  render-status status name shown w h =
      let (p, v, e, h₁) = >>=-eq-ok (csrf_token u.sessions r.sender) _ w h in
      let (same, stays) = pure-eq _ _ h₁ in ap (λ x. x.status) (sym same)

  pub message-status :
      (status : ℕ) (title text : String) (links : List Link) (w : World S) {reply : Reply}
      {w' : World S}
      → message u r status title text links w ≡ (ok reply, w')
      → reply.status ≡ status
  unfolding message
  message-status status title text links w h =
      render-status status "message"
        (record (titled title) {
          data_of = message_data (record { message = text; links = links });
        })
        w h

  pub server_error-status :
      (w : World S) {reply : Reply} {w' : World S}
      → server_error u r w ≡ (ok reply, w')
      → reply.status ≡ 500
  unfolding server_error
  server_error-status w h = message-status 500 _ _ _ w h

  pub render-SetsCsrfOnly :
      (status : ℕ) (name : String) (shown : Page) (w : World S) {reply : Reply} {w' : World S}
      → render u r status name shown w ≡ (ok reply, w')
      → SetsCsrfOnly u.sessions reply.cookies
  unfolding render
  render-SetsCsrfOnly status name shown w h =
      let ((token, cookies), v, e, h₁) = >>=-eq-ok (csrf_token u.sessions r.sender) _ w h in
      let (same, stays) = pure-eq _ _ h₁ in
      subst (λ (x : Reply). SetsCsrfOnly u.sessions x.cookies) same
        (csrf_token-SetsCsrfOnly u.sessions r.sender w e)

  pub message-SetsCsrfOnly :
      (status : ℕ) (title text : String) (links : List Link) (w : World S) {reply : Reply}
      {w' : World S}
      → message u r status title text links w ≡ (ok reply, w')
      → SetsCsrfOnly u.sessions reply.cookies
  unfolding message
  message-SetsCsrfOnly status title text links w h =
      render-SetsCsrfOnly status "message"
        (record (titled title) {
          data_of = message_data (record { message = text; links = links });
        })
        w h

  pub server_error-SetsCsrfOnly :
      (w : World S) {reply : Reply} {w' : World S}
      → server_error u r w ≡ (ok reply, w')
      → SetsCsrfOnly u.sessions reply.cookies
  unfolding server_error
  server_error-SetsCsrfOnly w h = message-SetsCsrfOnly 500 _ _ _ w h
