-- ===== src/Session/Csrf.antt =====
-- Which posted tokens pass the CSRF protection.
use go_identity.Common.{
  String, ◌≡◌, ◌≢◌, ◌↔◌, ap, sym, true, List, [], ◌==◌, ◌!=◌, arith, eq_iff, Bool-cases, inl, inr,
  ◌∙◌, &&-true, eq_of_test, ne_of_test, if◌then◌else◌,
}
use go_identity.Failure.{Result, ok, err}
use go_identity.Effect.{World, ◌>>=◌}
use go_identity.Session.{Manager, Sender, Cookie, sign, csrf_cookie_value, csrf_token, verify_csrf}

-- The token that a request posts: the header, or the form field if there is none.
abbrev pub posted_token : Sender → String
posted_token r = if r.csrf_header == "" then r.csrf_form else r.csrf_header

module _ {S : Type 0} (m : Manager) (r : Sender) (w : World S) where
  pub verify_csrf-cookie :
      verify_csrf m r ≡ true
      → (csrf_cookie_value m r ≢ "")
        × (posted_token r ≢ "")
        × (posted_token r ≡ sign m "csrf" (csrf_cookie_value m r))
  unfolding verify_csrf
  verify_csrf-cookie h = elim (Bool-cases (csrf_cookie_value m r == "")) [
    | inl e ↦ absurd (ground arith)
    | inr e ↦
        let (posted, same) = &&-true (posted_token r != "") _ (ground arith) in
        (ne_of_test _ _ e, ne_of_test _ _ (ground arith), eq_of_test _ _ same)
  ]

  pub csrf_token-known :
      csrf_cookie_value m r ≢ ""
      → csrf_token m r w ≡ (ok (sign m "csrf" (csrf_cookie_value m r), []), w)
  unfolding csrf_token ◌>>=◌
  csrf_token-known h = grind (arith, eq_iff (csrf_cookie_value m r) "")

  known-csrf_token :
      (token : String)
      → csrf_token m r w ≡ (ok (token, []), w)
      → (csrf_cookie_value m r ≢ "") × (token ≡ sign m "csrf" (csrf_cookie_value m r))
  unfolding csrf_token ◌>>=◌
  known-csrf_token token h = elim (Bool-cases (csrf_cookie_value m r == "")) [
    | inl e ↦ absurd (ground arith)
    | inr e ↦ (
      ne_of_test _ _ e,
      ap (λ p. token_of p.0) (sym h) ∙ ap (λ p. token_of p.0) (csrf_token-known (ne_of_test _ _ e)),
    )
  ]
    where
      token_of : Result (String × List Cookie) → String
      token_of (ok p) = p.0
      token_of (err e) = ""

  passes :
      csrf_cookie_value m r ≢ ""
      → posted_token r ≢ ""
      → posted_token r ≡ sign m "csrf" (csrf_cookie_value m r)
      → verify_csrf m r ≡ true
  unfolding verify_csrf
  passes known posted same = grind (
    arith,
    eq_iff (csrf_cookie_value m r) "",
    eq_iff (posted_token r) "",
    eq_iff (posted_token r) (sign m "csrf" (csrf_cookie_value m r)),
  )

  -- A request passes the CSRF protection exactly when its posted token is not empty and is the one
  -- that is issued for its cookies without setting a new cookie.
  pub verify_csrf_iff :
      (verify_csrf m r ≡ true)
      ↔ ((posted_token r ≢ "") × (csrf_token m r w ≡ (ok (posted_token r, []), w)))
  verify_csrf_iff = (
    λ h.
        let (known, posted, same) = verify_csrf-cookie h in
        (posted, csrf_token-known known ∙ ap (λ t. (ok (t, []), w)) (sym same)),
    λ p. let (known, same) = known-csrf_token (posted_token r) p.1 in passes known p.0 same,
  )
