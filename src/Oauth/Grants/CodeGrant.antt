-- ===== src/Oauth/Grants/CodeGrant.antt =====
-- What a successful exchange of an authorization code has checked.
use go_identity.Common.{ℕ, ◌<◌, String, ◌≡◌, ◌≢◌, true, false, none, arith, eq_iff, eq_of_not_ne}
use go_identity.Failure.{Error, ok, store}
use go_identity.Effect.{World, M, ◌>>=◌, ◌>>◌, write, refuse_if, time}
use go_identity.Effect.Inversion.{
  >>=-eq-ok, lift-then, read-then, map_error-then, refuse_if-then, when_failing-then,
  recover_failing-then, now-then,
}
use go_identity.Security.{hash_token}
use go_identity.Security.Pkce.{verify_code_challenge}
use go_identity.Identity.Token.{
  AuthorizationCode, authorization_code_has_expired, is_consumed,
  authorization_code_validate_redirect_uri,
}
use go_identity.Identity.Client.{Client, validate_redirect_uri}
use go_identity.Identity.User.{User}
use go_identity.Account.Service.{can_sign_in}
use go_identity.Oauth.Params.{param, required_param}
use go_identity.Oauth.Server.{Server}
use go_identity.Oauth.Tokens.{TokenResponse}
use go_identity.Oauth.Lookup.{lookup_user_lem}
use go_identity.Oauth.Grants.{
  TokenRequest, redirect_uri_mismatch, refuse_used_code, consume_failed, check_code_verifier,
  redeem_code, authorization_code_grant,
}

module _ {S : Type 0} (srv : Server S) where
  -- What must hold of a code for a client to redeem it in the world `w`, with the redirect_uri and
  -- the code_verifier of its request.
  pub record IsRedeemable (w : World S) (client : Client) (code : AuthorizationCode)
      (redirect_uri verifier : String) : Type 0 where
    pub issued_to : code.client_id ≡ client.id
    pub unused : code.consumed_at ≡ none
    pub unexpired : time srv.env w < code.expires_at
    pub same_redirect : code.redirect_uri ≢ "" → redirect_uri ≡ code.redirect_uri
    pub registered_redirect :
        code.redirect_uri ≡ ""
        → redirect_uri ≢ ""
        → validate_redirect_uri client redirect_uri ≡ true
    pub verified :
        code.code_challenge ≢ ""
        → verify_code_challenge srv.env code.code_challenge code.code_challenge_method verifier
          ≡ true
    pub no_stray_verifier : code.code_challenge ≡ "" → verifier ≡ ""

  not_consumed : (code : AuthorizationCode) → is_consumed code ≡ false → code.consumed_at ≡ none
  unfolding is_consumed
  not_consumed code h = ground arith

  not_expired :
      (code : AuthorizationCode) (t : ℕ)
      → authorization_code_has_expired code t ≡ false
      → t < code.expires_at
  unfolding authorization_code_has_expired
  not_expired code t h = ground arith

  redirect_uri_matches :
      (client : Client) (code : AuthorizationCode) (uri : String)
      → redirect_uri_mismatch client code uri ≡ false
      → (code.redirect_uri ≢ "" → uri ≡ code.redirect_uri)
        × (code.redirect_uri ≡ "" → uri ≢ "" → validate_redirect_uri client uri ≡ true)
  unfolding redirect_uri_mismatch authorization_code_validate_redirect_uri
  redirect_uri_matches client code uri h = (
    λ n. ground (arith, n, eq_iff code.redirect_uri "", eq_iff uri code.redirect_uri),
    λ e n. ground (arith, e, n, eq_iff code.redirect_uri "", eq_iff uri ""),
  )

  refuse_used_code-fails :
      {A : Type 0} (code : AuthorizationCode) (w : World S) {a : A}
      → (refuse_used_code srv {A = A} code w).0 ≢ ok a
  unfolding refuse_used_code ◌>>=◌
  refuse_used_code-fails code w h = ground arith

  consume_failed-fails :
      (code : AuthorizationCode) (e : Error) (w : World S) → (consume_failed srv code e w).0 ≢ ok tt
  unfolding ◌>>=◌
  consume_failed-fails code (store e) w h = ground (arith, refuse_used_code-fails code w {a = tt})
  consume_failed-fails code _ w h = cc

  check_code_verifier-then :
      {B : Type 0} (code : AuthorizationCode) (verifier : String) (k : M S B) (w : World S) {x : B}
      {w' : World S}
      → (check_code_verifier srv code verifier >> k) w ≡ (ok x, w')
      → (code.code_challenge ≢ ""
          → verify_code_challenge srv.env code.code_challenge code.code_challenge_method verifier
            ≡ true)
        × (code.code_challenge ≡ "" → verifier ≡ "")
        × (k w ≡ (ok x, w'))
  unfolding check_code_verifier ◌>>=◌ refuse_if
  check_code_verifier-then code verifier k w h = (
    λ n. ground (arith, eq_iff code.code_challenge "", n),
    λ n. ground (arith, eq_iff code.code_challenge "", eq_iff verifier "", n),
    ground arith,
  )

  -- A redeemed code has been consumed, and its user found and allowed to sign in after that.
  pub record IsRedeemed (db : S) (code : AuthorizationCode) (t : ℕ) : Type 0 where
    pub consumed : (srv.store.consume_authorization_code code.id t db).0 ≡ ok tt
    pub user : User
    pub found :
        srv.store.get_user_by_id code.user_id (srv.store.consume_authorization_code code.id t db).1
        ≡ ok user
    pub active : can_sign_in srv.accounts user ≡ ok tt

  redeem_code-IsRedeemed :
      (client : Client) (code : AuthorizationCode) (t : ℕ) (w : World S) {x : TokenResponse}
      {w' : World S}
      → redeem_code srv client code t w ≡ (ok x, w')
      → IsRedeemed w.db code t
  unfolding redeem_code write
  redeem_code-IsRedeemed client code t w h =
      let (consumed, h₁) = recover_failing-then _ _ _ w (consume_failed-fails code) h in
      let (user, v, looked_up, h₂) = >>=-eq-ok _ _ _ h₁ in
      let (found, active, same) = lookup_user_lem srv code.user_id _ looked_up in
      record { consumed = consumed; user = user; found = found; active = active }

  -- An authorization code is exchanged for tokens only if the store had a code of that hash which
  -- was issued to this client, was not consumed, had not expired, fits the redirect_uri and the
  -- code verifier of the request; only after it was consumed in the store, and only for a user who
  -- may sign in.
  pub authorization_code_grant_sound :
      (req : TokenRequest) (w : World S) (x : TokenResponse) (w' : World S)
      → authorization_code_grant srv req w ≡ (ok x, w')
      → (value : String) × (redirect_uri : String) × (verifier : String)
        × (code : AuthorizationCode) × (required_param req.form "code" ≡ ok value)
        × (param req.form "redirect_uri" ≡ ok redirect_uri)
        × (param req.form "code_verifier" ≡ ok verifier)
        × (srv.store.get_authorization_code_by_hash (hash_token srv.env value) w.db ≡ ok code)
        × IsRedeemable w req.client code redirect_uri verifier
        × IsRedeemed w.db code (time srv.env w)
  unfolding authorization_code_grant
  authorization_code_grant_sound req w x w' h =
      let (value, p, h₁) = lift-then _ _ w h in
      let (uri, q, h₂) = lift-then _ _ w h₁ in
      let (verifier, r, h₃) = lift-then _ _ w h₂ in
      let (code, s, h₄) = read-then _ _ w (map_error-then _ _ _ w h₃) in
      let (issued, h₅) = refuse_if-then _ _ _ w h₄ in
      let h₆ = now-then srv.env _ w h₅ in
      let (unused, h₇) = when_failing-then _ _ _ _ (refuse_used_code-fails code _) h₆ in
      let (unexpired, h₈) = refuse_if-then _ _ _ _ h₇ in
      let (same, h₉) = refuse_if-then _ _ _ _ h₈ in
      let (verified, stray, h₁₀) = check_code_verifier-then code verifier _ _ h₉ in
      (
        value,
        uri,
        verifier,
        code,
        p,
        q,
        r,
        s,
        record {
          issued_to = eq_of_not_ne _ _ issued;
          unused = not_consumed code unused;
          unexpired = not_expired code _ unexpired;
          same_redirect = (redirect_uri_matches req.client code uri same).0;
          registered_redirect = (redirect_uri_matches req.client code uri same).1;
          verified = verified;
          no_stray_verifier = stray;
        },
        redeem_code-IsRedeemed req.client code _ _ h₁₀,
      )
