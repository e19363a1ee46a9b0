-- ===== src/Oauth/Grants/Replay.antt =====
-- A code that is presented again.
use go_identity.Common.{suc, ◌≡◌, refl, ◌≢◌, String, true, false, arith, ◌∙◌, ◌!=◌, eq_iff}
use go_identity.Failure.{ok, err}
use go_identity.Effect.{Env, World, ◌>>=◌, map_error, refuse_if, now, when}
use go_identity.Security.{hash_token}
use go_identity.Identity.Token.{AuthorizationCode, is_consumed}
use go_identity.Memory.{memory_store}
use go_identity.Memory.State.{Memory, access_token_fields, refresh_token_fields}
use go_identity.Memory.Table.{get, get-delete_where}
use go_identity.Memory.Sweep.{IsRevoked, match_token-code, unless_holds-same}
use go_identity.Memory.Invariant.{IsWellFormed}
use go_identity.Memory.AccessTokens.{delete_access_tokens}
use go_identity.Memory.RefreshTokens.{delete_refresh_tokens}
use go_identity.Oauth.Params.{param, required_param}
use go_identity.Oauth.Server.{Server}
use go_identity.Oauth.Tokens.{revoke_grant}
use go_identity.Oauth.Grants.{
  TokenRequest, invalid_grant, refuse_used_code, authorization_code_grant,
}

-- The server over the in-memory store.
abbrev pub in_memory : Env → Server Memory → Server Memory
in_memory env srv = record srv { store = memory_store env }

module _ (env : Env) (srv : Server Memory) where
  -- On a well-formed in-memory store, revoking a grant succeeds, deletes every access and refresh
  -- token that was issued for the authorization code, and keeps every other one as it is.
  pub revoke_grant_sweeps :
      (code_id : String) (w : World Memory)
      → code_id ≢ ""
      → IsWellFormed w.db
      → ((revoke_grant (in_memory env srv) code_id w).0 ≡ ok tt)
        × IsRevoked
            (λ t. t.authorization_code_id)
            code_id
            w.db.access_tokens
            (revoke_grant (in_memory env srv) code_id w).1.db.access_tokens
        × IsRevoked
            (λ t. t.authorization_code_id)
            code_id
            w.db.refresh_tokens
            (revoke_grant (in_memory env srv) code_id w).1.db.refresh_tokens
  unfolding revoke_grant ◌>>=◌ delete_access_tokens delete_refresh_tokens
  revoke_grant_sweeps code_id w n h = (
    refl,
    λ id.
        get-delete_where _ id w.db.access_tokens h.access_tokens.map
        ∙ unless_holds-same _ _ (get id w.db.access_tokens)
            (λ t. match_token-code code_id (access_token_fields t) n),
    λ id.
        get-delete_where _ id w.db.refresh_tokens h.refresh_tokens.map
        ∙ unless_holds-same _ _ (get id w.db.refresh_tokens)
            (λ t. match_token-code code_id (refresh_token_fields t) n),
  )

  -- The steps of the exchange up to the refusal.
  refused_used :
      (req : TokenRequest) (value redirect_uri code_verifier : String) (code : AuthorizationCode)
      (w : World Memory)
      → required_param req.form "code" ≡ ok value
      → param req.form "redirect_uri" ≡ ok redirect_uri
      → param req.form "code_verifier" ≡ ok code_verifier
      → (memory_store env).get_authorization_code_by_hash (hash_token srv.env value) w.db ≡ ok code
      → (code.client_id != req.client.id) ≡ false
      → is_consumed code ≡ true
      → authorization_code_grant (in_memory env srv) req w ≡ (
        err (invalid_grant "the authorization code was already used"),
        (revoke_grant (in_memory env srv) code.id (record w { ticks = suc w.ticks })).1,
      )
  unfolding authorization_code_grant ◌>>=◌ refuse_used_code revoke_grant map_error refuse_if now
      delete_access_tokens delete_refresh_tokens when
  refused_used req value redirect_uri code_verifier code w p q r g c used =
      rw (p, q, r, g, c, used) refl

  -- Presenting a consumed code again, with the client that it was issued to, is refused with
  -- invalid_grant, and afterwards the well-formed in-memory store holds no access or refresh token
  -- that was issued for the code, and every other token as before.
  pub authorization_code_grant_replay :
      (req : TokenRequest) (value redirect_uri code_verifier : String) (code : AuthorizationCode)
      (w : World Memory)
      → required_param req.form "code" ≡ ok value
      → param req.form "redirect_uri" ≡ ok redirect_uri
      → param req.form "code_verifier" ≡ ok code_verifier
      → (memory_store env).get_authorization_code_by_hash (hash_token srv.env value) w.db ≡ ok code
      → code.client_id ≡ req.client.id
      → is_consumed code ≡ true
      → code.id ≢ ""
      → IsWellFormed w.db
      → ((authorization_code_grant (in_memory env srv) req w).0
          ≡ err (invalid_grant "the authorization code was already used"))
        × IsRevoked
            (λ t. t.authorization_code_id)
            code.id
            w.db.access_tokens
            (authorization_code_grant (in_memory env srv) req w).1.db.access_tokens
        × IsRevoked
            (λ t. t.authorization_code_id)
            code.id
            w.db.refresh_tokens
            (authorization_code_grant (in_memory env srv) req w).1.db.refresh_tokens
  authorization_code_grant_replay req value redirect_uri code_verifier code w p q r g c used n h =
      let e =
        refused_used req value redirect_uri code_verifier code w p q r g
          (ground (arith, eq_iff code.client_id req.client.id)) used in
      let (done, access, refresh) =
        revoke_grant_sweeps code.id (record w { ticks = suc w.ticks }) n h in
      rw e (refl, access, refresh)
