-- ===== src/Oauth/Revoke/Foreign.antt =====
-- A client cannot revoke the tokens of another one.
use go_identity.Common.{
  ap, ◌≡◌, refl, ◌≢◌, ◌∙◌, String, Bool, true, false, arith, ◌==◌, eq_iff, if◌then◌else◌,
}
use go_identity.Failure.{Result, ok, err}
use go_identity.Effect.{World, M, ◌>>=◌, pure, when, recover, continue}
use go_identity.Security.{hash_token}
use go_identity.Identity.Token.{AccessToken, RefreshToken}
use go_identity.Identity.Client.{Client}
use go_identity.Oauth.Server.{Server}
use go_identity.Oauth.Revoke.{
  token_type_hint_refresh_token, optional, revoke_access_token, revoke_refresh_token, revoke,
}

module _ {S : Type 0} (srv : Server S) where
  -- An action that leaves the world as it is.
  abbrev Idle : {A : Type 0} → M S A → World S → Type 0
  Idle m w = (m w).1 ≡ w

  revoke_access_token-Idle :
      (client : Client) (hash : String) (w : World S) (r : Result AccessToken)
      → srv.store.get_access_token_by_hash hash w.db ≡ r
      → ((t : AccessToken) → r ≡ ok t → t.client_id ≢ client.id)
      → (revoke_access_token srv client hash w).1 ≡ w
  unfolding revoke_access_token optional ◌>>=◌ when recover
  revoke_access_token-Idle client hash w (ok t) e h =
      rw e (ground (arith, eq_iff t.client_id client.id, h t refl))
  revoke_access_token-Idle client hash w (err x) e h = rw e (ground arith)

  revoke_refresh_token-Idle :
      (client : Client) (hash : String) (w : World S) (r : Result RefreshToken)
      → srv.store.get_refresh_token_by_hash hash w.db ≡ r
      → ((t : RefreshToken) → r ≡ ok t → t.client_id ≢ client.id)
      → (revoke_refresh_token srv client hash w).1 ≡ w
  unfolding revoke_refresh_token optional ◌>>=◌ when recover
  revoke_refresh_token-Idle client hash w (ok t) e h =
      rw e (ground (arith, eq_iff t.client_id client.id, h t refl))
  revoke_refresh_token-Idle client hash w (err x) e h = rw e (ground arith)

  done_idle : (r : Result Bool) (v w : World S) → v ≡ w → (continue r (λ found. pure tt) v).1 ≡ w
  unfolding pure
  done_idle (ok b) v w e = e
  done_idle (err x) v w e = e

  -- Two lookups, the second one unless the first one found the token.
  lookups-Idle :
      (m n : M S Bool) (w : World S)
      → Idle m w
      → Idle n w
      → Idle (m >>= λ found. if found then pure tt else (n >>= λ second. pure tt)) w
  unfolding ◌>>=◌
  lookups-Idle m n w i j = go (m w).0 (m w).1 i
    where
      go :
          (r : Result Bool) (v : World S)
          → v ≡ w
          → (continue r
              (λ found.
                if found then pure tt else (λ u. continue (n u).0 (λ second. pure tt) (n u).1))
              v).1
            ≡ w
      go (ok true) v e = e
      go (ok false) v e =
          ap (λ u. (continue (n u).0 (λ second. pure tt) (n u).1).1) e
          ∙ done_idle (n w).0 (n w).1 w j
      go (err x) v e = e

  -- A revocation changes nothing if every access token and every refresh token that the store finds
  -- under the hash of the given token was issued to another client, whatever the hint.
  pub revoke_foreign :
      (client : Client) (token hint : String) (w : World S)
      → ((t : AccessToken)
          → srv.store.get_access_token_by_hash (hash_token srv.env token) w.db ≡ ok t
          → t.client_id ≢ client.id)
      → ((t : RefreshToken)
          → srv.store.get_refresh_token_by_hash (hash_token srv.env token) w.db ≡ ok t
          → t.client_id ≢ client.id)
      → (revoke srv client token hint w).1 ≡ w
  unfolding revoke
  revoke_foreign client token hint w access refresh =
      ordered (hint == token_type_hint_refresh_token)
    where
      hash : String
      hash = hash_token srv.env token

      ordered :
          (refresh_first : Bool)
          → Idle
              ((if refresh_first
                  then revoke_refresh_token srv client hash
                  else revoke_access_token srv client hash)
                >>= λ found.
                    if found
                    then pure tt
                    else ((if refresh_first
                          then revoke_access_token srv client hash
                          else revoke_refresh_token srv client hash)
                        >>= λ second. pure tt))
              w
      ordered true =
          lookups-Idle _ _ w (revoke_refresh_token-Idle client hash w _ refl refresh)
            (revoke_access_token-Idle client hash w _ refl access)
      ordered false =
          lookups-Idle _ _ w (revoke_access_token-Idle client hash w _ refl access)
            (revoke_refresh_token-Idle client hash w _ refl refresh)
