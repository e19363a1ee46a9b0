-- ===== src/Security/Draws.antt =====
-- The store after tokens, identifiers and hashes were drawn.
use go_identity.Common.{suc, String, ◌≡◌, sym, ap}
use go_identity.Failure.{ok}
use go_identity.Effect.{Env, World, ◌>>=◌, random_bytes}
use go_identity.Security.{Hasher, hash_secret, base64_encode, random_token, new_token, new_id}
use go_identity.Effect.Inversion.{pure-eq}

module _ {S : Type 0} where
  pub new_token-db :
      (env : Env) (w v : World S) {a : String} → new_token env w ≡ (ok a, v) → v.db ≡ w.db
  unfolding new_token random_token ◌>>=◌ random_bytes
  new_token-db env w v h = ap (λ r. r.1.db) (sym h)

  pub new_id-db : (env : Env) (w v : World S) {a : String} → new_id env w ≡ (ok a, v) → v.db ≡ w.db
  unfolding new_id ◌>>=◌ random_bytes
  new_id-db env w v h = ap (λ r. r.1.db) (sym h)

  pub hash_secret-db :
      (h : Hasher) (p : String) (w v : World S) {a : String}
      → hash_secret h p w ≡ (ok a, v)
      → v.db ≡ w.db
  unfolding hash_secret
  hash_secret-db h p w v e = ap (λ r. r.1.db) (sym e)

  -- A token is the encoding of the next 32 bytes of the random source.
  pub new_token-ok :
      (env : Env) (w v : World S) {a : String}
      → new_token env w ≡ (ok a, v)
      → (base64_encode (env.entropy w.drawn 32) ≡ a) × (record w { drawn = suc w.drawn } ≡ v)
  unfolding new_token random_token ◌>>=◌ random_bytes
  new_token-ok env w v h = pure-eq _ _ h

  pub hash_secret-ok :
      (h : Hasher) (p : String) (w v : World S) {a : String}
      → hash_secret h p w ≡ (ok a, v)
      → (h.hash w.drawn p ≡ ok a) × (record w { drawn = suc w.drawn } ≡ v)
  unfolding hash_secret
  hash_secret-ok h p w v e = (ap (λ r. r.0) e, ap (λ r. r.1) e)
