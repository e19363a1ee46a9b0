-- ===== src/Memory/Expiry.antt =====
-- What the clean-up of expired entries deletes.
use go_identity.Common.{ℕ, ◌≡◌, refl, String, Bool, Option, none, some, arith, ltb, not, ◌∙◌}
use go_identity.Failure.{ok}
use go_identity.Effect.{Env, World, ◌>>=◌}
use go_identity.Store.{no_filter, delete_expired}
use go_identity.Memory.{memory_store}
use go_identity.Memory.State.{
  Memory, TokenFields, match_token, access_token_fields, refresh_token_fields,
}
use go_identity.Memory.Table.{Table, get, get-delete_where, unless_holds}
use go_identity.Memory.Invariant.{IsWellFormed}
use go_identity.Memory.AccessTokens.{delete_access_tokens}
use go_identity.Memory.RefreshTokens.{delete_refresh_tokens}
use go_identity.Memory.Codes.{delete_expired_authorization_codes, delete_expired_user_tokens}

-- `!t.ExpiresAt.After(now)`
abbrev is_over : ℕ → ℕ → Bool
is_over now expires_at = not (ltb now expires_at)

-- The entry under each identifier is there afterwards if it was there and has not expired.
abbrev pub IsSwept : {V : Type 0} → (V → ℕ) → ℕ → Table V → Table V → Type 0
IsSwept expires_at now before after =
    (id : String) → get id after ≡ unless_holds (λ v. is_over now (expires_at v)) (get id before)

match_token-expired :
    (now : ℕ) (t : TokenFields)
    → match_token (record no_filter { expired_before = some now }) t ≡ is_over now t.expires_at
unfolding match_token
match_token-expired now t = ground arith

unless_holds-same :
    {V : Type 0} (p q : V → Bool) (o : Option V)
    → ((v : V) → p v ≡ q v)
    → unless_holds p o ≡ unless_holds q o
unless_holds-same p q none h = refl
unless_holds-same p q (some v) h = rw (h v) refl

-- On a well-formed in-memory store the clean-up at a time succeeds, keeps every access token,
-- refresh token, authorization code and user token that expires after that time as it is, removes
-- every other one, and leaves the clients and users alone.
pub delete_expired_sweeps :
    (env : Env) (now : ℕ) (w : World Memory)
    → IsWellFormed w.db
    → ((delete_expired (memory_store env) now w).0 ≡ ok tt)
      × ((delete_expired (memory_store env) now w).1.db.clients ≡ w.db.clients)
      × ((delete_expired (memory_store env) now w).1.db.users ≡ w.db.users)
      × IsSwept
          (λ t. t.expires_at)
          now
          w.db.access_tokens
          (delete_expired (memory_store env) now w).1.db.access_tokens
      × IsSwept
          (λ t. t.expires_at)
          now
          w.db.refresh_tokens
          (delete_expired (memory_store env) now w).1.db.refresh_tokens
      × IsSwept
          (λ t. t.expires_at)
          now
          w.db.authorization_codes
          (delete_expired (memory_store env) now w).1.db.authorization_codes
      × IsSwept
          (λ t. t.expires_at)
          now
          w.db.user_tokens
          (delete_expired (memory_store env) now w).1.db.user_tokens
unfolding delete_expired ◌>>=◌ delete_access_tokens delete_refresh_tokens
    delete_expired_authorization_codes delete_expired_user_tokens
delete_expired_sweeps env now w h = (
  refl,
  refl,
  refl,
  λ id.
      get-delete_where _ id w.db.access_tokens h.access_tokens.map
      ∙ unless_holds-same _ _ (get id w.db.access_tokens)
          (λ t. match_token-expired now (access_token_fields t)),
  λ id.
      get-delete_where _ id w.db.refresh_tokens h.refresh_tokens.map
      ∙ unless_holds-same _ _ (get id w.db.refresh_tokens)
          (λ t. match_token-expired now (refresh_token_fields t)),
  λ id. get-delete_where _ id w.db.authorization_codes h.authorization_codes.map,
  λ id. get-delete_where _ id w.db.user_tokens h.user_tokens.map,
)
