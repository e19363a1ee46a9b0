-- ===== src/Tests/Memory.antt =====
-- The in-memory store on concrete inputs.
use go_identity.Common.{◌≡◌, ◌↔◌}
use go_identity.Failure.{ok}
use go_identity.Effect.{World}
use go_identity.Store.{delete_expired}
use go_identity.Memory.{memory_store}
use go_identity.Memory.State.{Memory, new}
use go_identity.Memory.Invariant.{IsWellFormed}
use go_identity.Memory.Invariant.Reachable.{apply_all, apply_all-IsWellFormed}
use go_identity.Memory.Lookup.{get_access_token_by_hash_iff}
use go_identity.Memory.Expiry.{delete_expired_sweeps, IsSwept}
use go_identity.Memory.AccessTokens.{get_access_token_by_id, get_access_token_by_hash}
use go_identity.Tests.Samples.{env, access_token, fresh_code, stored, world}
use go_identity.Tests.Stored.{writes, fresh-IsNamed, fresh-IsWellFormed}

apply_all-IsWellFormed_example : IsWellFormed (apply_all (writes fresh_code) new)
apply_all-IsWellFormed_example = apply_all-IsWellFormed (writes fresh_code) fresh-IsNamed

get_access_token_by_hash_iff_example :
    (get_access_token_by_hash "61" (stored fresh_code) ≡ ok access_token) ↔ (
      (get_access_token_by_id "access-1" (stored fresh_code) ≡ ok access_token)
      × (access_token.token_hash ≡ "61"))
get_access_token_by_hash_iff_example =
    get_access_token_by_hash_iff "61" access_token (stored fresh_code) fresh-IsWellFormed

abbrev swept : World Memory
swept = (delete_expired (memory_store env) 9_000_000 (world fresh_code)).1

delete_expired_sweeps_example :
    ((delete_expired (memory_store env) 9_000_000 (world fresh_code)).0 ≡ ok tt)
    × (swept.db.clients ≡ (stored fresh_code).clients)
    × (swept.db.users ≡ (stored fresh_code).users)
    × IsSwept (λ t. t.expires_at) 9_000_000 (stored fresh_code).access_tokens swept.db.access_tokens
    × IsSwept
        (λ t. t.expires_at)
        9_000_000
        (stored fresh_code).refresh_tokens
        swept.db.refresh_tokens
    × IsSwept
        (λ t. t.expires_at)
        9_000_000
        (stored fresh_code).authorization_codes
        swept.db.authorization_codes
    × IsSwept (λ t. t.expires_at) 9_000_000 (stored fresh_code).user_tokens swept.db.user_tokens
delete_expired_sweeps_example =
    delete_expired_sweeps env 9_000_000 (world fresh_code) fresh-IsWellFormed
