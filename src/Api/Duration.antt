-- ===== src/Api/Duration.antt =====
-- Seconds of a request as an int64 number of nanoseconds.
use go_identity.Common.{
  ℕ, ◌+◌, ◌*◌, ◌^◌, ◌%◌, ◌≤◌, String, Bool, ◌≡◌, refl, ap, ℤ, pos, negsuc, suc, ◌-◌, ltb,
  if◌then◌else◌, arith,
}
use go_identity.Identity.Client.{Client, ensure_defaults}
use go_identity.Api.{duration}
use go_identity.Api.ClientRequest.{ClientRequest, apply, applied}

duration_exact : (n : ℕ) → n ≤ 9_223_372_036 → duration (pos n) ≡ pos (n * 1_000_000_000)
unfolding duration
duration_exact n h = ground arith

-- 2 ^ 55 seconds are a multiple of 2 ^ 64 nanoseconds.
duration_period : (n : ℕ) → duration (pos (n + 2 ^ 55)) ≡ duration (pos n)
unfolding duration
duration_period n =
    let same : (n + 2 ^ 55) * 1_000_000_000 % 2 ^ 64 ≡ n * 1_000_000_000 % 2 ^ 64 = omega arith in
    ap (λ r. if ltb r (2 ^ 63) then pos r else negsuc (2 ^ 64 - suc r)) same

-- The request with this authorization code lifetime, in seconds.
abbrev pub with_code_lifetime : ClientRequest → ℤ → ClientRequest
with_code_lifetime req n = record req { authorization_code_lifetime = n }

-- An authorization code lifetime of 1 to 600 seconds is kept exactly, and 2 ^ 55 seconds more, which
-- is far above 600 seconds, overflow an int64 number of nanoseconds to the same client and pass the
-- same checks.
pub apply_wraps :
    (is_absolute_uri : String → Bool) (req : ClientRequest) (c : Client) (n : ℕ)
    → 1 ≤ n
    → n ≤ 600
    → ((applied (with_code_lifetime req (pos n)) c).authorization_code_lifetime
        ≡ pos (n * 1_000_000_000))
      × (apply is_absolute_uri (with_code_lifetime req (pos (n + 2 ^ 55))) c
          ≡ apply is_absolute_uri (with_code_lifetime req (pos n)) c)
unfolding applied apply ensure_defaults
apply_wraps is_absolute_uri req c n positive small =
    (rw (duration_exact n (omega arith)) (ground arith), rw (duration_period n) refl)
