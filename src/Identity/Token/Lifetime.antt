-- ===== src/Identity/Token/Lifetime.antt =====
-- How long a refresh token lives.
use go_identity.Common.{
  ℕ, ◌+◌, ◌<◌, ◌≡◌, refl, false, arith, pos, ◌==◌, ◌↔◌, inl, inr, Bool-cases, if◌then◌else◌,
}
use go_identity.Identity.Token.{
  RefreshToken, refresh_token_has_expired, touch, refresh_token_expiration_sliding,
}

-- A used refresh token with a sliding lifetime of `d` nanoseconds is good at exactly the times
-- before `now + d`, and any other token at the times at which it was good; the use is recorded,
-- and the scopes and the hash stay.
pub touch_lifetime :
    (token : RefreshToken) (d now later : ℕ)
    → token.lifetime ≡ pos d
    → ((refresh_token_has_expired (touch token now) later ≡ false) ↔ (
        if token.token_expiration == refresh_token_expiration_sliding
        then later < now + d
        else later < token.expires_at))
      × ((touch token now).updated_at ≡ now)
      × ((touch token now).scopes ≡ token.scopes)
      × ((touch token now).token_hash ≡ token.token_hash)
unfolding touch refresh_token_has_expired
touch_lifetime token d now later h =
    elim (Bool-cases (token.token_expiration == refresh_token_expiration_sliding)) [
      | inl e ↦ rw e (rw h ((λ k. ground arith, λ k. ground arith), refl, refl, refl))
      | inr e ↦ rw e ((λ k. ground arith, λ k. ground arith), refl, refl, refl)
    ]
