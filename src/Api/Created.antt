-- ===== src/Api/Created.antt =====
-- What is behind the response that something was created.
use go_identity.Common.{ℕ, String, ◌≡◌, refl, true, false, Bool-cases, inl, inr, arith}
use go_identity.Failure.{
  StoreError, AccountError, Error, Result, ok, err, store, account, validation, security, oauth,
  other,
}
use go_identity.Effect.{World, M, pure, recover, recovered}
use go_identity.Api.{
  Payload, Decoded, malformed, parsed, ApiError, Response, created, failure, handle_error, handled,
  decode, with_decoded, is_json,
}

handle_error-failure :
    {B : Type 0} (e : Error)
    → (status : ℕ) × (x : ApiError) × (handle_error {B = B} e ≡ failure status x)
unfolding handle_error
handle_error-failure (validation name message) = (_, _, refl)
handle_error-failure (store StoreError.not_found) = (_, _, refl)
handle_error-failure (store StoreError.duplicate) = (_, _, refl)
handle_error-failure (store StoreError.conflict) = (_, _, refl)
handle_error-failure (account AccountError.no_such_user) = (_, _, refl)
handle_error-failure (account AccountError.user_exists) = (_, _, refl)
handle_error-failure (account AccountError.invalid_credentials) = (_, _, refl)
handle_error-failure (account AccountError.not_activated) = (_, _, refl)
handle_error-failure (account AccountError.locked_out) = (_, _, refl)
handle_error-failure (account AccountError.disabled) = (_, _, refl)
handle_error-failure (account AccountError.invalid_token) = (_, _, refl)
handle_error-failure (security e) = (_, _, refl)
handle_error-failure (oauth e) = (_, _, refl)
handle_error-failure (other message) = (_, _, refl)

module _ {S B : Type 0} where
  recovered-created :
      (p : Result (Response B) × World S) {location : String} {b : B} {w' : World S}
      → recovered (λ e. pure (handle_error e)) p.0 p.1 ≡ (ok (created location b), w')
      → p ≡ (ok (created location b), w')
  unfolding pure
  recovered-created (ok reply, v) h = h
  recovered-created (err e, v) h =
      let (status, x, failed) = handle_error-failure {B = B} e in absurd cc

  pub handled-created :
      (m : M S (Response B)) (w : World S) {location : String} {b : B} {w' : World S}
      → handled m w ≡ (ok (created location b), w')
      → m w ≡ (ok (created location b), w')
  unfolding handled recover
  handled-created m w h = recovered-created (m w) h

  pub decode-created :
      {A : Type 0} (p : Payload A) (f : A → M S (Response B)) (w : World S) {location : String}
      {b : B} {w' : World S}
      → decode p f w ≡ (ok (created location b), w')
      → (x : A) × (p.decoded ≡ parsed x true) × (f x w ≡ (ok (created location b), w'))
  unfolding decode pure
  decode-created {A = A} p f w {location = location} {b = b} {w' = w'} h =
      elim (Bool-cases (is_json p.media_type)) [
        | inl e ↦ go p.decoded refl (rw e at h)
        | inr e ↦ absurd (ground arith)
      ]
    where
      go :
          (d : Decoded A)
          → p.decoded ≡ d
          → with_decoded d f w ≡ (ok (created location b), w')
          → (x : A) × (p.decoded ≡ parsed x true) × (f x w ≡ (ok (created location b), w'))
      go (malformed reason) e k = absurd (ground arith)
      go (parsed x true) e k = (x, e, k)
      go (parsed x false) e k = absurd (ground arith)
