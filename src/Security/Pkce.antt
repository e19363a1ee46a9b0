-- ===== src/Security/Pkce.antt =====
-- pkg/security/pkce.go
use go_identity.Common.{
  ℕ, String, ◌≡◌, ◌↔◌, ◌⊎◌, Bool, true, false, ◌&&◌, ◌||◌, arith, ◌==◌, eq_iff, ltb, leb, eqb, not,
  all, bytes, length, if◌then◌else◌,
}
use go_identity.Effect.{Env}
use go_identity.Security.{base64_encode, equal}

abbrev pub code_challenge_method_plain : String
code_challenge_method_plain = "plain"

abbrev pub code_challenge_method_s256 : String
code_challenge_method_s256 = "S256"

-- One byte of a code verifier: [A-Z] / [a-z] / [0-9] / "-" / "." / "_" / "~".
abbrev pub is_verifier_byte : ℕ → Bool
is_verifier_byte c =
    leb b'A' c && leb c b'Z'
    || leb b'a' c && leb c b'z'
    || leb b'0' c && leb c b'9'
    || eqb c b'-'
    || eqb c b'.'
    || eqb c b'_'
    || eqb c b'~'

-- `IsValidCodeVerifier`
unfoldable pub is_valid_code_verifier : String → Bool
is_valid_code_verifier verifier =
    if ltb (length (bytes verifier)) 43 || ltb 128 (length (bytes verifier))
    then false
    else all is_verifier_byte (bytes verifier)

-- `IsSupportedCodeChallengeMethod`
unfoldable pub is_supported_code_challenge_method : String → Bool
is_supported_code_challenge_method method =
    method == code_challenge_method_plain || method == code_challenge_method_s256

-- `S256Challenge`
unfoldable pub s256_challenge : Env → String → String
s256_challenge env verifier = base64_encode (env.sha256 (bytes verifier))

-- `VerifyCodeChallenge`
unfoldable pub verify_code_challenge : Env → String → String → String → Bool
verify_code_challenge env challenge method verifier =
    if not (is_valid_code_verifier verifier)
    then false
    else if method == code_challenge_method_s256
    then equal (s256_challenge env verifier) challenge
    else if method == code_challenge_method_plain || method == ""
    then equal verifier challenge
    else false

-- The verifier of a token request is accepted exactly when it has the verifier syntax and, by the
-- method of the authorization request, is the challenge itself or has it as its SHA-256 in
-- base64url; a method that is neither S256, plain nor empty accepts nothing.
pub verify_code_challenge_iff :
    (env : Env) (challenge method verifier : String)
    → (verify_code_challenge env challenge method verifier ≡ true) ↔ (
        (is_valid_code_verifier verifier ≡ true)
        × ((method ≡ code_challenge_method_s256) × (s256_challenge env verifier ≡ challenge)
            ⊎ ((method ≡ code_challenge_method_plain) ⊎ (method ≡ "")) × (verifier ≡ challenge)))
unfolding verify_code_challenge
verify_code_challenge_iff env challenge method verifier = (
  λ h. ground (
    arith,
    eq_iff method code_challenge_method_s256,
    eq_iff method code_challenge_method_plain,
    eq_iff method "",
    eq_iff (s256_challenge env verifier) challenge,
    eq_iff verifier challenge,
  ),
  λ h. ground (
    arith,
    eq_iff method code_challenge_method_s256,
    eq_iff method code_challenge_method_plain,
    eq_iff method "",
    eq_iff "plain" "S256",
    eq_iff "" "S256",
    eq_iff (s256_challenge env verifier) challenge,
    eq_iff verifier challenge,
  ),
)
