-- ===== src/Tests/Identity.antt =====
-- Scopes, tokens, clients and security functions on concrete inputs.
use go_identity.Common.{
  ℕ, ◌+◌, ◌<◌, String, ◌≡◌, refl, ◌≢◌, ◌↔◌, ◌⊎◌, true, false, List, [], ◌∷◌, ◌==◌, contains,
  IsDistinct, All, arith, ne_of_test, bytes, if◌then◌else◌,
}
use go_identity.Failure.{ok}
use go_identity.Effect.{Env}
use go_identity.Security.{hash_token}
use go_identity.Security.Encoding.{IsByte, hash_token_inj}
use go_identity.Security.Pkce.{
  verify_code_challenge, verify_code_challenge_iff, is_valid_code_verifier, s256_challenge,
  code_challenge_method_plain, code_challenge_method_s256,
}
use go_identity.Identity.Scope.{parse_scope, format_scope, scopes_equal, validate_scope_syntax}
use go_identity.Identity.Scope.Parse.{IsToken, parse_scope_tokens, parse-format_scope}
use go_identity.Identity.Scope.Compare.{scopes_equal_iff, scopes_equal_repeated}
use go_identity.Identity.Token.{refresh_token_has_expired, touch}
use go_identity.Identity.Token.Lifetime.{touch_lifetime}
use go_identity.Identity.Client.{validate}
use go_identity.Identity.Client.Consistency.{IsConsistent, validate_iff}
use go_identity.Tests.Samples.{env, app, refresh_token}

parse_scope_tokens_example :
    All IsToken (parse_scope " read  write read") × IsDistinct (parse_scope " read  write read")
parse_scope_tokens_example = parse_scope_tokens " read  write read"

syntax_holds : validate_scope_syntax ("read" ∷ "write" ∷ []) ≡ true
unfolding validate_scope_syntax
syntax_holds = refl

parse-format_scope_example :
    parse_scope (format_scope ("read" ∷ "write" ∷ [])) ≡ "read" ∷ "write" ∷ []
parse-format_scope_example =
    parse-format_scope ("read" ∷ "write" ∷ []) syntax_holds (refl, (refl, tt))

scopes_equal_iff_example :
    (scopes_equal ("a" ∷ "b" ∷ []) ("b" ∷ "a" ∷ []) ≡ true)
    ↔ ((s : String) → contains ("a" ∷ "b" ∷ []) s ≡ contains ("b" ∷ "a" ∷ []) s)
scopes_equal_iff_example =
    scopes_equal_iff ("a" ∷ "b" ∷ []) ("b" ∷ "a" ∷ []) (refl, (refl, tt)) (refl, (refl, tt))

abbrev read_scope : String
read_scope = "read"

abbrev write_scope : String
write_scope = "write"

different : read_scope ≢ write_scope
different = ne_of_test read_scope write_scope refl

scopes_equal_repeated_example :
    (scopes_equal ("read" ∷ "write" ∷ []) ("read" ∷ "read" ∷ []) ≡ true)
    × (contains ("read" ∷ "write" ∷ []) "write" ≡ true)
    × (contains ("read" ∷ "read" ∷ []) "write" ≡ false)
scopes_equal_repeated_example = scopes_equal_repeated "read" "write" different

touch_lifetime_example :
    ((refresh_token_has_expired (touch refresh_token 5) 8_000_000 ≡ false) ↔ (
      if refresh_token.token_expiration == "sliding"
      then 8_000_000 < 5 + 7_200_000_000_000
      else 8_000_000 < refresh_token.expires_at))
    × ((touch refresh_token 5).updated_at ≡ 5)
    × ((touch refresh_token 5).scopes ≡ refresh_token.scopes)
    × ((touch refresh_token 5).token_hash ≡ refresh_token.token_hash)
touch_lifetime_example = touch_lifetime refresh_token 7_200_000_000_000 5 8_000_000 refl

validate_iff_example : (validate (λ uri. true) app ≡ ok tt) ↔ IsConsistent (λ uri. true) app
validate_iff_example = validate_iff (λ uri. true) app

abbrev challenge : String
challenge = "v"

abbrev verifier : String
verifier = "w"

verify_code_challenge_iff_example :
    (verify_code_challenge env challenge code_challenge_method_plain verifier ≡ true) ↔ (
      (is_valid_code_verifier verifier ≡ true)
      × ((code_challenge_method_plain ≡ code_challenge_method_s256)
            × (s256_challenge env verifier ≡ challenge)
          ⊎ ((code_challenge_method_plain ≡ code_challenge_method_plain)
              ⊎ (code_challenge_method_plain ≡ ""))
            × (verifier ≡ challenge)))
verify_code_challenge_iff_example =
    verify_code_challenge_iff env challenge code_challenge_method_plain verifier

abbrev zero_sum : List ℕ → List ℕ
zero_sum bytes = 0 ∷ []

abbrev zero_env : Env
zero_env = record env { sha256 = zero_sum }

zero_sum-IsByte : (xs : List ℕ) → All IsByte (zero_env.sha256 xs)
zero_sum-IsByte xs = (omega arith, tt)

same_hash : hash_token zero_env "a" ≡ hash_token zero_env "b"
unfolding hash_token
same_hash = refl

hash_token_inj_example : zero_env.sha256 (bytes "a") ≡ zero_env.sha256 (bytes "b")
hash_token_inj_example = hash_token_inj zero_env "a" "b" zero_sum-IsByte same_hash
