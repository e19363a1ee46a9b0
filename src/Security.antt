-- ===== src/Security.antt =====
-- pkg/security: the encodings, tokens and hashes of the identity server. SHA-256, the random
-- source and bcrypt are not under the repository: they are the fields of `Env` and `Bcrypt`.
pub mod Pkce
pub mod Encoding
pub mod Draws
use Prim.Native.Nat.{bit_and, bit_or}
use go_identity.Common.{
  ℕ, zero, suc, ◌/◌, ◌%◌, ◌+◌, ◌*◌, ℤ, pos, negsuc, is_nonpositive, String, Bool, true, false, List,
  [], ◌∷◌, ◌++◌, ◌==◌, ltb, bytes, length, take, drop, text_append, pick, if◌then◌else◌,
}
use go_identity.Failure.{SecurityError, Error, Result, ok, err, security}
use go_identity.Effect.{Env, World, M, pure, ◌>>=◌, random_bytes}

abbrev pub max_secret_length : ℕ
max_secret_length = 72

-- `PasswordHasher`: a hash draws its salt at a reading of the random source.
pub record Hasher : Type 0 where
  pub hash : ℕ → String → Result String
  pub verify : String → String → Result (Unit {0})

-- golang.org/x/crypto/bcrypt: the cost and the drawn salt make a hash of the bytes of a secret.
pub record Bcrypt : Type 0 where
  pub default_cost : ℤ
  pub generate : ℤ → ℕ → List ℕ → Result String
  pub compare_hash : String → List ℕ → Bool

-- `NewBcryptHasher`
pub bcrypt_cost : Bcrypt → ℤ → ℤ
bcrypt_cost b cost = if is_nonpositive cost then b.default_cost else cost

-- `BcryptHasher.Hash`
unfoldable pub bcrypt_hash : Bcrypt → ℤ → ℕ → String → Result String
bcrypt_hash b cost draw secret =
    if ltb max_secret_length (length (bytes secret))
    then err (security SecurityError.secret_too_long)
    else b.generate cost draw (bytes secret)

-- `BcryptHasher.Verify`
unfoldable pub bcrypt_verify : Bcrypt → String → String → Result (Unit {0})
bcrypt_verify b hash secret =
    if ltb max_secret_length (length (bytes secret))
    then err (security SecurityError.mismatch)
    else if b.compare_hash hash (bytes secret)
    then ok tt
    else err (security SecurityError.mismatch)

pub bcrypt_hasher : Bcrypt → ℤ → Hasher
bcrypt_hasher b cost = record {
  hash = bcrypt_hash b (bcrypt_cost b cost);
  verify = bcrypt_verify b;
}

-- A call of `Hasher.Hash`.
unfoldable pub hash_secret : {S : Type 0} → Hasher → String → M S String
hash_secret h secret w = (h.hash w.drawn secret, record w { drawn = suc w.drawn })

abbrev hex_digit : ℕ → String
hex_digit n = pick "0123456789abcdef" n

-- `hex.EncodeToString`
unfoldable pub hex_encode : List ℕ → String
hex_encode [] = ""
hex_encode (b ∷ bs) =
    text_append (hex_digit (b / 16)) (text_append (hex_digit (b % 16)) (hex_encode bs))

abbrev base64_digit : ℕ → String
base64_digit n = pick "ABCDEFGHIJKLMNOPQRSTUVWXYZabcdefghijklmnopqrstuvwxyz0123456789-_" n

-- `base64.RawURLEncoding.EncodeToString`
unfoldable pub base64_encode : List ℕ → String
base64_encode [] = ""
base64_encode (a ∷ []) = text_append (base64_digit (a / 4)) (base64_digit (a % 4 * 16))
base64_encode (a ∷ b ∷ []) =
    text_append (base64_digit (a / 4))
      (text_append (base64_digit (a % 4 * 16 + b / 16)) (base64_digit (b % 16 * 4)))
base64_encode (a ∷ b ∷ c ∷ bs) = text_append (base64_digit (a / 4)) (
    text_append (base64_digit (a % 4 * 16 + b / 16)) (
      text_append (base64_digit (b % 16 * 4 + c / 64))
        (text_append (base64_digit (c % 64)) (base64_encode bs))))

-- `b[6] = (b[6] & 0x0f) | 0x40; b[8] = (b[8] & 0x3f) | 0x80`
abbrev stamp_version : List ℕ → List ℕ
stamp_version (b₀ ∷ b₁ ∷ b₂ ∷ b₃ ∷ b₄ ∷ b₅ ∷ b₆ ∷ b₇ ∷ b₈ ∷ bs) =
    b₀
    ∷ b₁
    ∷ b₂
    ∷ b₃
    ∷ b₄
    ∷ b₅
    ∷ bit_or (bit_and b₆ 0x0f) 0x40
    ∷ b₇
    ∷ bit_or (bit_and b₈ 0x3f) 0x80
    ∷ bs
stamp_version bs = bs

-- `fmt.Sprintf("%x-%x-%x-%x-%x", b[0:4], b[4:6], b[6:8], b[8:10], b[10:16])`
abbrev format_uuid : List ℕ → String
format_uuid b = text_append (hex_encode (take 4 b)) (
    text_append "-" (
      text_append (hex_encode (take 2 (drop 4 b))) (
        text_append "-" (
          text_append (hex_encode (take 2 (drop 6 b))) (
            text_append "-" (
              text_append (hex_encode (take 2 (drop 8 b)))
                (text_append "-" (hex_encode (take 6 (drop 10 b))))))))))

module _ {S : Type 0} (env : Env) where
  -- `RandomToken`
  unfoldable pub random_token : ℕ → M S String
  unfolding ◌>>=◌ random_bytes
  random_token n = do b ← random_bytes env n; pure (base64_encode b)

  -- `NewToken`
  unfoldable pub new_token : M S String
  unfolding random_token
  new_token = random_token 32

  -- `NewId`
  unfoldable pub new_id : M S String
  unfolding ◌>>=◌ random_bytes
  new_id = do b ← random_bytes env 16; pure (format_uuid (stamp_version b))

module _ (env : Env) where
  -- `HashToken`
  unfoldable pub hash_token : String → String
  hash_token token = hex_encode (env.sha256 (bytes token))

-- `Equal`
abbrev pub equal : String → String → Bool
equal a b = a == b
