-- ===== src/Security/Encoding.antt =====
-- The encodings lose nothing.
use Prim.Native.Char.{Char, code}
use text.Mathlib.TextLemmas.{nil-append, cons-append, cons-eq-cons, cons≢nil}
use go_identity.Common.{
  ℕ, zero, suc, ◌+◌, ◌-◌, ◌/◌, ◌%◌, ◌<◌, String, ◌≡◌, refl, sym, ap, ◌∙◌, List, [], ◌∷◌, arith, All,
  leb, bytes, text_append, if◌then◌else◌,
}
use go_identity.Effect.{Env}
use go_identity.Security.{hex_digit, hex_encode, hash_token}

-- The value of a lower case hexadecimal digit.
abbrev digit_value : ℕ → ℕ
digit_value c = if leb c b'9' then c - b'0' else c - b'a' + 10

hex_digit_value :
    (n : ℕ)
    → n < 16
    → (c : Char) × (hex_digit n ≡ String.◌∷◌ c String.[]) × (digit_value (code c) ≡ n)
hex_digit_value zero h = ("0", refl, refl)
hex_digit_value (suc zero) h = ("1", refl, refl)
hex_digit_value (suc (suc zero)) h = ("2", refl, refl)
hex_digit_value (suc (suc (suc zero))) h = ("3", refl, refl)
hex_digit_value (suc (suc (suc (suc zero)))) h = ("4", refl, refl)
hex_digit_value (suc (suc (suc (suc (suc zero))))) h = ("5", refl, refl)
hex_digit_value (suc (suc (suc (suc (suc (suc zero)))))) h = ("6", refl, refl)
hex_digit_value (suc (suc (suc (suc (suc (suc (suc zero))))))) h = ("7", refl, refl)
hex_digit_value (suc (suc (suc (suc (suc (suc (suc (suc zero)))))))) h = ("8", refl, refl)
hex_digit_value (suc (suc (suc (suc (suc (suc (suc (suc (suc zero))))))))) h = ("9", refl, refl)
hex_digit_value (suc (suc (suc (suc (suc (suc (suc (suc (suc (suc zero)))))))))) h =
    ("a", refl, refl)
hex_digit_value (suc (suc (suc (suc (suc (suc (suc (suc (suc (suc (suc zero))))))))))) h =
    ("b", refl, refl)
hex_digit_value (suc (suc (suc (suc (suc (suc (suc (suc (suc (suc (suc (suc zero)))))))))))) h =
    ("c", refl, refl)
hex_digit_value (suc (suc (suc (suc (suc (suc (suc (suc (suc (suc (suc (suc (suc zero)))))))))))))
      h =
    ("d", refl, refl)
hex_digit_value
      (suc (suc (suc (suc (suc (suc (suc (suc (suc (suc (suc (suc (suc (suc zero)))))))))))))) h =
    ("e", refl, refl)
hex_digit_value
      (suc (suc (suc (suc (suc (suc (suc (suc (suc (suc (suc (suc (suc (suc (suc zero)))))))))))))))
      h =
    ("f", refl, refl)
hex_digit_value
      (suc
        (suc (suc (suc (suc (suc (suc (suc (suc (suc (suc (suc (suc (suc (suc (suc n))))))))))))))))
      h =
    absurd (omega arith)

digit_append :
    (n : ℕ) (s : String)
    → n < 16
    → (c : Char) × (text_append (hex_digit n) s ≡ String.◌∷◌ c s) × (digit_value (code c) ≡ n)
digit_append n s h =
    let (c, p, x) = hex_digit_value n h in
    (
      c,
      ap (λ d. text_append d s) p ∙ (cons-append c String.[] s ∙ ap (String.◌∷◌ c) (nil-append s)),
      x,
    )

digit_append_inj :
    (m n : ℕ) (s t : String)
    → m < 16
    → n < 16
    → text_append (hex_digit m) s ≡ text_append (hex_digit n) t
    → (m ≡ n) × (s ≡ t)
digit_append_inj m n s t hm hn h =
    let (c, p, x) = digit_append m s hm in
    let (d, q, y) = digit_append n t hn in
    let e = cons-eq-cons.0 (sym p ∙ (h ∙ q)) in
    (sym x ∙ (ap (λ k. digit_value (code k)) e.0 ∙ y), e.1)

digit_append_ne_nil : (n : ℕ) (s : String) → n < 16 → text_append (hex_digit n) s ≡ "" → ⊥
digit_append_ne_nil n s h e = let (c, p, x) = digit_append n s h in cons≢nil (sym p ∙ e)

abbrev pub IsByte : ℕ → Type 0
IsByte b = b < 256

hex_encode_inj :
    (xs ys : List ℕ) → All IsByte xs → All IsByte ys → hex_encode xs ≡ hex_encode ys → xs ≡ ys
unfolding hex_encode
hex_encode_inj [] [] hx hy e = refl
hex_encode_inj [] (y ∷ ys) hx (q, hy) e =
    absurd (digit_append_ne_nil (y / 16) _ (omega arith) (sym e))
hex_encode_inj (x ∷ xs) [] (p, hx) hy e = absurd (digit_append_ne_nil (x / 16) _ (omega arith) e)
hex_encode_inj (x ∷ xs) (y ∷ ys) (p, hx) (q, hy) e =
    let (high, rest) = digit_append_inj (x / 16) (y / 16) _ _ (omega arith) (omega arith) e in
    let (low, tail) = digit_append_inj (x % 16) (y % 16) _ _ (omega arith) (omega arith) rest in
    cons_eq (omega arith) (hex_encode_inj xs ys hx hy tail)
  where
    cons_eq : x ≡ y → xs ≡ ys → x ∷ xs ≡ y ∷ ys
    cons_eq a b = cc

-- If SHA-256 gives bytes, two tokens are stored under the same hash only if their SHA-256 sums
-- are the same: the encoding of the sum adds no collision.
pub hash_token_inj :
    (env : Env) (a b : String)
    → ((xs : List ℕ) → All IsByte (env.sha256 xs))
    → hash_token env a ≡ hash_token env b
    → env.sha256 (bytes a) ≡ env.sha256 (bytes b)
unfolding hash_token
hash_token_inj env a b sums h = hex_encode_inj _ _ (sums (bytes a)) (sums (bytes b)) h
