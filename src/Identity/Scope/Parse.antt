-- ===== src/Identity/Scope/Parse.antt =====
-- Parsing and formatting of scopes.
use Prim.Native.Char.{code}
use go_identity.Common.{
  ℕ, String, ◌≡◌, refl, inl, inr, true, false, ◌||◌, List, [], ◌∷◌, ◌++◌, arith, ◌==◌, eq_iff, all,
  All, IsDistinct, contains, bytes, utf8, NoSpace, split_spaces, split_spaces-NoSpace, split-join,
  Bool-cases, eqb, all→All, All-map,
}
use go_identity.Identity.Scope.{
  parse_fields, parse_scope, format_scope, is_scope_byte, is_valid_scope_token,
  validate_scope_syntax,
}

-- A token as the parser returns it: not empty, and without spaces.
abbrev pub IsToken : String → Type 0
IsToken s = ((s == "") ≡ false) × NoSpace s

parse_fields-IsToken :
    (seen fields : List String) → All NoSpace fields → All IsToken (parse_fields seen fields)
unfolding parse_fields
parse_fields-IsToken seen [] h = tt
parse_fields-IsToken seen (f ∷ fs) (p, h) = elim (Bool-cases (f == "" || contains seen f)) [
  | inl e ↦ rw e (parse_fields-IsToken seen fs h)
  | inr e ↦ rw e ((ground arith, p), parse_fields-IsToken (f ∷ seen) fs h)
]

-- What was seen before does not come again.
parse_fields-seen :
    (seen fields : List String) (s : String)
    → contains seen s ≡ true
    → contains (parse_fields seen fields) s ≡ false
unfolding parse_fields
parse_fields-seen seen [] s h = refl
parse_fields-seen seen (f ∷ fs) s h =
    ground (arith, eq_iff f s, parse_fields-seen seen fs s, parse_fields-seen (f ∷ seen) fs s)

parse_fields-IsDistinct : (seen fields : List String) → IsDistinct (parse_fields seen fields)
unfolding parse_fields
parse_fields-IsDistinct seen [] = tt
parse_fields-IsDistinct seen (f ∷ fs) = elim (Bool-cases (f == "" || contains seen f)) [
  | inl e ↦ rw e (parse_fields-IsDistinct seen fs)
  | inr e ↦ rw e (
    parse_fields-seen (f ∷ seen) fs f (ground (arith, eq_iff f f)),
    parse_fields-IsDistinct (f ∷ seen) fs,
  )
]

unseen-cons :
    (x : String) (seen xs : List String)
    → contains xs x ≡ false
    → All (λ s. contains seen s ≡ false) xs
    → All (λ s. contains (x ∷ seen) s ≡ false) xs
unseen-cons x seen [] h k = tt
unseen-cons x seen (y ∷ ys) h (p, k) =
    (ground (arith, eq_iff x y, eq_iff y x), unseen-cons x seen ys (ground arith) k)

parse_fields_distinct :
    (seen xs : List String)
    → All IsToken xs
    → IsDistinct xs
    → All (λ s. contains seen s ≡ false) xs
    → parse_fields seen xs ≡ xs
unfolding parse_fields
parse_fields_distinct seen [] t d u = refl
parse_fields_distinct seen (x ∷ xs) ((p, _), t) (q, d) (r, u) =
    rw (p, r, parse_fields_distinct (x ∷ seen) xs t d (unseen-cons x seen xs q u))

-- Whatever the scope parameter, the parsed scope tokens are not empty, hold no space, and none
-- stands twice.
pub parse_scope_tokens :
    (scope : String) → All IsToken (parse_scope scope) × IsDistinct (parse_scope scope)
unfolding parse_scope
parse_scope_tokens scope = (
  parse_fields-IsToken [] _ (split_spaces-NoSpace scope),
  parse_fields-IsDistinct [] (split_spaces scope),
)

all-append_left :
    (xs ys : List ℕ) → all is_scope_byte (xs ++ ys) ≡ true → all is_scope_byte xs ≡ true
all-append_left [] ys h = refl
all-append_left (x ∷ xs) ys h = ground (arith, all-append_left xs ys)

all-append_right :
    (xs ys : List ℕ) → all is_scope_byte (xs ++ ys) ≡ true → all is_scope_byte ys ≡ true
all-append_right [] ys h = h
all-append_right (x ∷ xs) ys h = all-append_right xs ys (ground arith)

scope_bytes-NoSpace : (s : String) → all is_scope_byte (bytes s) ≡ true → NoSpace s
unfolding bytes
scope_bytes-NoSpace String.[] h = tt
scope_bytes-NoSpace (String.◌∷◌ c s) h = (
  not_space (code c) (all-append_left (utf8 (code c)) (bytes s) h),
  scope_bytes-NoSpace s (all-append_right (utf8 (code c)) (bytes s) h),
)
  where
    not_space : (n : ℕ) → all is_scope_byte (utf8 n) ≡ true → eqb n 0x20 ≡ false
    not_space n p = ground arith

is_valid_scope_token-IsToken : (s : String) → is_valid_scope_token s ≡ true → IsToken s
unfolding is_valid_scope_token
is_valid_scope_token-IsToken s h = (ground arith, scope_bytes-NoSpace s (ground arith))

-- Scope tokens of valid syntax, none twice, survive formatting and parsing: the same list comes
-- back, in the same order.
pub parse-format_scope :
    (scopes : List String)
    → validate_scope_syntax scopes ≡ true
    → IsDistinct scopes
    → parse_scope (format_scope scopes) ≡ scopes
unfolding parse_scope format_scope validate_scope_syntax
parse-format_scope [] v d = refl
parse-format_scope (x ∷ xs) v d =
    let t : All IsToken (x ∷ xs) =
      All-map _ IsToken (x ∷ xs) is_valid_scope_token-IsToken
        (all→All is_valid_scope_token (x ∷ xs) v) in
    rw (split-join x xs t.0.1 (All-map IsToken NoSpace xs (λ s p. p.1) t.1))
      (parse_fields_distinct [] (x ∷ xs) t d (unseen (x ∷ xs)))
  where
    unseen : (ys : List String) → All (λ s. contains [] s ≡ false) ys
    unseen [] = tt
    unseen (y ∷ ys) = (refl, unseen ys)
