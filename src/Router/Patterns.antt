-- ===== src/Router/Patterns.antt =====
-- What the patterns of routes are turned into.
use go_identity.Common.{
  ℕ, zero, suc, ◌≤◌, ◌≡◌, refl, sym, ap, ◌∙◌, false, List, [], ◌∷◌, ◌++◌, map, Option, none, some,
  eqb, length, length-append, Bool-cases, inl, inr, All, arith,
}
use mathlib.Core.List.{append_assoc, append-nil}
use go_identity.Router.{
  longer_cut, in_braces, after_open, cut_byte, first_placeholder, colon_next, names_next,
  colon_from, colon_pattern, names_from, param_names,
}

-- The byte does not stand in the text.
abbrev pub IsFreeOf : ℕ → List ℕ → Type 0
IsFreeOf c s = All (λ b. eqb b c ≡ false) s

-- The parts of a pattern before its last text: texts, each with the placeholder that follows it.
abbrev pub Parts : Type 0
Parts = List (List ℕ × List ℕ)

-- A text without an opening brace and a name without a closing one.
abbrev pub IsPart : List ℕ × List ℕ → Type 0
IsPart p = IsFreeOf b'{' p.0 × IsFreeOf b'}' p.1

-- The canonical pattern of parts, and the one of the routers that mark a placeholder by a colon.
abbrev pub braced : Parts → List ℕ → List ℕ
braced [] last = last
braced ((text, name) ∷ parts) last = text ++ (b'{' ∷ (name ++ (b'}' ∷ braced parts last)))

abbrev pub with_colons : Parts → List ℕ → List ℕ
with_colons [] last = last
with_colons ((text, name) ∷ parts) last = text ++ (b':' ∷ (name ++ with_colons parts last))

cut_byte-append : (c : ℕ) (s t : List ℕ) → IsFreeOf c s → cut_byte c (s ++ c ∷ t) ≡ some (s, t)
unfolding cut_byte
cut_byte-append c [] t h = ground arith
cut_byte-append c (b ∷ s) t (p, h) = rw (p, cut_byte-append c s t h) refl

cut_byte-free : (c : ℕ) (s : List ℕ) → IsFreeOf c s → cut_byte c s ≡ none
unfolding cut_byte
cut_byte-free c [] h = refl
cut_byte-free c (b ∷ s) (p, h) = rw (p, cut_byte-free c s h) refl

first_placeholder-part :
    (text name rest : List ℕ)
    → IsFreeOf b'{' text
    → IsFreeOf b'}' name
    → first_placeholder (text ++ (b'{' ∷ (name ++ (b'}' ∷ rest)))) ≡ some (text, name, rest)
unfolding first_placeholder
first_placeholder-part text name rest p q =
    rw (cut_byte-append b'{' text (name ++ (b'}' ∷ rest)) p, cut_byte-append b'}' name rest q) refl

first_placeholder-last : (last : List ℕ) → IsFreeOf b'{' last → first_placeholder last ≡ none
unfolding first_placeholder
first_placeholder-last last h = rw (cut_byte-free b'{' last h) refl

-- A pattern has at least as many bytes as parts.
parts_bound : (parts : Parts) (last : List ℕ) → length parts ≤ length (braced parts last)
parts_bound [] last = omega arith
parts_bound ((text, name) ∷ parts) last =
    rw (length-append text (b'{' ∷ (name ++ (b'}' ∷ braced parts last))))
      (rw (length-append name (b'}' ∷ braced parts last)) (omega (arith, parts_bound parts last)))

colon_from-step :
    (fuel : ℕ) (built before name rest pattern : List ℕ)
    → first_placeholder pattern ≡ some (before, name, rest)
    → colon_from (suc fuel) built pattern ≡ colon_from fuel (built ++ before ++ b':' ∷ name) rest
unfolding colon_from
colon_from-step fuel built before name rest pattern h =
    ap (colon_next (colon_from fuel) built pattern) h

names_from-step :
    (fuel : ℕ) (names : List (List ℕ)) (before name rest pattern : List ℕ)
    → first_placeholder pattern ≡ some (before, name, rest)
    → names_from (suc fuel) names pattern ≡ names_from fuel (names ++ name ∷ []) rest
unfolding names_from
names_from-step fuel names before name rest pattern h = ap (names_next (names_from fuel) names) h

colon_from-parts :
    (fuel : ℕ) (built : List ℕ) (parts : Parts) (last : List ℕ)
    → length parts ≤ fuel
    → All IsPart parts
    → IsFreeOf b'{' last
    → colon_from (suc fuel) built (braced parts last) ≡ some (built ++ with_colons parts last)
unfolding colon_from
colon_from-parts fuel built [] last h p q =
    ap (colon_next (colon_from fuel) built last) (first_placeholder-last last q)
colon_from-parts zero built ((text, name) ∷ parts) last h p q = absurd (omega arith)
colon_from-parts (suc fuel) built ((text, name) ∷ parts) last h ((p₁, p₂), p) q =
    colon_from-step (suc fuel) built text name (braced parts last) _
      (first_placeholder-part text name (braced parts last) p₁ p₂)
    ∙ (colon_from-parts fuel (built ++ text ++ b':' ∷ name) parts last (omega arith) p q
        ∙ ap some (
            append_assoc (built ++ text) (b':' ∷ name) (with_colons parts last)
            ∙ append_assoc built text (b':' ∷ name ++ with_colons parts last)))

names_from-parts :
    (fuel : ℕ) (names : List (List ℕ)) (parts : Parts) (last : List ℕ)
    → length parts ≤ fuel
    → All IsPart parts
    → IsFreeOf b'{' last
    → names_from (suc fuel) names (braced parts last) ≡ some (names ++ map (λ p. p.1) parts)
unfolding names_from
names_from-parts fuel names [] last h p q =
    ap (names_next (names_from fuel) names) (first_placeholder-last last q)
    ∙ ap some (sym (append-nil names))
names_from-parts zero names ((text, name) ∷ parts) last h p q = absurd (omega arith)
names_from-parts (suc fuel) names ((text, name) ∷ parts) last h ((p₁, p₂), p) q =
    names_from-step (suc fuel) names text name (braced parts last) _
      (first_placeholder-part text name (braced parts last) p₁ p₂)
    ∙ (names_from-parts fuel (names ++ name ∷ []) parts last (omega arith) p q
        ∙ ap some (append_assoc names (name ∷ []) (map (λ p. p.1) parts)))

-- One more than the bytes that follow a cut or a placeholder.
abbrev cut_length : Option (List ℕ × List ℕ) → ℕ
cut_length none = 0
cut_length (some (before, after)) = suc (length after)

abbrev placeholder_length : Option (List ℕ × List ℕ × List ℕ) → ℕ
placeholder_length none = 0
placeholder_length (some (before, name, rest)) = suc (length rest)

longer_cut-length :
    (b : ℕ) (o : Option (List ℕ × List ℕ)) → cut_length (longer_cut b o) ≡ cut_length o
longer_cut-length b none = refl
longer_cut-length b (some (before, after)) = refl

cut_byte-length : (c : ℕ) (s : List ℕ) → cut_length (cut_byte c s) ≤ length s
unfolding cut_byte
cut_byte-length c [] = omega arith
cut_byte-length c (b ∷ s) = elim (Bool-cases (eqb b c)) [
  | inl e ↦ rw e (omega arith)
  | inr e ↦ rw (e, longer_cut-length b (cut_byte c s)) (omega (arith, cut_byte-length c s))
]

in_braces-length :
    (before : List ℕ) (o : Option (List ℕ × List ℕ))
    → placeholder_length (in_braces before o) ≡ cut_length o
in_braces-length before none = refl
in_braces-length before (some (name, rest)) = refl

after_open-length :
    (o : Option (List ℕ × List ℕ)) → placeholder_length (after_open o) ≤ cut_length o
after_open-length none = omega arith
after_open-length (some (before, after)) =
    rw (in_braces-length before (cut_byte b'}' after)) (omega (arith, cut_byte-length b'}' after))

first_placeholder-length :
    (pattern : List ℕ) → placeholder_length (first_placeholder pattern) ≤ length pattern
unfolding first_placeholder
first_placeholder-length pattern =
    omega (arith, after_open-length (cut_byte b'{' pattern), cut_byte-length b'{' pattern)

colon_next-ends :
    (fuel : ℕ) (built pattern : List ℕ) (o : Option (List ℕ × List ℕ × List ℕ))
    → placeholder_length o ≤ fuel
    → (result : List ℕ) × (colon_next (colon_from fuel) built pattern o ≡ some result)
unfolding colon_from
colon_next-ends fuel built pattern none h = (built ++ pattern, refl)
colon_next-ends zero built pattern (some (before, name, rest)) h = absurd (omega arith)
colon_next-ends (suc fuel) built pattern (some (before, name, rest)) h =
    colon_next-ends fuel (built ++ before ++ b':' ∷ name) rest (first_placeholder rest)
      (omega (arith, first_placeholder-length rest))

colon_pattern-ends : (pattern : List ℕ) → (result : List ℕ) × (colon_pattern pattern ≡ some result)
unfolding colon_pattern colon_from
colon_pattern-ends pattern =
    colon_next-ends (length pattern) [] pattern (first_placeholder pattern)
      (first_placeholder-length pattern)

names_next-ends :
    (fuel : ℕ) (names : List (List ℕ)) (o : Option (List ℕ × List ℕ × List ℕ))
    → placeholder_length o ≤ fuel
    → (result : List (List ℕ)) × (names_next (names_from fuel) names o ≡ some result)
unfolding names_from
names_next-ends fuel names none h = (names, refl)
names_next-ends zero names (some (before, name, rest)) h = absurd (omega arith)
names_next-ends (suc fuel) names (some (before, name, rest)) h =
    names_next-ends fuel (names ++ name ∷ []) (first_placeholder rest)
      (omega (arith, first_placeholder-length rest))

param_names-ends :
    (pattern : List ℕ) → (result : List (List ℕ)) × (param_names pattern ≡ some result)
unfolding param_names names_from
param_names-ends pattern =
    names_next-ends (length pattern) [] (first_placeholder pattern)
      (first_placeholder-length pattern)

-- Both loops over a pattern end within one step for each byte and one more, for every pattern. One of
-- texts without opening braces and placeholders without closing ones is turned into the same texts
-- with a colon before each name, and its parameters are the names in order.
pub colon_pattern-braced :
    (parts : Parts) (last : List ℕ)
    → All IsPart parts
    → IsFreeOf b'{' last
    → ((pattern : List ℕ) → (result : List ℕ) × (colon_pattern pattern ≡ some result))
      × ((pattern : List ℕ) → (result : List (List ℕ)) × (param_names pattern ≡ some result))
      × (colon_pattern (braced parts last) ≡ some (with_colons parts last))
      × (param_names (braced parts last) ≡ some (map (λ p. p.1) parts))
unfolding colon_pattern param_names
colon_pattern-braced parts last p q = (
  colon_pattern-ends,
  param_names-ends,
  colon_from-parts (length (braced parts last)) [] parts last (parts_bound parts last) p q,
  names_from-parts (length (braced parts last)) [] parts last (parts_bound parts last) p q,
)
