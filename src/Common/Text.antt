-- ===== src/Common/Text.antt =====
-- What the source uses of Go's strings: their bytes (UTF-8), `strings.Split` at a space,
-- `strings.Join` with a space.
use Prim.Native.Nat.{ℕ, zero, suc, ◌+◌, ◌/◌, ◌%◌}
use Prim.Native.Char.{Char, code}
use Prim.Native.String
use Prim.Native.String.{String, compare}
use text.Mathlib.Text.{is_lt}
use mathlib.Core.Path.{◌≡◌, refl, ap}
use mathlib.Core.Logic.{inl, inr}
use mathlib.Core.Bool.{Bool, true, false, ◌&&◌, ◌||◌}
use mathlib.Core.Option.{Option, none, some}
use mathlib.Core.List.{List, [], ◌∷◌, ◌++◌}
use text.Mathlib.TextLemmas.{nil-append, cons-append}
use go_identity.Common.Tests.{ltb, eqb, if◌then◌else◌, Bool-cases}
use go_identity.Common.Lists.{All}

-- The UTF-8 encoding of a code point.
unfoldable pub utf8 : ℕ → List ℕ
utf8 c =
    if ltb c 0x80
    then c ∷ []
    else if ltb c 0x800
    then (0xC0 + c / 64) ∷ (0x80 + c % 64) ∷ []
    else if ltb c 0x10000
    then (0xE0 + c / 4096) ∷ (0x80 + c / 64 % 64) ∷ (0x80 + c % 64) ∷ []
    else (0xF0 + c / 262144) ∷ (0x80 + c / 4096 % 64) ∷ (0x80 + c / 64 % 64) ∷ (0x80 + c % 64) ∷ []

-- `s[0], …, s[len(s)-1]`
unfoldable pub bytes : String → List ℕ
unfolding utf8
bytes String.[] = []
bytes (String.◌∷◌ c s) = utf8 (code c) ++ bytes s

abbrev is_space : Char → Bool
is_space c = eqb (code c) 0x20

abbrev push : Char → List String → List String
push c [] = String.◌∷◌ c String.[] ∷ []
push c (f ∷ fs) = String.◌∷◌ c f ∷ fs

-- `strings.Split(s, " ")`
unfoldable pub split_spaces : String → List String
split_spaces String.[] = String.[] ∷ []
split_spaces (String.◌∷◌ c s) =
    let rest = split_spaces s in if is_space c then String.[] ∷ rest else push c rest

-- `strings.Join(xs, " ")`
unfoldable pub join_spaces : List String → String
join_spaces [] = ""
join_spaces (x ∷ []) = x
join_spaces (x ∷ y ∷ xs) = String.◌++◌ x (String.◌++◌ " " (join_spaces (y ∷ xs)))

-- The text holds no space.
abbrev pub NoSpace : String → Type 0
NoSpace String.[] = Unit
NoSpace (String.◌∷◌ c s) = (is_space c ≡ false) × NoSpace s

split_spaces_plain : (s : String) → NoSpace s → split_spaces s ≡ s ∷ []
unfolding split_spaces
split_spaces_plain String.[] h = refl
split_spaces_plain (String.◌∷◌ c s) (p, h) = rw (p, split_spaces_plain s h)

split_spaces-append :
    (s t : String)
    → NoSpace s
    → split_spaces (String.◌++◌ s (String.◌++◌ " " t)) ≡ s ∷ split_spaces t
unfolding split_spaces
split_spaces-append String.[] t h = rw nil-append (rw cons-append (rw nil-append refl))
split_spaces-append (String.◌∷◌ c s) t (p, h) = rw cons-append (rw (p, split_spaces-append s t h))

-- Splitting undoes joining, for texts without spaces.
pub split-join :
    (x : String) (xs : List String)
    → NoSpace x
    → All NoSpace xs
    → split_spaces (join_spaces (x ∷ xs)) ≡ x ∷ xs
unfolding join_spaces
split-join x [] p h = split_spaces_plain x p
split-join x (y ∷ xs) p (q, h) =
    rw (split_spaces-append x (join_spaces (y ∷ xs)) p) (ap (λ l. x ∷ l) (split-join y xs q h))

push-NoSpace :
    (c : Char) (fs : List String) → is_space c ≡ false → All NoSpace fs → All NoSpace (push c fs)
push-NoSpace c [] p h = ((p, tt), tt)
push-NoSpace c (f ∷ fs) p (q, h) = ((p, q), h)

-- No part of a split text holds a space.
pub split_spaces-NoSpace : (s : String) → All NoSpace (split_spaces s)
unfolding split_spaces
split_spaces-NoSpace String.[] = (tt, tt)
split_spaces-NoSpace (String.◌∷◌ c s) = elim (Bool-cases (is_space c)) [
  | inl e ↦ rw e (tt, split_spaces-NoSpace s)
  | inr e ↦ rw e (push-NoSpace c (split_spaces s) e (split_spaces-NoSpace s))
]

-- `s + t`
abbrev pub text_append : String → String → String
text_append s t = String.◌++◌ s t

-- The character of an alphabet at a place, as a text; past the end, the empty text.
abbrev pub pick : String → ℕ → String
pick String.[] n = ""
pick (String.◌∷◌ c s) zero = String.◌∷◌ c String.[]
pick (String.◌∷◌ c s) (suc n) = pick s n

-- `for _, r := range s`: the code points.
unfoldable pub runes : String → List ℕ
runes String.[] = []
runes (String.◌∷◌ c s) = code c ∷ runes s

abbrev starts_with_bytes : List ℕ → List ℕ → Bool
starts_with_bytes xs [] = true
starts_with_bytes [] (y ∷ ys) = false
starts_with_bytes (x ∷ xs) (y ∷ ys) = eqb x y && starts_with_bytes xs ys

abbrev contains_bytes : List ℕ → List ℕ → Bool
contains_bytes [] ys = starts_with_bytes [] ys
contains_bytes (x ∷ xs) ys = starts_with_bytes (x ∷ xs) ys || contains_bytes xs ys

-- `strings.Contains(s, t)`
unfoldable pub text_contains : String → String → Bool
unfolding bytes
text_contains s t = contains_bytes (bytes s) (bytes t)

-- `s < t` on texts
abbrev pub text_less : String → String → Bool
text_less s t = is_lt (compare s t)

abbrev longer_head : Char → Option (String × String) → Option (String × String)
longer_head c none = none
longer_head c (some (before, after)) = some (String.◌∷◌ c before, after)

-- `strings.Cut(s, " ")`; its `ok == false` is `none`.
unfoldable pub cut_space : String → Option (String × String)
cut_space String.[] = none
cut_space (String.◌∷◌ c s) =
    let rest = longer_head c (cut_space s) in if is_space c then some ("", s) else rest
