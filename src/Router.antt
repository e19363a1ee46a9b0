-- ===== src/Router.antt =====
-- pkg/router/router.go: the patterns of routes, and routers that change what they register. A
-- pattern is the list of its bytes; a router is what it does with a method, a pattern and a handler.
pub mod Patterns
use go_identity.Common.{
  ℕ, zero, suc, String, Bool, true, false, List, [], ◌∷◌, ◌++◌, Option, none, some, ◌==◌, eqb,
  length, if◌then◌else◌,
}

abbrev pub longer_cut : ℕ → Option (List ℕ × List ℕ) → Option (List ℕ × List ℕ)
longer_cut b none = none
longer_cut b (some (before, after)) = some (b ∷ before, after)

-- `strings.IndexByte(s, c)` with the parts before and after the byte; its -1 is `none`.
unfoldable pub cut_byte : ℕ → List ℕ → Option (List ℕ × List ℕ)
cut_byte c [] = none
cut_byte c (b ∷ s) =
    let rest = longer_cut b (cut_byte c s) in if eqb b c then some ([], s) else rest

-- The placeholder that a pattern holds first: what stands before it, its name, and the rest.
abbrev pub in_braces : List ℕ → Option (List ℕ × List ℕ) → Option (List ℕ × List ℕ × List ℕ)
in_braces before none = none
in_braces before (some (name, rest)) = some (before, name, rest)

abbrev pub after_open : Option (List ℕ × List ℕ) → Option (List ℕ × List ℕ × List ℕ)
after_open none = none
after_open (some (before, after)) = in_braces before (cut_byte b'}' after)

unfoldable pub first_placeholder : List ℕ → Option (List ℕ × List ℕ × List ℕ)
first_placeholder pattern = after_open (cut_byte b'{' pattern)

-- One step of `ColonPattern`, with the text built so far and the rest of the loop.
abbrev pub colon_next :
    (List ℕ → List ℕ → Option (List ℕ))
    → List ℕ
    → List ℕ
    → Option (List ℕ × List ℕ × List ℕ)
    → Option (List ℕ)
colon_next loop built pattern none = some (built ++ pattern)
colon_next loop built pattern (some (before, name, rest)) =
    loop (built ++ before ++ b':' ∷ name) rest

-- The loop of `ColonPattern`; `none` when the fuel is used up.
unfoldable pub colon_from : ℕ → List ℕ → List ℕ → Option (List ℕ)
colon_from zero built pattern = none
colon_from (suc fuel) built pattern =
    colon_next (colon_from fuel) built pattern (first_placeholder pattern)

-- `ColonPattern`; the loop is given one step for each byte and one more.
unfoldable pub colon_pattern : List ℕ → Option (List ℕ)
colon_pattern pattern = colon_from (suc (length pattern)) [] pattern

-- One step of `ParamNames`.
abbrev pub names_next :
    (List (List ℕ) → List ℕ → Option (List (List ℕ)))
    → List (List ℕ)
    → Option (List ℕ × List ℕ × List ℕ)
    → Option (List (List ℕ))
names_next loop names none = some names
names_next loop names (some (before, name, rest)) = loop (names ++ name ∷ []) rest

-- The loop of `ParamNames`.
unfoldable pub names_from : ℕ → List (List ℕ) → List ℕ → Option (List (List ℕ))
names_from zero names pattern = none
names_from (suc fuel) names pattern = names_next (names_from fuel) names (first_placeholder pattern)

-- `ParamNames`
unfoldable pub param_names : List ℕ → Option (List (List ℕ))
param_names pattern = names_from (suc (length pattern)) [] pattern

-- `strings.HasSuffix(pattern, "/")`
abbrev pub ends_with_slash : List ℕ → Bool
ends_with_slash [] = false
ends_with_slash (b ∷ []) = eqb b b'/'
ends_with_slash (b ∷ c ∷ s) = ends_with_slash (c ∷ s)

-- `strings.TrimSuffix(prefix, "/")`
abbrev pub without_slash : List ℕ → List ℕ
without_slash [] = []
without_slash (b ∷ []) = if eqb b b'/' then [] else b ∷ []
without_slash (b ∷ c ∷ s) = b ∷ without_slash (c ∷ s)

-- `Router`, over a type of handlers and the effect of a registration.
abbrev pub Router : Type 0 → Type 0 → Type 0
Router H R = String → List ℕ → H → R

abbrev prefixed : {H R : Type 0} → Router H R → List ℕ → Router H R
prefixed r [] = r
prefixed r (b ∷ prefix) = λ method pattern handler. r method (b ∷ prefix ++ pattern) handler

-- `WithPrefix`
unfoldable pub with_prefix : {H R : Type 0} → Router H R → List ℕ → Router H R
with_prefix r prefix = prefixed r (without_slash prefix)

-- The loop of `WithMiddleware`, which wraps from the last middleware to the first.
unfoldable pub wrapped : {H : Type 0} → List (H → H) → H → H
wrapped [] handler = handler
wrapped (first ∷ middleware) handler = first (wrapped middleware handler)

-- `WithMiddleware`
unfoldable pub with_middleware : {H R : Type 0} → Router H R → List (H → H) → Router H R
unfolding wrapped
with_middleware r middleware =
    λ method pattern handler. r method pattern (wrapped middleware handler)

-- The pattern that `ServeMux.Handle` registers.
unfoldable pub mux_pattern : List ℕ → List ℕ
mux_pattern pattern =
    if ends_with_slash pattern then pattern ++ b'{' ∷ b'$' ∷ b'}' ∷ [] else pattern
