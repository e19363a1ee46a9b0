-- ===== src/Tests/Routes.antt =====
-- The pattern of a route of the management API.
use go_identity.Common.{ℕ, ◌≡◌, refl, List, [], ◌∷◌, map, some}
use go_identity.Router.{colon_pattern, param_names}
use go_identity.Router.Patterns.{Parts, braced, with_colons, colon_pattern-braced}

-- "/a/{id}/b"
abbrev parts : Parts
parts = ((b'/' ∷ b'a' ∷ b'/' ∷ []), (b'i' ∷ b'd' ∷ [])) ∷ []

abbrev last : List ℕ
last = b'/' ∷ b'b' ∷ []

colon_pattern-braced_example :
    ((pattern : List ℕ) → (result : List ℕ) × (colon_pattern pattern ≡ some result))
    × ((pattern : List ℕ) → (result : List (List ℕ)) × (param_names pattern ≡ some result))
    × (colon_pattern (braced parts last) ≡ some (with_colons parts last))
    × (param_names (braced parts last) ≡ some (map (λ p. p.1) parts))
colon_pattern-braced_example =
    colon_pattern-braced parts last (((refl, (refl, (refl, tt))), (refl, (refl, tt))), tt)
      (refl, (refl, tt))
