-- ===== src/Identity/Scope.antt =====
-- pkg/identity/scope.go
pub mod Parse
pub mod Compare
use go_identity.Common.{
  ℕ, String, Bool, true, false, ◌&&◌, ◌||◌, List, [], ◌∷◌, ◌==◌, ltb, eqb, not, all, contains,
  length, bytes, split_spaces, join_spaces, if◌then◌else◌,
}

-- The loop of `ParseScope` over the fields, with the set `seen`.
parse_fields : List String → List String → List String
parse_fields seen [] = []
parse_fields seen (field ∷ fields) =
    let skipped = parse_fields seen fields in
    let kept = field ∷ parse_fields (field ∷ seen) fields in
    if field == "" || contains seen field then skipped else kept

unfoldable pub parse_scope : String → List String
unfolding parse_fields split_spaces
parse_scope scope = parse_fields [] (split_spaces scope)

unfoldable pub format_scope : List String → String
unfolding join_spaces
format_scope scopes = join_spaces scopes

-- One byte of a scope token: %x21 / %x23-5B / %x5D-7E.
abbrev pub is_scope_byte : ℕ → Bool
is_scope_byte c = not (ltb c 0x21 || eqb c 0x22 || eqb c 0x5C || ltb 0x7E c)

unfoldable pub is_valid_scope_token : String → Bool
unfolding bytes
is_valid_scope_token scope = if scope == "" then false else all is_scope_byte (bytes scope)

unfoldable pub validate_scope_syntax : List String → Bool
unfolding is_valid_scope_token
validate_scope_syntax scopes = all is_valid_scope_token scopes

pub scopes_equal : List String → List String → Bool
scopes_equal a b = if not (eqb (length a) (length b)) then false else all (contains a) b

unfoldable pub has_scope : List String → String → Bool
has_scope scopes scope = contains scopes scope
