-- ===== src/Identity/Client.antt =====
-- pkg/identity/client.go. `url.Parse(uri)` with `IsAbs` is the parameter `is_absolute_uri`; the
-- lists do not tell a nil slice from an empty one.
pub mod Consistency
use go_identity.Common.{
  ℕ, zero, suc, String, Bool, true, false, ◌&&◌, ◌||◌, List, [], ◌∷◌, ◌++◌, Option, none, some,
  ◌==◌, ◌!=◌, eqb, not, all, any, contains, bytes, text_append, ℤ, pos, is_nonpositive, quot,
  if◌then◌else◌,
}
use go_identity.Failure.{Result, ok, err, new_validation_error, ◌>>=◌, ◌>>◌, refuse}
use go_identity.Identity.Scope.{is_valid_scope_token}
use go_identity.Identity.Token.{
  refresh_token_expiration_absolute, refresh_token_expiration_sliding, refresh_token_usage_reuse,
  refresh_token_usage_onetime,
}

abbrev pub client_type_confidential : String
client_type_confidential = "confidential"

abbrev pub client_type_public : String
client_type_public = "public"

abbrev pub response_type_code : String
response_type_code = "code"

abbrev pub response_type_token : String
response_type_token = "token"

abbrev pub grant_type_authorization_code : String
grant_type_authorization_code = "authorization_code"

abbrev pub grant_type_implicit : String
grant_type_implicit = "implicit"

abbrev pub grant_type_client_credentials : String
grant_type_client_credentials = "client_credentials"

abbrev pub grant_type_password : String
grant_type_password = "password"

abbrev pub grant_type_refresh_token : String
grant_type_refresh_token = "refresh_token"

-- An hour, five minutes and thirty days, in nanoseconds.
abbrev pub default_access_token_lifetime : ℤ
default_access_token_lifetime = pos 3_600_000_000_000

abbrev pub default_authorization_code_lifetime : ℤ
default_authorization_code_lifetime = pos 300_000_000_000

abbrev pub default_refresh_token_lifetime : ℤ
default_refresh_token_lifetime = pos 2_592_000_000_000_000

pub record Client : Type 0 where
  pub id : String
  pub client_id : String
  pub name : String
  pub description : String
  pub type : String
  pub secret_hash : String
  pub redirect_uris : List String
  pub allowed_scopes : List String
  pub default_scopes : List String
  pub allowed_grant_types : List String
  pub require_consent : Bool
  pub require_pkce : Bool
  pub enabled : Bool
  pub access_token_lifetime : ℤ
  pub authorization_code_lifetime : ℤ
  pub refresh_token_usage : String
  pub refresh_token_expiration : String
  pub refresh_token_lifetime : ℤ
  pub created_at : ℕ
  pub updated_at : ℕ

abbrev or_default : String → String → String
or_default s d = if s == "" then d else s

-- `if d <= 0 { d = e }`
abbrev pub lifetime_or : ℤ → ℤ → ℤ
lifetime_or d e = if is_nonpositive d then e else d

-- `EnsureDefaults`
unfoldable pub ensure_defaults : Client → Client
ensure_defaults c = record c {
  type = or_default c.type client_type_confidential;
  refresh_token_usage = or_default c.refresh_token_usage refresh_token_usage_reuse;
  refresh_token_expiration = or_default c.refresh_token_expiration refresh_token_expiration_sliding;
  access_token_lifetime = lifetime_or c.access_token_lifetime default_access_token_lifetime;
  authorization_code_lifetime =
      lifetime_or c.authorization_code_lifetime default_authorization_code_lifetime;
  refresh_token_lifetime = lifetime_or c.refresh_token_lifetime default_refresh_token_lifetime;
}

unfoldable pub is_public : Client → Bool
is_public c = c.type == client_type_public

-- `c.AccessTokenLifetimeSeconds()`; for durations that float64 holds exactly in seconds.
pub access_token_lifetime_seconds : Client → ℤ
access_token_lifetime_seconds c = quot c.access_token_lifetime 1_000_000_000

pub authorization_code_lifetime_seconds : Client → ℤ
authorization_code_lifetime_seconds c = quot c.authorization_code_lifetime 1_000_000_000

pub refresh_token_lifetime_seconds : Client → ℤ
refresh_token_lifetime_seconds c = quot c.refresh_token_lifetime 1_000_000_000

unfoldable pub match_uri : List String → String → Option String
match_uri [] uri = none
match_uri (redirect_uri ∷ more) uri =
    if redirect_uri == uri then some redirect_uri else match_uri more uri

-- `MatchRedirectUri`; its `("", false)` is `none`.
unfoldable pub match_redirect_uri : Client → String → Option String
unfolding match_uri
match_redirect_uri c uri = match_uri c.redirect_uris uri

unfoldable pub validate_redirect_uri : Client → String → Bool
unfolding match_redirect_uri
validate_redirect_uri c uri = elim (match_redirect_uri c uri) [ none ↦ false | some u ↦ true ]

unfoldable pub validate_scope : Client → String → Bool
validate_scope c scope = contains c.allowed_scopes scope

unfoldable pub validate_scopes : Client → List String → Bool
unfolding validate_scope
validate_scopes c scopes = all (validate_scope c) scopes

unfoldable pub validate_grant_type : Client → String → Bool
validate_grant_type c grant_type = contains c.allowed_grant_types grant_type

-- `strings.Contains(uri, "#")`
abbrev has_fragment : String → Bool
has_fragment uri = any (λ b. eqb b b'#') (bytes uri)

-- The loops of `Validate`.
unfoldable pub validate_uris : (String → Bool) → List String → Result (Unit {0})
validate_uris is_absolute_uri [] = ok tt
validate_uris is_absolute_uri (uri ∷ uris) =
    if not (is_absolute_uri uri) || has_fragment uri
    then err (new_validation_error "redirect_uris" "must be absolute URIs without a fragment")
    else validate_uris is_absolute_uri uris

unfoldable pub validate_scope_tokens : List String → Result (Unit {0})
validate_scope_tokens [] = ok tt
validate_scope_tokens (scope ∷ scopes) =
    if not (is_valid_scope_token scope)
    then err (new_validation_error "scopes" (text_append "contains an invalid scope: " scope))
    else validate_scope_tokens scopes

unfoldable pub validate_default_scopes : Client → List String → Result (Unit {0})
unfolding validate_scope
validate_default_scopes c [] = ok tt
validate_default_scopes c (scope ∷ scopes) =
    if not (validate_scope c scope)
    then err (new_validation_error "default_scopes" "must be a subset of allowed_scopes")
    else validate_default_scopes c scopes

unfoldable pub validate_grant_types : Client → List String → Result (Unit {0})
validate_grant_types c [] = ok tt
validate_grant_types c (grant_type ∷ more) =
    if grant_type == ""
    then err (new_validation_error "grant_types" "contains an empty grant type")
    else if grant_type == grant_type_client_credentials && c.type == client_type_public
    then err
        (new_validation_error "grant_types" "client_credentials is not allowed for public clients")
    else validate_grant_types c more

-- `Validate`
unfoldable pub validate : (String → Bool) → Client → Result (Unit {0})
unfolding validate_uris validate_scope_tokens validate_default_scopes validate_grant_types
validate is_absolute_uri c = do
  refuse (c.client_id == "") (new_validation_error "client_id" "is required")
  refuse (c.type != client_type_confidential && c.type != client_type_public)
      (new_validation_error "type" "must be 'confidential' or 'public'")
  validate_uris is_absolute_uri c.redirect_uris
  validate_scope_tokens (c.allowed_scopes ++ c.default_scopes)
  validate_default_scopes c c.default_scopes
  validate_grant_types c c.allowed_grant_types
  refuse
      (c.refresh_token_usage != refresh_token_usage_reuse
        && c.refresh_token_usage != refresh_token_usage_onetime)
      (new_validation_error "refresh_token_usage" "must be 'reuse' or 'onetime'")
  refuse
      (c.refresh_token_expiration != refresh_token_expiration_sliding
        && c.refresh_token_expiration != refresh_token_expiration_absolute)
      (new_validation_error "refresh_token_expiration" "must be 'sliding' or 'absolute'")
