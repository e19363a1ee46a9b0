-- ===== src/Api/ClientRequest.antt =====
-- pkg/api/clients.go: the client of a request and of a response.
use go_identity.Common.{ℕ, String, Bool, false, List, Option, none, some, ◌!=◌, ltb, ℤ, pos, negsuc}
use go_identity.Failure.{Result, ok, new_validation_error, ◌>>◌, refuse}
use go_identity.Identity.Client.{Client, ensure_defaults, validate}
use go_identity.Api.{duration, seconds}

-- `Client` of the API. Lifetimes are in seconds.
pub record ClientView : Type 0 where
  pub id : String
  pub client_id : String
  pub name : String
  pub description : String
  pub type : String
  pub has_secret : Bool
  pub redirect_uris : List String
  pub allowed_scopes : List String
  pub default_scopes : List String
  pub grant_types : List String
  pub require_consent : Bool
  pub require_pkce : Bool
  pub enabled : Bool
  pub access_token_lifetime : ℤ
  pub authorization_code_lifetime : ℤ
  pub refresh_token_lifetime : ℤ
  pub refresh_token_usage : String
  pub refresh_token_expiration : String
  pub created_at : ℕ
  pub updated_at : ℕ

-- `ClientRequest`; an absent `enabled` is `none`.
pub record ClientRequest : Type 0 where
  pub client_id : String
  pub name : String
  pub description : String
  pub type : String
  pub redirect_uris : List String
  pub allowed_scopes : List String
  pub default_scopes : List String
  pub grant_types : List String
  pub require_consent : Bool
  pub require_pkce : Bool
  pub enabled : Option Bool
  pub access_token_lifetime : ℤ
  pub authorization_code_lifetime : ℤ
  pub refresh_token_lifetime : ℤ
  pub refresh_token_usage : String
  pub refresh_token_expiration : String

pub record ClientWithSecret : Type 0 where
  pub client : ClientView
  pub client_secret : String

pub record SecretResponse : Type 0 where
  pub client_secret : String

-- `toClient`
unfoldable pub to_client : Client → ClientView
to_client c = record {
  id = c.id;
  client_id = c.client_id;
  name = c.name;
  description = c.description;
  type = c.type;
  has_secret = c.secret_hash != "";
  redirect_uris = c.redirect_uris;
  allowed_scopes = c.allowed_scopes;
  default_scopes = c.default_scopes;
  grant_types = c.allowed_grant_types;
  require_consent = c.require_consent;
  require_pkce = c.require_pkce;
  enabled = c.enabled;
  access_token_lifetime = seconds c.access_token_lifetime;
  authorization_code_lifetime = seconds c.authorization_code_lifetime;
  refresh_token_lifetime = seconds c.refresh_token_lifetime;
  refresh_token_usage = c.refresh_token_usage;
  refresh_token_expiration = c.refresh_token_expiration;
  created_at = c.created_at;
  updated_at = c.updated_at;
}

-- The optional value, or another one in its absence.
abbrev or_else : Option Bool → Bool → Bool
or_else none b = b
or_else (some a) b = a

-- The client that `apply` fills in from a request.
unfoldable pub applied : ClientRequest → Client → Client
applied req c = ensure_defaults (record c {
  client_id = req.client_id;
  name = req.name;
  description = req.description;
  type = req.type;
  redirect_uris = req.redirect_uris;
  allowed_scopes = req.allowed_scopes;
  default_scopes = req.default_scopes;
  allowed_grant_types = req.grant_types;
  require_consent = req.require_consent;
  require_pkce = req.require_pkce;
  enabled = or_else req.enabled c.enabled;
  access_token_lifetime = duration req.access_token_lifetime;
  authorization_code_lifetime = duration req.authorization_code_lifetime;
  refresh_token_lifetime = duration req.refresh_token_lifetime;
  refresh_token_usage = req.refresh_token_usage;
  refresh_token_expiration = req.refresh_token_expiration;
})

-- `d > 10*time.Minute`
abbrev exceeds_ten_minutes : ℤ → Bool
exceeds_ten_minutes (pos n) = ltb 600_000_000_000 n
exceeds_ten_minutes (negsuc n) = false

-- `apply`
unfoldable pub apply : (String → Bool) → ClientRequest → Client → Result Client
apply is_absolute_uri req c =
    let filled = applied req c in
    (refuse (exceeds_ten_minutes filled.authorization_code_lifetime)
        (new_validation_error "authorization_code_lifetime" "must not exceed 600 seconds")
      >> validate is_absolute_uri filled)
    >> ok filled
