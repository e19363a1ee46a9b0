-- ===== src/Oauth/Metadata.antt =====
-- The metadata document of pkg/oauth/server.go.
use go_identity.Common.{
  String, List, [], ◌∷◌, Option, none, some, map, text_append, text_less, if◌then◌else◌,
}
use go_identity.Security.Pkce.{code_challenge_method_s256, code_challenge_method_plain}
use go_identity.Identity.Client.{response_type_code, response_type_token, grant_type_implicit}
use go_identity.Oauth.Server.{Server}
use go_identity.Oauth.Endpoint.{Grants}

-- `Metadata`; an omitted endpoint is `none`.
pub record Metadata : Type 0 where
  pub issuer : String
  pub authorization_endpoint : Option String
  pub token_endpoint : String
  pub revocation_endpoint : String
  pub introspection_endpoint : String
  pub scopes_supported : List String
  pub response_types_supported : List String
  pub grant_types_supported : List String
  pub token_endpoint_auth_methods_supported : List String
  pub code_challenge_methods_supported : List String

-- `sort.Strings`, as an insertion sort.
unfoldable pub insert_text : String → List String → List String
insert_text s [] = s ∷ []
insert_text s (t ∷ ts) = if text_less t s then t ∷ insert_text s ts else s ∷ t ∷ ts

unfoldable pub sort_texts : List String → List String
unfolding insert_text
sort_texts [] = []
sort_texts (s ∷ ss) = insert_text s (sort_texts ss)

-- `Metadata`, for the registered grants.
unfoldable pub metadata : {S : Type 0} → Server S → Grants S → Metadata
unfolding sort_texts
metadata srv grants = record {
  issuer = srv.issuer;
  authorization_endpoint =
      if srv.interactive then some (text_append srv.issuer "/authorize") else none;
  token_endpoint = text_append srv.issuer "/token";
  revocation_endpoint = text_append srv.issuer "/revoke";
  introspection_endpoint = text_append srv.issuer "/introspect";
  scopes_supported = srv.scopes_supported;
  response_types_supported = response_type_code ∷ response_type_token ∷ [];
  grant_types_supported = sort_texts (grant_type_implicit ∷ map (λ g. g.0) grants);
  token_endpoint_auth_methods_supported =
      "client_secret_basic" ∷ "client_secret_post" ∷ "none" ∷ [];
  code_challenge_methods_supported = code_challenge_method_s256 ∷ code_challenge_method_plain ∷ [];
}
