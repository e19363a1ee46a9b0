-- ===== src/Oauth/Server.antt =====
-- The authorization server of pkg/oauth/server.go, and its client authentication
-- (pkg/oauth/client_auth.go).
pub mod ClientAuth
use go_identity.Common.{
  ℕ, String, Bool, true, false, ◌&&◌, ◌||◌, List, Option, none, some, ◌==◌, ◌!=◌, not,
  if◌then◌else◌,
}
use text.Mathlib.Text.{starts_with}
use go_identity.Failure.{Error, Result, ok, err}
use go_identity.Failure
use go_identity.Effect.{
  Env, M, World, ◌>>=◌, ◌>>◌, pure, lift, read, refuse_if, map_error, is_not_found, now,
}
use go_identity.Security.{Hasher, new_token}
use go_identity.Identity.Token.{AccessToken}
use go_identity.Identity.Client.{Client, is_public}
use go_identity.Identity.User.{User}
use go_identity.Store.{Store}
use go_identity.Account.Service.{Service, verifies}
use go_identity.Oauth.Error.{refusal, server_error, error_invalid_request, error_invalid_client}
use go_identity.Oauth.Params.{Values, Request, param}

-- `Options` and `Server`. `generate` is the token generator.
pub record Server (S : Type 0) : Type 0 where
  pub store : Store S
  pub env : Env
  pub accounts : Service S
  pub hasher : Hasher
  pub issuer : String
  pub base_path : String
  pub scopes_supported : List String
  pub interactive : Bool
  pub generate : AccessToken → Client → Option User → M S String

-- `OpaqueTokenGenerator`
unfoldable pub opaque_token_generator :
    {S : Type 0} → Env → AccessToken → Client → Option User → M S String
unfolding new_token
opaque_token_generator env token client user = new_token env

-- What the Authorization header and the body say of the client.
pub record Credentials : Type 0 where
  pub client_id : String
  pub client_secret : String
  pub used_basic : Bool

abbrev malformed_header : Error
malformed_header = refusal error_invalid_client "malformed basic authentication header"

abbrev unescaped : Option String → Result String
unescaped none = err malformed_header
unescaped (some s) = ok s

-- The credentials of an HTTP Basic header, decoded.
abbrev basic_parts : Env → String → Result (String × String)
basic_parts env header = elim (env.parse_basic_auth header) [
  | none ↦ err malformed_header
  | some (basic_id, basic_secret) ↦
      Failure.◌>>=◌ (unescaped (env.query_unescape basic_id))
        λ id. Failure.◌>>=◌ (unescaped (env.query_unescape basic_secret)) λ secret. ok (id, secret)
]

-- The head of `AuthenticateClient`: the credentials of the header and of the body.
unfoldable pub read_credentials : Env → Request → Values → Result Credentials
unfolding param
read_credentials env r form = Failure.◌>>=◌ (param form "client_id") λ client_id.
    Failure.◌>>=◌ (param form "client_secret") λ client_secret.
      if r.authorization == ""
      then ok (record { client_id = client_id; client_secret = client_secret; used_basic = false })
      else if not (starts_with (env.to_lower r.authorization) "basic ")
      then err (refusal error_invalid_client "unsupported client authentication method")
      else Failure.◌>>=◌ (basic_parts env r.authorization) λ p.
        if client_secret != ""
        then err (
            refusal error_invalid_request
              "the client must not use more than one authentication method")
        else if client_id != "" && client_id != p.0
        then err (
            refusal error_invalid_request
              "the client_id parameter doesn't match the authenticated client")
        else ok (record { client_id = p.0; client_secret = p.1; used_basic = true })

abbrev pub authentication_failed : Error
authentication_failed = refusal error_invalid_client "client authentication failed"

-- An unknown client fails like a wrong secret; another store error is a server error.
abbrev lookup_error : Error → Error
lookup_error e = if is_not_found e then authentication_failed else server_error e

module _ {S : Type 0} (srv : Server S) where
  -- `AuthenticateClient`. The verification against a dummy hash, whose result the code drops, only
  -- spends time and is left out.
  unfoldable pub authenticate_client : Request → Values → M S Client
  authenticate_client r form = do
    c ← lift (read_credentials srv.env r form)
    refuse_if (c.client_id == "") (refusal error_invalid_client "client authentication is required")
    client ← map_error lookup_error (read (srv.store.get_client_by_client_id c.client_id))
    refuse_if (not client.enabled) authentication_failed
    refuse_if (is_public client && (c.used_basic || c.client_secret != ""))
        (refusal error_invalid_client "public clients can't authenticate with a secret")
    refuse_if
        (not (is_public client)
          && (c.client_secret == ""
              || client.secret_hash == ""
              || not (verifies srv.hasher client.secret_hash c.client_secret)))
        authentication_failed
    pure client
