-- ===== src/Tests/Management.antt =====
-- Requests to the sample management API.
use go_identity.Api.ClientRequest.{to_client}
use go_identity.Common.{
  ◌+◌, ◌*◌, ◌^◌, String, ◌≡◌, refl, true, false, List, [], ◌∷◌, none, some, pos, arith,
}
use go_identity.Failure.{Result, ok, err}
use go_identity.Effect.{World}
use go_identity.Memory.State.{Memory}
use go_identity.Api.{
  Api, Target, Payload, parsed, malformed, Response, json, created, failure, no_body,
}
use go_identity.Api.ClientRequest.{ClientRequest, ClientWithSecret, apply, applied}
use go_identity.Api.Clients.{create_client}
use go_identity.Api.Clients.Secret.{IsRegistered, create_client_sound}
use go_identity.Api.Duration.{with_code_lifetime, apply_wraps}
use go_identity.Tests.Samples.{env, plain_hasher, accounts, app, fresh_code, world}

abbrev api : Api Memory
api = record {
  accounts = accounts;
  hasher = plain_hasher;
  env = env;
  atoi = λ text. none;
  is_absolute_uri = λ uri. true;
}

abbrev target : Target
target = record { path = "/api/clients"; id = "client-1"; query = []; limit_first = false }

abbrev client_request : ClientRequest
client_request = record {
  client_id = "new";
  name = "New";
  description = "";
  type = "";
  redirect_uris = "https://new.example/callback" ∷ [];
  allowed_scopes = "read" ∷ [];
  default_scopes = [];
  grant_types = "authorization_code" ∷ [];
  require_consent = true;
  require_pkce = true;
  enabled = none;
  access_token_lifetime = pos 0;
  authorization_code_lifetime = pos 60;
  refresh_token_lifetime = pos 0;
  refresh_token_usage = "";
  refresh_token_expiration = "";
}

abbrev client_payload : Payload ClientRequest
client_payload = record {
  media_type = some "application/json";
  decoded = parsed client_request true;
}

abbrev location_of : Result (Response ClientWithSecret) → String
location_of (ok (json status shown)) = ""
location_of (ok (created location shown)) = location
location_of (ok (failure status e)) = ""
location_of (ok (no_body status)) = ""
location_of (err e) = ""

abbrev shown_by : ClientWithSecret → Result (Response ClientWithSecret) → ClientWithSecret
shown_by d (ok (json status shown)) = shown
shown_by d (ok (created location shown)) = shown
shown_by d (ok (failure status e)) = d
shown_by d (ok (no_body status)) = d
shown_by d (err e) = d

abbrev registration : Result (Response ClientWithSecret) × World Memory
registration = create_client api target client_payload (world fresh_code)

abbrev shown : ClientWithSecret
shown = shown_by (record { client = to_client app; client_secret = "" }) registration.0

registration_runs : registration ≡ (ok (created (location_of registration.0) shown), registration.1)
unfolding create_client go_identity.Api.decode go_identity.Api.handled go_identity.Effect.recover
    go_identity.Effect.◌>>=◌ go_identity.Effect.now go_identity.Security.new_id apply applied
    go_identity.Identity.Client.ensure_defaults go_identity.Api.duration
    go_identity.Identity.Client.validate go_identity.Common.bytes
    go_identity.Identity.Scope.is_valid_scope_token go_identity.Api.Clients.with_secret
    go_identity.Identity.Client.is_public go_identity.Security.new_token
    go_identity.Security.hash_secret go_identity.Memory.Clients.create_client
    go_identity.Security.hex_encode
registration_runs = refl

create_client_sound_example :
    IsRegistered api client_payload (world fresh_code) shown registration.1
create_client_sound_example =
    create_client_sound api target client_payload (world fresh_code) (location_of registration.0)
      shown registration.1 registration_runs

apply_wraps_example :
    ((applied (with_code_lifetime client_request (pos 60)) app).authorization_code_lifetime
      ≡ pos (60 * 1_000_000_000))
    × (apply (λ uri. true) (with_code_lifetime client_request (pos (60 + 2 ^ 55))) app
        ≡ apply (λ uri. true) (with_code_lifetime client_request (pos 60)) app)
apply_wraps_example = apply_wraps (λ uri. true) client_request app 60 (omega arith) (omega arith)
