-- ===== src/Tests/Samples.antt =====
-- A server over the in-memory store with one client, one user, and tokens of theirs.
use go_identity.Common.{true, false, [], ◌∷◌, none, some, ◌==◌, pos, if◌then◌else◌}
use go_identity.Failure.{SecurityError, ok, err, security}
use go_identity.Effect.{Env, World}
use go_identity.Security.{Hasher}
use go_identity.Identity.Token.{AccessToken, RefreshToken, AuthorizationCode}
use go_identity.Identity.Client.{Client}
use go_identity.Identity.User.{User}
use go_identity.Memory.{memory_store}
use go_identity.Memory.State.{Memory}
use go_identity.Account.Service.{Service, Options}
use go_identity.Oauth.Server.{Server, opaque_token_generator}

-- A hash function that keeps its input, and a clock that stands at two milliseconds.
abbrev pub env : Env
env = record {
  clock = λ n. 2_000_000;
  entropy = λ n k. n ∷ [];
  sha256 = λ bytes. bytes;
  trim_space = λ s. s;
  to_lower = λ s. s;
  equal_fold = λ a b. a == b;
  parse_address = λ s. some s;
  parse_basic_auth = λ s. none;
  query_unescape = λ s. some s;
  itoa = λ n. "3600";
  url_encode = λ v. "";
}

-- A hasher that keeps the secret.
abbrev pub plain_hasher : Hasher
plain_hasher = record {
  hash = λ draw secret. ok secret;
  verify = λ hash secret. if hash == secret then ok tt else err (security SecurityError.mismatch);
}

abbrev pub options : Options
options = record {
  application_name = "Identity";
  require_activation = true;
  activation_token_lifetime = pos 172_800_000_000_000;
  password_reset_token_lifetime = pos 3_600_000_000_000;
  min_password_length = pos 8;
  max_failed_attempts = pos 3;
  lockout_duration = pos 900_000_000_000;
}

abbrev pub accounts : Service Memory
accounts = record {
  store = memory_store env;
  env = env;
  hasher = plain_hasher;
  deliver = λ m. ok tt;
  activation_url = λ token. token;
  password_reset_url = λ token. token;
  opts = options;
}

abbrev pub server : Server Memory
server = record {
  store = memory_store env;
  env = env;
  accounts = accounts;
  hasher = plain_hasher;
  issuer = "https://id.example";
  base_path = "";
  scopes_supported = "read" ∷ "write" ∷ [];
  interactive = true;
  generate = opaque_token_generator env;
}

abbrev pub app : Client
app = record {
  id = "client-1";
  client_id = "app";
  name = "App";
  description = "";
  type = "confidential";
  secret_hash = "secret";
  redirect_uris = "https://app.example/callback" ∷ [];
  allowed_scopes = "read" ∷ "write" ∷ [];
  default_scopes = "read" ∷ [];
  allowed_grant_types = "authorization_code" ∷ "refresh_token" ∷ "client_credentials" ∷ [];
  require_consent = false;
  require_pkce = false;
  enabled = true;
  access_token_lifetime = pos 3_600_000_000_000;
  authorization_code_lifetime = pos 300_000_000_000;
  refresh_token_usage = "onetime";
  refresh_token_expiration = "absolute";
  refresh_token_lifetime = pos 7_200_000_000_000;
  created_at = 0;
  updated_at = 0;
}

abbrev pub alice : User
alice = record {
  id = "user-1";
  username = "alice";
  normalized_username = "alice";
  email = "alice@app.example";
  normalized_email = "alice@app.example";
  password_hash = "correct horse";
  email_verified = true;
  enabled = true;
  security_stamp = "stamp";
  failed_login_count = 0;
  lockout_end = none;
  last_login_at = none;
  created_at = 0;
  updated_at = 0;
}

-- The code whose value is "c".
abbrev pub fresh_code : AuthorizationCode
fresh_code = record {
  id = "code-1";
  code_hash = "63";
  client_id = "client-1";
  user_id = "user-1";
  scopes = "read" ∷ [];
  redirect_uri = "";
  code_challenge = "";
  code_challenge_method = "";
  created_at = 0;
  expires_at = 9_000_000;
  consumed_at = none;
}

abbrev pub used_code : AuthorizationCode
used_code = record fresh_code { consumed_at = some 1_000_000 }

-- The access token whose value is "a".
abbrev pub access_token : AccessToken
access_token = record {
  id = "access-1";
  token_hash = "61";
  client_id = "client-1";
  user_id = "user-1";
  scopes = "read" ∷ [];
  authorization_code_id = "code-1";
  created_at = 0;
  expires_at = 9_000_000;
}

-- The refresh token whose value is "r".
abbrev pub refresh_token : RefreshToken
refresh_token = record {
  id = "refresh-1";
  token_hash = "72";
  client_id = "client-1";
  user_id = "user-1";
  access_token_id = "access-1";
  authorization_code_id = "code-1";
  scopes = "read" ∷ [];
  token_expiration = "absolute";
  token_usage = "reuse";
  lifetime = pos 7_200_000_000_000;
  created_at = 0;
  updated_at = 0;
  expires_at = 9_000_000;
}

-- The store with this code.
abbrev pub stored : AuthorizationCode → Memory
stored code = record {
  clients = ("client-1", app) ∷ [];
  users = ("user-1", alice) ∷ [];
  access_tokens = ("access-1", access_token) ∷ [];
  refresh_tokens = ("refresh-1", refresh_token) ∷ [];
  authorization_codes = ("code-1", code) ∷ [];
  user_tokens = [];
}

abbrev pub world : AuthorizationCode → World Memory
world code = record { db = stored code; ticks = 0; drawn = 0; sent = [] }
