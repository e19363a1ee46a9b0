-- ===== src/Command.antt =====
-- cmd/identity-server: the configuration (config.go), and the start of the server up to the HTTP
-- listener (main.go). The flag package is a function that overrides the defaults. The texts of errors
-- leave out quoted values and the note that the admin client was being provisioned.
use go_identity.Common.{
  String, Bool, true, false, ◌&&◌, ◌||◌, [], ◌∷◌, Option, none, some, ◌==◌, ◌!=◌, not, ltb,
  contains, length, bytes, ℤ, pos, text_append, if◌then◌else◌,
}
use go_identity.Failure.{Result, ok, err, other, ◌>>=◌, ◌>>◌, refuse}
use go_identity.Effect
use go_identity.Effect.{Env, M}
use go_identity.Identity.Client.{Client, client_type_confidential, grant_type_client_credentials}
use go_identity.Server.{Config, Surroundings, IdentityServer, new_server}
use go_identity.Server.Clients.{ensure_client}

-- `Config`, without the names of the database, the log level and the settings of SMTP.
pub record CommandConfig : Type 0 where
  pub public_url : String
  pub base_path : String
  pub application_name : String
  pub session_key : String
  pub router : String
  pub database_driver : String
  pub database_dsn : String
  pub allow_registration : Bool
  pub disable_activation : Bool
  pub admin_client_id : String
  pub admin_client_secret : String
  pub cleanup_interval : ℤ

-- `os.LookupEnv`, `strconv.ParseBool` and `time.ParseDuration`.
pub record Environment : Type 0 where
  pub lookup_env : String → Option String
  pub parse_bool : String → Option Bool
  pub parse_duration : String → Option ℤ

abbrev or_fallback {ℓ} : {A : Type ℓ} → Option A → A → A
or_fallback none fallback = fallback
or_fallback (some a) fallback = a

abbrev parsed_by {ℓ} : {A : Type ℓ} → (String → Option A) → Option String → Option A
parsed_by parse none = none
parsed_by parse (some text) = parse text

module _ (e : Environment) where
  -- `env`
  unfoldable pub env_text : String → String → String
  env_text name fallback = or_fallback (e.lookup_env name) fallback

  -- `envBool`
  unfoldable pub env_bool : String → Bool → Bool
  env_bool name fallback = or_fallback (parsed_by e.parse_bool (e.lookup_env name)) fallback

  -- `envDuration`
  unfoldable pub env_duration : String → ℤ → ℤ
  env_duration name fallback = or_fallback (parsed_by e.parse_duration (e.lookup_env name)) fallback

  -- The defaults of the flags in `ParseConfig`.
  unfoldable pub flag_defaults : CommandConfig
  unfolding env_text env_bool env_duration
  flag_defaults = record {
    public_url = env_text "IDENTITY_PUBLIC_URL" "http://localhost:8080";
    base_path = env_text "IDENTITY_BASE_PATH" "";
    application_name = env_text "IDENTITY_APP_NAME" "Identity";
    session_key = env_text "IDENTITY_SESSION_KEY" "";
    router = env_text "IDENTITY_ROUTER" "std";
    database_driver = env_text "IDENTITY_DB_DRIVER" "memory";
    database_dsn = env_text "IDENTITY_DB_DSN" "";
    allow_registration = env_bool "IDENTITY_ALLOW_REGISTRATION" false;
    disable_activation = env_bool "IDENTITY_DISABLE_ACTIVATION" false;
    admin_client_id = env_text "IDENTITY_ADMIN_CLIENT_ID" "";
    admin_client_secret = env_text "IDENTITY_ADMIN_CLIENT_SECRET" "";
    cleanup_interval = env_duration "IDENTITY_CLEANUP_INTERVAL" (pos 900_000_000_000);
  }

abbrev check_driver : String → String → Result (Unit {0})
check_driver driver dsn =
    if driver == "memory"
    then ok tt
    else if contains ("sqlite" ∷ "postgres" ∷ "mysql" ∷ "mongo" ∷ []) driver
    then refuse (dsn == "")
        (other (text_append "a database connection string is required for " driver))
    else err (other "unsupported database driver")

abbrev is_router : String → Bool
is_router name = contains ("std" ∷ "chi" ∷ "gin" ∷ "httprouter" ∷ "gorillamux" ∷ "echo" ∷ []) name

-- One of two tests holds, and the other does not.
abbrev differ : Bool → Bool → Bool
differ true b = not b
differ false b = b

-- `Validate`
unfoldable pub validate_config : Env → CommandConfig → Result (Unit {0})
validate_config env c = do
  refuse (c.session_key != "" && ltb (length (bytes c.session_key)) 32)
      (other "the session key must have at least 32 characters")
  refuse (differ (c.admin_client_id == "") (c.admin_client_secret == ""))
      (other "the admin client id and secret must be set together")
  refuse
      (c.admin_client_secret != ""
        && (ltb (length (bytes c.admin_client_secret)) 16
            || ltb 72 (length (bytes c.admin_client_secret))))
      (other "the admin client secret must have between 16 and 72 characters")
  check_driver c.database_driver c.database_dsn
  refuse (not (is_router (env.to_lower c.router))) (other "unsupported router")

-- `ParseConfig`; `parse` is `fs.Parse` of the arguments over the defaults.
unfoldable pub parse_config :
    Env → Environment → (CommandConfig → Result CommandConfig) → Result CommandConfig
parse_config env e parse = do c ← parse (flag_defaults e); validate_config env c; ok c

-- The configuration that `run` gives to `server.New`.
unfoldable pub server_config : CommandConfig → Config
server_config c = record {
  public_url = c.public_url;
  base_path = c.base_path;
  application_name = c.application_name;
  session_key = bytes c.session_key;
  session_lifetime = pos 0;
  insecure_cookies = false;
  allow_registration = c.allow_registration;
  disable_activation = c.disable_activation;
  min_password_length = pos 0;
  max_failed_attempts = pos 0;
  lockout_duration = pos 0;
  admin_scope = "";
  disable_api = false;
  scopes_supported = [];
}

-- The client that `run` provisions for the management API.
unfoldable pub admin_client : CommandConfig → String → Client
admin_client c admin_scope = record {
  id = "";
  client_id = c.admin_client_id;
  name = "Identity administration";
  description = "";
  type = client_type_confidential;
  secret_hash = "";
  redirect_uris = [];
  allowed_scopes = admin_scope ∷ [];
  default_scopes = admin_scope ∷ [];
  allowed_grant_types = grant_type_client_credentials ∷ [];
  require_consent = false;
  require_pkce = false;
  enabled = true;
  access_token_lifetime = pos 0;
  authorization_code_lifetime = pos 0;
  refresh_token_usage = "";
  refresh_token_expiration = "";
  refresh_token_lifetime = pos 0;
  created_at = 0;
  updated_at = 0;
}

module _ {S : Type 0} (around : Surroundings S) where
  -- The part of `run` that provisions the admin client.
  unfoldable pub provision_admin : CommandConfig → IdentityServer S → M S (Unit {0})
  provision_admin c srv =
      if c.admin_client_id != ""
      then Effect.◌>>=◌
          (ensure_client around (admin_client c srv.config.admin_scope) c.admin_client_secret)
          (λ client. Effect.pure tt)
      else Effect.pure tt

  -- `run`, from the opened store to the handler.
  unfoldable pub start : CommandConfig → M S (IdentityServer S)
  start c =
      Effect.◌>>=◌ (new_server around (server_config c))
        (λ srv. Effect.◌>>=◌ (provision_admin c srv) (λ done. Effect.pure srv))
