-- ===== src/Server.antt =====
-- pkg/server/server.go: the assembled identity server, and its clean-up.
-- The text of the error about the public URL leaves out the URL.
pub mod Clients
use text.Mathlib.Text.{starts_with}
use go_identity.Common.{
  ℕ, zero, suc, String, Bool, true, ◌&&◌, ◌||◌, List, [], ◌∷◌, Option, none, some, ◌==◌, ◌!=◌, not,
  eqb, length, ℤ, pos, negsuc, text_append, if◌then◌else◌,
}
use go_identity.Failure.{StoreError, Result, ok, err, store, other}
use go_identity.Effect.{
  Env, Message, M, ◌>>=◌, ◌>>◌, pure, lift, read, write, refuse_if, now, clock_reading,
  random_bytes, logged,
}
use go_identity.Security.{Hasher, new_id, hash_secret}
use go_identity.Identity.Token.{AccessToken}
use go_identity.Identity.User.{User}
use go_identity.Identity.Client.{Client, ensure_defaults, validate}
use go_identity.Store.{Store, delete_expired}
use go_identity.Account.Service.{Service, with_defaults}
use go_identity.Oauth.Server.{Server}
use go_identity.Session.{Codec, Manager, new_manager}
use go_identity.Ui.{Ui, new_ui, trim_slash, path_activate, path_password_reset}
use go_identity.Api.{Api}

abbrev pub default_admin_scope : String
default_admin_scope = "identity.admin"

-- `Config`, without what is in `Surroundings`.
pub record Config : Type 0 where
  pub public_url : String
  pub base_path : String
  pub application_name : String
  pub session_key : List ℕ
  pub session_lifetime : ℤ
  pub insecure_cookies : Bool
  pub allow_registration : Bool
  pub disable_activation : Bool
  pub min_password_length : ℤ
  pub max_failed_attempts : ℤ
  pub lockout_duration : ℤ
  pub admin_scope : String
  pub disable_api : Bool
  pub scopes_supported : List String

-- What the server is given: the store, the hasher, the delivery of messages and the generator of
-- tokens, and functions of Go's library. `parse_public_url` gives the scheme, the host and the path.
pub record Surroundings (S : Type 0) : Type 0 where
  pub store : Store S
  pub env : Env
  pub hasher : Hasher
  pub deliver : Message → Result (Unit {0})
  pub generate : AccessToken → Client → Option User → M S String
  pub codec : Codec
  pub parse_public_url : String → Option (String × String × String)
  pub parse_url : String → Option (String × String)
  pub to_upper : String → String
  pub atoi : String → Option ℤ
  pub is_absolute_uri : String → Bool

-- `Server`, with the effective configuration.
pub record IdentityServer (S : Type 0) : Type 0 where
  pub config : Config
  pub accounts : Service S
  pub sessions : Manager
  pub oauth : Server S
  pub ui : Ui S
  pub api : Option (Api S)

-- `ActivationURL` and `PasswordResetURL` of the links.
unfoldable pub activation_url : Env → String → String → String
activation_url env public_url token =
    text_append public_url
      (text_append path_activate (text_append "?" (env.url_encode (("token", token ∷ []) ∷ []))))

unfoldable pub password_reset_url : Env → String → String → String
password_reset_url env public_url token = text_append public_url (
    text_append path_password_reset (text_append "?" (env.url_encode (("token", token ∷ []) ∷ []))))

abbrev or_text : String → String → String
or_text text default_text = if text == "" then default_text else text

-- Zero is the default, a negative number no lockout.
abbrev pub effective_attempts : ℤ → ℤ
effective_attempts (pos zero) = pos 5
effective_attempts (pos (suc n)) = pos (suc n)
effective_attempts (negsuc n) = pos 0

-- The scheme and the path of an absolute URL.
abbrev absolute : Option (String × String × String) → Result (String × String)
absolute none = err (other "server: the public url must be an absolute URL")
absolute (some (scheme, host, path)) =
    if scheme == "" || host == ""
    then err (other "server: the public url must be an absolute URL")
    else ok (scheme, path)

-- The part of `New` that fills in the configuration.
unfoldable pub effective : Config → String → List ℕ → Config
effective cfg path key = record cfg {
  public_url = trim_slash cfg.public_url;
  base_path = trim_slash (or_text cfg.base_path path);
  application_name = or_text cfg.application_name "Identity";
  admin_scope = or_text cfg.admin_scope default_admin_scope;
  max_failed_attempts = effective_attempts cfg.max_failed_attempts;
  session_key = key;
}

module _ {S : Type 0} (around : Surroundings S) where
  -- `account.New` for a configuration.
  unfoldable pub account_service : Config → Service S
  account_service cfg = record {
    store = around.store;
    env = around.env;
    hasher = around.hasher;
    deliver = around.deliver;
    activation_url = activation_url around.env cfg.public_url;
    password_reset_url = password_reset_url around.env cfg.public_url;
    opts = with_defaults (record {
      application_name = cfg.application_name;
      require_activation = not cfg.disable_activation;
      activation_token_lifetime = pos 0;
      password_reset_token_lifetime = pos 0;
      min_password_length = cfg.min_password_length;
      max_failed_attempts = cfg.max_failed_attempts;
      lockout_duration = cfg.lockout_duration;
    });
  }

  -- `session.NewManager` for a configuration and the scheme of the public URL.
  unfoldable pub session_manager : Config → String → Result Manager
  session_manager cfg scheme = new_manager around.env around.codec (record {
    key = cfg.session_key;
    cookie_name = "";
    csrf_cookie_name = "";
    path = or_text cfg.base_path "/";
    domain = "";
    secure = scheme == "https" && not cfg.insecure_cookies;
    lifetime = cfg.session_lifetime;
  })

  abbrev assembled : Config → Manager → IdentityServer S
  assembled cfg sessions =
      let accounts = account_service cfg in
      record {
        config = cfg;
        accounts = accounts;
        sessions = sessions;
        oauth = record {
          store = around.store;
          env = around.env;
          accounts = accounts;
          hasher = around.hasher;
          issuer = trim_slash cfg.public_url;
          base_path = trim_slash cfg.base_path;
          scopes_supported = cfg.scopes_supported;
          interactive = true;
          generate = around.generate;
        };
        ui = new_ui (record {
          accounts = accounts;
          sessions = sessions;
          env = around.env;
          base_path = cfg.base_path;
          application_name = cfg.application_name;
          allow_registration = cfg.allow_registration;
          parse_url = around.parse_url;
          to_upper = around.to_upper;
        });
        api =
            if cfg.disable_api
            then none
            else some (record {
              accounts = accounts;
              hasher = around.hasher;
              env = around.env;
              atoi = around.atoi;
              is_absolute_uri = around.is_absolute_uri;
            });
      }

  -- `New`, given a store.
  unfoldable pub new_server : Config → M S (IdentityServer S)
  new_server given = do
    (scheme, path) ← lift (absolute (around.parse_public_url given.public_url))
    let base_path : String = trim_slash (or_text given.base_path path)
    refuse_if (base_path != "" && not (starts_with base_path "/"))
        (other "server: the base path must start with '/'")
    key ←
        (if eqb (length given.session_key) 0
          then random_bytes around.env 32
          else pure given.session_key)
    let cfg : Config = effective given path key
    sessions ← lift (session_manager cfg scheme)
    pure (assembled cfg sessions)

  -- `Cleanup`
  unfoldable pub cleanup : M S (Unit {0})
  cleanup = do t ← clock_reading around.env; delete_expired around.store t

  -- `RunCleanup`, until the context is done after some ticks; an error is only logged.
  unfoldable pub run_cleanup : ℕ → M S (Unit {0})
  run_cleanup zero = pure tt
  run_cleanup (suc ticks) = do logged cleanup; run_cleanup ticks
