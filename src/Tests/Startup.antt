-- ===== src/Tests/Startup.antt =====
-- The configuration of the command, checked.
use go_identity.Common.{◌≡◌, refl, none}
use go_identity.Failure.{ok, err, other}
use go_identity.Command.{Environment, flag_defaults, validate_config}
use go_identity.Tests.Samples.{env}

-- An environment without variables.
abbrev bare : Environment
bare = record { lookup_env = λ name. none; parse_bool = λ t. none; parse_duration = λ t. none }

defaults_pass : validate_config env (flag_defaults bare) ≡ ok tt
unfolding validate_config flag_defaults
defaults_pass = refl

lone_secret :
    validate_config env (record (flag_defaults bare) { admin_client_secret = "0123456789abcdef" })
    ≡ err (other "the admin client id and secret must be set together")
unfolding validate_config flag_defaults
lone_secret = refl
