-- ===== src/Tests/Passwords.antt =====
-- Changes of the sample user's password.
use go_identity.Common.{suc, String, ◌≡◌, refl, ◌≢◌, true, false, [], ◌∷◌, none, some, ne_of_test}
use go_identity.Failure.{Result, ok}
use go_identity.Effect.{World}
use go_identity.Security.{base64_encode}
use go_identity.Identity.User.{User}
use go_identity.Identity.Token.{UserToken}
use go_identity.Memory.State.{Memory}
use go_identity.Memory.Sweep.{IsRevoked}
use go_identity.Account.Service.{get_user}
use go_identity.Account.Password.{change_password, reset_password}
use go_identity.Account.Password.Change.{with_password}
use go_identity.Account.Password.Revocation.{change_password_revokes}
use go_identity.Account.Password.Reset.{IsReset, reset_password_sound}
use go_identity.Tests.Samples.{env, accounts, alice, fresh_code, stored, world}
use go_identity.Tests.Stored.{fresh-IsWellFormed}

abbrev pub start : World Memory
start = world fresh_code

-- The user with the new password and the token of the second drawn byte.
abbrev pub saved : User
saved = record alice {
  password_hash = "battery staple";
  security_stamp = "AQ";
  updated_at = 2_000_000;
}

abbrev pub changed : Result User × World Memory
changed = change_password accounts alice "battery staple" start

pub change_runs : changed ≡ (ok saved, changed.1)
unfolding change_password go_identity.Effect.◌>>=◌ go_identity.Account.Service.validate_password
    go_identity.Common.runes go_identity.Common.bytes go_identity.Security.hash_secret
    go_identity.Security.new_token go_identity.Effect.now go_identity.Memory.Users.update_user
    go_identity.Account.Users.revoke_tokens go_identity.Memory.RefreshTokens.delete_refresh_tokens
    go_identity.Memory.AccessTokens.delete_access_tokens go_identity.Security.base64_encode
change_runs = refl

change_password_revokes_example :
    (get_user accounts "user-1" changed.1.db ≡ ok saved)
    × (accounts.hasher.hash 0 "battery staple" ≡ ok "battery staple")
    × ("AQ" ≡ base64_encode (env.entropy 1 32))
    × (saved ≡ with_password alice "battery staple" "AQ" 2_000_000)
    × IsRevoked (λ t. t.user_id) "user-1" start.db.access_tokens changed.1.db.access_tokens
    × IsRevoked (λ t. t.user_id) "user-1" start.db.refresh_tokens changed.1.db.refresh_tokens
change_password_revokes_example =
    change_password_revokes env accounts alice "battery staple" start saved changed.1 change_runs
      (ne_of_test "user-1" "" refl) fresh-IsWellFormed

-- The reset token whose value is "t".
abbrev reset_token : UserToken
reset_token = record {
  id = "token-1";
  user_id = "user-1";
  purpose = "password_reset";
  token_hash = "74";
  created_at = 0;
  expires_at = 9_000_000;
}

abbrev asked : World Memory
asked = record start {
  db = record (stored fresh_code) { user_tokens = ("token-1", reset_token) ∷ [] };
}

abbrev reset : Result User × World Memory
reset = reset_password accounts "t" "battery staple" asked

reset_runs : reset ≡ (ok saved, reset.1)
unfolding reset_password go_identity.Effect.◌>>=◌ go_identity.Account.Service.validate_password
    go_identity.Common.runes go_identity.Common.bytes
    go_identity.Account.UserTokens.lookup_user_token go_identity.Effect.refuse_if
    go_identity.Effect.map_error go_identity.Memory.Codes.get_user_token_by_hash
    go_identity.Security.hash_token go_identity.Security.hex_encode go_identity.Effect.now
    go_identity.Identity.Token.user_token_has_expired go_identity.Memory.Users.get_user_by_id
    change_password go_identity.Security.hash_secret go_identity.Security.new_token
    go_identity.Memory.Users.update_user go_identity.Account.Users.revoke_tokens
    go_identity.Memory.RefreshTokens.delete_refresh_tokens
    go_identity.Memory.AccessTokens.delete_access_tokens go_identity.Memory.Codes.delete_user_tokens
    go_identity.Security.base64_encode
reset_runs = refl

reset_password_sound_example : IsReset accounts "t" "battery staple" asked saved reset.1
reset_password_sound_example =
    reset_password_sound accounts "t" "battery staple" asked saved reset.1 reset_runs
