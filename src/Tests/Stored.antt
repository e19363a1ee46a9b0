-- ===== src/Tests/Stored.antt =====
-- The sample store is well formed.
use go_identity.Common.{◌≡◌, refl, List, [], ◌∷◌, All, ne_of_test, subst}
use go_identity.Identity.Token.{AuthorizationCode}
use go_identity.Memory.State.{new}
use go_identity.Memory.Invariant.{IsWellFormed}
use go_identity.Memory.Invariant.Reachable.{
  Write, adds_client, adds_user, adds_access_token, adds_refresh_token, adds_code, apply_all,
  IsNamed, apply_all-IsWellFormed,
}
use go_identity.Tests.Samples.{
  app, alice, access_token, refresh_token, fresh_code, used_code, stored,
}

-- The writes that fill the sample store.
abbrev pub writes : AuthorizationCode → List Write
writes code =
    adds_client app
    ∷ adds_user alice
    ∷ adds_access_token access_token
    ∷ adds_refresh_token refresh_token
    ∷ adds_code code
    ∷ []

fresh_written : apply_all (writes fresh_code) new ≡ stored fresh_code
unfolding apply_all
fresh_written = refl

used_written : apply_all (writes used_code) new ≡ stored used_code
unfolding apply_all
used_written = refl

pub fresh-IsNamed : All IsNamed (writes fresh_code)
fresh-IsNamed = (
  ne_of_test "client-1" "" refl,
  (
    ne_of_test "user-1" "" refl,
    (
      ne_of_test "access-1" "" refl,
      (ne_of_test "refresh-1" "" refl, (ne_of_test "code-1" "" refl, tt)),
    ),
  ),
)

pub fresh-IsWellFormed : IsWellFormed (stored fresh_code)
fresh-IsWellFormed =
    subst IsWellFormed fresh_written (apply_all-IsWellFormed (writes fresh_code) fresh-IsNamed)

pub used-IsWellFormed : IsWellFormed (stored used_code)
used-IsWellFormed =
    subst IsWellFormed used_written (apply_all-IsWellFormed (writes used_code) fresh-IsNamed)
