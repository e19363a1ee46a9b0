-- ===== src/Oauth/Lookup.antt =====
-- What a user found for a grant has to be.
use go_identity.Common.{◌≡◌, refl, String, false, not}
use go_identity.Failure.{Result, ok, err}
use go_identity.Effect.{World}
use go_identity.Effect.Inversion.{read-then, map_error-then, refuse_if-then, pure-eq}
use go_identity.Identity.User.{User}
use go_identity.Account.Service.{can_sign_in, signs_in}
use go_identity.Oauth.Server.{Server}
use go_identity.Oauth.Tokens.{lookup_user}

pub signs_in-ok : (r : Result (Unit {0})) → not (signs_in r) ≡ false → r ≡ ok tt
signs_in-ok (ok u) h = refl
signs_in-ok (err e) h = cc

module _ {S : Type 0} (srv : Server S) where
  pub lookup_user_lem :
      (id : String) (w : World S) {user : User} {w' : World S}
      → lookup_user srv id w ≡ (ok user, w')
      → (srv.store.get_user_by_id id w.db ≡ ok user)
        × (can_sign_in srv.accounts user ≡ ok tt)
        × (w ≡ w')
  unfolding lookup_user
  lookup_user_lem id w h =
      let (u, found, h₁) = read-then _ _ w (map_error-then _ _ _ w h) in
      let (active, h₂) = refuse_if-then _ _ _ w h₁ in
      let (same, stays) = pure-eq u w h₂ in
      (cc (found, same), cc (signs_in-ok _ active, same), stays)
