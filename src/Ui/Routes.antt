-- ===== src/Ui/Routes.antt =====
-- The routes of pkg/ui/ui.go.
use go_identity.Common.{String, List, [], ◌∷◌, ◌++◌, if◌then◌else◌}
use go_identity.Effect.{M}
use go_identity.Ui.{
  Ui, Request, Reply, path_home, path_login, path_activate, path_activation_resend,
  path_password_forgot, path_password_reset,
}
use go_identity.Ui.Login.{home, login_page, login_submit, logout_page, logout_submit}
use go_identity.Ui.Registration.{
  register_page, register_submit, activate_page, resend_page, resend_submit,
}
use go_identity.Ui.Password.{forgot_page, forgot_submit, reset_page, reset_submit}

-- A method, a path below the base path, and the handler.
abbrev pub Route : Type 0 → Type 0
Route S = String × String × (Request → M S Reply)

abbrev path_logout : String
path_logout = "/logout"

abbrev path_register : String
path_register = "/register"

module _ {S : Type 0} (u : Ui S) where
  -- `RegisterRoutes`: the routes in the order of their registration.
  unfoldable pub routes : List (Route S)
  routes =
      (("GET", path_home, home u)
        ∷ ("GET", path_login, login_page u)
        ∷ ("POST", path_login, login_submit u)
        ∷ ("GET", path_logout, logout_page u)
        ∷ ("POST", path_logout, logout_submit u)
        ∷ [])
      ++ (if u.allow_registration
          then ("GET", path_register, register_page u)
            ∷ ("POST", path_register, register_submit u)
            ∷ []
          else [])
      ++ (("GET", path_activate, activate_page u)
          ∷ ("GET", path_activation_resend, resend_page u)
          ∷ ("POST", path_activation_resend, resend_submit u)
          ∷ ("GET", path_password_forgot, forgot_page u)
          ∷ ("POST", path_password_forgot, forgot_submit u)
          ∷ ("GET", path_password_reset, reset_page u)
          ∷ ("POST", path_password_reset, reset_submit u)
          ∷ [])
