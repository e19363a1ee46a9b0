-- ===== src/Ui/Interaction/Stale.antt =====
-- Sessions from before a change of the password.
use go_identity.Common.{suc, String, ◌≡◌, ◌≢◌, sym, ap, ◌∙◌, some}
use go_identity.Failure.{ok}
use go_identity.Effect.{Env, World}
use go_identity.Security.{base64_encode}
use go_identity.Identity.User.{User}
use go_identity.Memory.State.{Memory}
use go_identity.Memory.Invariant.{IsWellFormed}
use go_identity.Account.Service.{get_user}
use go_identity.Account.Password.{change_password}
use go_identity.Account.Password.Revocation.{accounts_in_memory, change_password_revokes}
use go_identity.Session.{Session, get}
use go_identity.Ui.{Ui, Request}
use go_identity.Ui.Interaction.{current_user, signed_out}
use go_identity.Ui.Interaction.Sound.{current_user_stale}

-- The user interface over the in-memory store.
abbrev pub ui_in_memory : Env → Ui Memory → Ui Memory
ui_in_memory env u = record u { accounts = accounts_in_memory env u.accounts }

module _ (env : Env) (u : Ui Memory) where
  -- After a change of the password that succeeds on a well-formed in-memory store, a request with a
  -- session of that user has no current user, and its cookie is removed, if the 32 random bytes that
  -- the change draws do not encode to the stamp of the session.
  pub change_password-stale :
      (user : User) (password : String) (w : World Memory) (saved : User) (w' : World Memory)
      (r : Request) (s : Session)
      → change_password (accounts_in_memory env u.accounts) user password w ≡ (ok saved, w')
      → user.id ≢ ""
      → IsWellFormed w.db
      → get u.sessions (u.sessions.env.clock w'.ticks) r.sender ≡ some s
      → s.user_id ≡ user.id
      → base64_encode (u.accounts.env.entropy (suc w.drawn) 32) ≢ s.security_stamp
      → current_user (ui_in_memory env u) r w'
        ≡ (ok (signed_out (ui_in_memory env u)), record w' { ticks = suc w'.ticks })
  change_password-stale user password w saved w' r s changed n wf presented same fresh =
      let (stored, hashed, stamped, fields, access, refresh) =
        change_password_revokes env u.accounts user password w saved w' changed n wf in
      current_user_stale (ui_in_memory env u) r s saved w' presented
        (ap (λ id. get_user (accounts_in_memory env u.accounts) id w'.db) same ∙ stored)
        (λ e. fresh (sym stamped ∙ e))
