-- ===== src/Account/Password/Revocation.antt =====
-- The sign-ins and tokens of a user after a change of the password, over the in-memory store.
use go_identity.Common.{suc, String, ◌≡◌, refl, ◌≢◌, ap, ◌∙◌, arith, eq_iff, Bool-cases, inl, inr}
use go_identity.Failure.{ok}
use go_identity.Effect.{Env, World, time}
use go_identity.Security.{base64_encode}
use go_identity.Identity.User.{User}
use go_identity.Identity.Token.{is_some}
use go_identity.Memory.{memory_store}
use go_identity.Memory.State.{Memory, access_token_fields, refresh_token_fields}
use go_identity.Memory.Table.{get, put, get-put, get-delete_where}
use go_identity.Memory.Sweep.{IsRevoked, match_token-user, unless_holds-same}
use go_identity.Memory.Invariant.{IsWellFormed}
use go_identity.Memory.Users.{update_user, get_user_by_id, user_taken}
use go_identity.Memory.AccessTokens.{delete_access_tokens}
use go_identity.Memory.RefreshTokens.{delete_refresh_tokens}
use go_identity.Account.Service.{Service, get_user}
use go_identity.Account.Password.{change_password}
use go_identity.Account.Password.Change.{
  with_password, without_tokens, IsChanged, change_password_ok,
}

-- The service over the in-memory store.
abbrev pub accounts_in_memory : Env → Service Memory → Service Memory
accounts_in_memory env svc = record svc { store = memory_store env }

update_user-ok :
    (user : User) (s : Memory)
    → (update_user user s).0 ≡ ok tt
    → (update_user user s).1 ≡ record s { users = put user.id user s.users }
unfolding update_user
update_user-ok user s h = elim (Bool-cases (is_some (get user.id s.users))) [
  | inl e ↦ elim (Bool-cases (user_taken user user.id s)) [
    | inl e' ↦ absurd (ground arith)
    | inr e' ↦ rw (e, e') refl
  ]
  | inr e ↦ absurd (ground arith)
]

module _ (env : Env) (svc : Service Memory) where
  -- On a well-formed in-memory store, a change of the password that succeeds saves the user, so that
  -- a lookup gives the user with the hash that the hasher makes of the given password, the token
  -- drawn next as stamp, no failures and no lock, and otherwise as before; it deletes every access
  -- and refresh token of the user, and keeps every token of others as it is.
  pub change_password_revokes :
      (user : User) (password : String) (w : World Memory) (saved : User) (w' : World Memory)
      → change_password (accounts_in_memory env svc) user password w ≡ (ok saved, w')
      → user.id ≢ ""
      → IsWellFormed w.db
      → (get_user (accounts_in_memory env svc) user.id w'.db ≡ ok saved)
        × (svc.hasher.hash w.drawn password ≡ ok saved.password_hash)
        × (saved.security_stamp ≡ base64_encode (svc.env.entropy (suc w.drawn) 32))
        × (saved ≡ with_password user saved.password_hash saved.security_stamp (time svc.env w))
        × IsRevoked (λ t. t.user_id) user.id w.db.access_tokens w'.db.access_tokens
        × IsRevoked (λ t. t.user_id) user.id w.db.refresh_tokens w'.db.refresh_tokens
  unfolding get_user get_user_by_id delete_access_tokens delete_refresh_tokens
  change_password_revokes user password w saved w' h n wf =
      let changed : IsChanged (accounts_in_memory env svc) user password w saved w' =
        change_password_ok (accounts_in_memory env svc) user password w saved w' h in
      let same : saved.id ≡ user.id = ap (λ x. x.id) changed.fields in
      let after : w'.db
          ≡ without_tokens (accounts_in_memory env svc) user.id
              (record w.db { users = put saved.id saved w.db.users }) =
        changed.swept
        ∙ ap (without_tokens (accounts_in_memory env svc) user.id)
            (update_user-ok saved w.db changed.updated) in
      rw after (
        rw (get-put saved.id user.id saved w.db.users) (ground (arith, eq_iff saved.id user.id)),
        changed.hashed,
        changed.stamped,
        changed.fields,
        λ id.
            get-delete_where _ id w.db.access_tokens wf.access_tokens.map
            ∙ unless_holds-same _ _ (get id w.db.access_tokens)
                (λ t. match_token-user user.id (access_token_fields t) n),
        λ id.
            get-delete_where _ id w.db.refresh_tokens wf.refresh_tokens.map
            ∙ unless_holds-same _ _ (get id w.db.refresh_tokens)
                (λ t. match_token-user user.id (refresh_token_fields t) n),
      )
