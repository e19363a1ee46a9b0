-- ===== src/Ui/Interaction/Sound.antt =====
-- Who the current user of a request is.
use go_identity.Common.{
  suc, ◌≡◌, refl, ◌≢◌, sym, ap, ◌∙◌, true, ◌||◌, List, some, ◌!=◌, not, arith, eq_iff, Bool-cases,
  Option-cases, inl, inr, ||-false, eq_of_not_ne, not-false,
}
use go_identity.Failure.{Error, Result, ok, err}
use go_identity.Effect.{World, ◌>>=◌, clock_reading, recover}
use go_identity.Identity.User.{User}
use go_identity.Account.Service.{get_user, can_sign_in, signs_in}
use go_identity.Session.{Session, Cookie, get}
use go_identity.Ui.{Ui, Request}
use go_identity.Ui.Interaction.{current_user, of_session, signed_out, is_no_such_user}

signs_in-ok : (r : Result (Unit {0})) → signs_in r ≡ true → r ≡ ok tt
signs_in-ok (ok tt) h = refl
signs_in-ok (err e) h = cc

module _ {S : Type 0} (u : Ui S) where
  of_session-some :
      (s : Session) (stored user : User) (cookies : List Cookie)
      → of_session u s stored ≡ (some user, cookies)
      → (stored ≡ user)
        × (stored.security_stamp ≡ s.security_stamp)
        × (can_sign_in u.accounts stored ≡ ok tt)
  unfolding of_session
  of_session-some s stored user cookies h =
      elim (Bool-cases (
        stored.security_stamp != s.security_stamp
        || not (signs_in (can_sign_in u.accounts stored)))) [
          | inl e ↦ absurd (ground arith)
          | inr e ↦
              let (stamp, active) = ||-false _ _ e in
              let same : some stored ≡ some user = ground arith in
              (cc, eq_of_not_ne _ _ stamp, signs_in-ok _ (not-false _ active))
        ]

  -- What makes a user the current one.
  pub record IsCurrent (r : Request) (w : World S) (user : User) : Type 0 where
    pub session : Session
    pub presented : get u.sessions (u.sessions.env.clock w.ticks) r.sender ≡ some session
    pub known : get_user u.accounts session.user_id w.db ≡ ok user
    pub stamp : user.security_stamp ≡ session.security_stamp
    pub active : can_sign_in u.accounts user ≡ ok tt

  current_user-known :
      (r : Request) (s : Session) (user : User) (w : World S)
      → get u.sessions (u.sessions.env.clock w.ticks) r.sender ≡ some s
      → get_user u.accounts s.user_id w.db ≡ ok user
      → current_user u r w ≡ (ok (of_session u s user), record w { ticks = suc w.ticks })
  unfolding current_user ◌>>=◌ clock_reading recover
  current_user-known r s user w presented known = rw (presented, known) refl

  current_user-unknown :
      (r : Request) (s : Session) (e : Error) (w : World S) {user : User} {cookies : List Cookie}
      {w' : World S}
      → get u.sessions (u.sessions.env.clock w.ticks) r.sender ≡ some s
      → get_user u.accounts s.user_id w.db ≡ err e
      → current_user u r w ≢ (ok (some user, cookies), w')
  unfolding current_user ◌>>=◌ clock_reading recover
  current_user-unknown r s e w presented failed h = elim (Bool-cases (is_no_such_user e)) [
    | inl known ↦ absurd (ground arith)
    | inr other ↦ absurd (ground arith)
  ]

  -- If a request has a current user, it presents a valid session, the store has this user under the
  -- identifier of the session, with the security stamp of the session, and the user may sign in.
  pub current_user_sound :
      (r : Request) (user : User) (cookies : List Cookie) (w w' : World S)
      → current_user u r w ≡ (ok (some user, cookies), w')
      → IsCurrent r w user
  unfolding current_user ◌>>=◌ clock_reading recover
  current_user_sound r user cookies w w' h =
      elim (Option-cases (get u.sessions (u.sessions.env.clock w.ticks) r.sender)) [
        | inl e ↦ absurd (ground arith)
        | inr (s, e) ↦ go s e (get_user u.accounts s.user_id w.db) refl
      ]
    where
      go :
          (s : Session)
          → get u.sessions (u.sessions.env.clock w.ticks) r.sender ≡ some s
          → (o : Result User) → get_user u.accounts s.user_id w.db ≡ o
          → IsCurrent r w user
      go s e (ok stored) k =
          let kept : (ok (of_session u s stored), record w { ticks = suc w.ticks })
              ≡ (ok (some user, cookies), w') =
            sym (current_user-known r s stored w e k) ∙ h in
          let (same, stamp, active) = of_session-some s stored user cookies cc in
          record {
            session = s;
            presented = e;
            known = k ∙ ap ok same;
            stamp = ap (λ x. x.security_stamp) (sym same) ∙ stamp;
            active = ap (can_sign_in u.accounts) (sym same) ∙ active;
          }
      go s e (err x) k = absurd (current_user-unknown r s x w e k h)

  -- A session whose stamp is not the one of its user has no current user, and its cookie is removed.
  pub current_user_stale :
      (r : Request) (s : Session) (user : User) (w : World S)
      → get u.sessions (u.sessions.env.clock w.ticks) r.sender ≡ some s
      → get_user u.accounts s.user_id w.db ≡ ok user
      → user.security_stamp ≢ s.security_stamp
      → current_user u r w ≡ (ok (signed_out u), record w { ticks = suc w.ticks })
  unfolding current_user ◌>>=◌ clock_reading recover of_session
  current_user_stale r s user w presented known stamp =
      rw (presented, known) (grind (arith, eq_iff user.security_stamp s.security_stamp))
