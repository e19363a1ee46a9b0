-- ===== src/Memory/Invariant/Entries.antt =====
-- The operations that create or update clients and users, update refresh tokens or consume codes
-- keep the store well formed.
use go_identity.Common.{
  ℕ, ◌≡◌, refl, ◌≢◌, String, Bool, false, Option, none, some, arith, ◌==◌, ◌!=◌, ◌&&◌, ◌||◌, eq_iff,
  Bool-cases, inl, inr,
}
use go_identity.Identity.Token.{RefreshToken, AuthorizationCode, is_some}
use go_identity.Identity.Client.{Client}
use go_identity.Identity.User.{User}
use go_identity.Memory.State.{Memory}
use go_identity.Memory.Table.{get, find}
use go_identity.Memory.Unique.{put-IsIndexed, replace-IsIndexed}
use go_identity.Memory.Clients.{create_client, update_client, client_id_taken}
use go_identity.Memory.Users.{create_user, update_user, user_taken}
use go_identity.Memory.RefreshTokens.{update_refresh_token}
use go_identity.Memory.Codes.{consume, consume_authorization_code}
use go_identity.Memory.Invariant.{
  IsWellFormed, not_is_some, with_clients, with_users, with_refresh_tokens,
  with_authorization_codes,
}

-- Of two tests that refuse, neither held.
neither : (a b : Bool) → a || b ≡ false → (a ≡ false) × (b ≡ false)
neither a b h = (ground arith, ground arith)

pub create_client_lem :
    (x : Client) (s : Memory) → x.id ≢ "" → IsWellFormed s → IsWellFormed (create_client x s).1
unfolding create_client client_id_taken
create_client_lem x s named h =
    elim (Bool-cases (is_some (get x.id s.clients) || client_id_taken x.client_id "" s)) [
      | inl e ↦ rw e h
      | inr e ↦ rw e (
          with_clients h (
            put-IsIndexed _ _ x s.clients (λ y. y.client_id == x.client_id && y.id != "") h.clients
              named (not_is_some _ (neither _ _ e).1)
              (λ w p n q. ground (arith, eq_iff w.client_id x.client_id, eq_iff w.id ""))))
    ]

pub update_client_lem :
    (x : Client) (s : Memory) → x.id ≢ "" → IsWellFormed s → IsWellFormed (update_client x s).1
unfolding update_client client_id_taken
update_client_lem x s named h = elim (Bool-cases (is_some (get x.id s.clients))) [
  | inr e ↦ rw e h
  | inl e ↦ elim (Bool-cases (client_id_taken x.client_id x.id s)) [
    | inl e' ↦ rw (e, e') h
    | inr e' ↦
        rw (e, e')
          (with_clients h (
            put-IsIndexed _ _ x s.clients (λ y. y.client_id == x.client_id && y.id != x.id)
              h.clients named (not_is_some _ e')
              (λ w p n q. ground (arith, eq_iff w.client_id x.client_id, eq_iff w.id x.id))))
  ]
]

pub update_refresh_token_lem :
    (x : RefreshToken) (s : Memory)
    → x.id ≢ ""
    → IsWellFormed s
    → IsWellFormed (update_refresh_token x s).1
unfolding update_refresh_token
update_refresh_token_lem x s named h = elim (Bool-cases (is_some (get x.id s.refresh_tokens))) [
  | inr e ↦ rw e h
  | inl e ↦
      elim (Bool-cases
        (is_some (find (λ y. y.token_hash == x.token_hash && y.id != x.id) s.refresh_tokens))) [
          | inl e' ↦ rw (e, e') h
          | inr e' ↦
              rw (e, e')
                (with_refresh_tokens h (
                  put-IsIndexed _ _ x s.refresh_tokens
                    (λ y. y.token_hash == x.token_hash && y.id != x.id) h.refresh_tokens named
                    (not_is_some _ e')
                    (λ w p n q.
                      ground (arith, eq_iff w.token_hash x.token_hash, eq_iff w.id x.id))))
        ]
]

pub create_user_lem :
    (x : User) (s : Memory) → x.id ≢ "" → IsWellFormed s → IsWellFormed (create_user x s).1
unfolding create_user user_taken
create_user_lem x s named h = elim (Bool-cases (is_some (get x.id s.users) || user_taken x "" s)) [
  | inl e ↦ rw e h
  | inr e ↦ rw e (
      with_users h
        (put-IsIndexed _ _ x s.users
          (λ y.
            y.id != ""
            && (y.normalized_username == x.normalized_username
                || y.normalized_email == x.normalized_email))
          h.users named (not_is_some _ (neither _ _ e).1)
          (λ w p n q.
            ground (arith, eq_iff w.normalized_username x.normalized_username, eq_iff w.id "")))
        (put-IsIndexed _ _ x s.users
          (λ y.
            y.id != ""
            && (y.normalized_username == x.normalized_username
                || y.normalized_email == x.normalized_email))
          h.emails named (not_is_some _ (neither _ _ e).1)
          (λ w p n q.
            ground (arith, eq_iff w.normalized_email x.normalized_email, eq_iff w.id ""))))
]

pub update_user_lem :
    (x : User) (s : Memory) → x.id ≢ "" → IsWellFormed s → IsWellFormed (update_user x s).1
unfolding update_user user_taken
update_user_lem x s named h = elim (Bool-cases (is_some (get x.id s.users))) [
  | inr e ↦ rw e h
  | inl e ↦ elim (Bool-cases (user_taken x x.id s)) [
    | inl e' ↦ rw (e, e') h
    | inr e' ↦
        rw (e, e')
          (with_users h
            (put-IsIndexed _ _ x s.users
              (λ y.
                y.id != x.id
                && (y.normalized_username == x.normalized_username
                    || y.normalized_email == x.normalized_email))
              h.users named (not_is_some _ e')
              (λ w p n q.
                ground
                  (arith, eq_iff w.normalized_username x.normalized_username, eq_iff w.id x.id)))
            (put-IsIndexed _ _ x s.users
              (λ y.
                y.id != x.id
                && (y.normalized_username == x.normalized_username
                    || y.normalized_email == x.normalized_email))
              h.emails named (not_is_some _ e')
              (λ w p n q.
                ground (arith, eq_iff w.normalized_email x.normalized_email, eq_iff w.id x.id))))
  ]
]

consume_lem :
    (c : Option AuthorizationCode) (id : String) (t : ℕ) (s : Memory)
    → get id s.authorization_codes ≡ c
    → IsWellFormed s
    → IsWellFormed (consume c id t s).1
consume_lem none id t s g h = h
consume_lem (some c) id t s g h = elim (Bool-cases (is_some c.consumed_at)) [
  | inl e ↦ rw e h
  | inr e ↦ rw e (
      with_authorization_codes h
        (replace-IsIndexed _ _ id c _ s.authorization_codes h.authorization_codes g refl refl))
]

pub consume_authorization_code_lem :
    (id : String) (t : ℕ) (s : Memory)
    → IsWellFormed s
    → IsWellFormed (consume_authorization_code id t s).1
unfolding consume_authorization_code
consume_authorization_code_lem id t s h = consume_lem (get id s.authorization_codes) id t s refl h
