-- ===== src/Memory/Invariant/Tokens.antt =====
-- The operations on tokens, codes and user tokens, and the deletions, keep the store well formed.
use go_identity.Common.{ℕ, ◌≢◌, String, arith, ◌==◌, eq_iff, Bool-cases, inl, inr}
use go_identity.Identity.Token.{AccessToken, RefreshToken, AuthorizationCode, UserToken, is_some}
use go_identity.Store.{TokenFilter}
use go_identity.Memory.State.{Memory}
use go_identity.Memory.Table.{get, find}
use go_identity.Memory.Unique.{put-IsIndexed, delete-IsIndexed, delete_where-IsIndexed}
use go_identity.Memory.Clients.{delete_client}
use go_identity.Memory.Users.{delete_user}
use go_identity.Memory.AccessTokens.{create_access_token, delete_access_token, delete_access_tokens}
use go_identity.Memory.RefreshTokens.{
  create_refresh_token, delete_refresh_token, delete_refresh_tokens,
}
use go_identity.Memory.Codes.{
  create_authorization_code, delete_authorization_code, delete_expired_authorization_codes,
  create_user_token, delete_user_token, delete_user_tokens, delete_expired_user_tokens,
}
use go_identity.Memory.Invariant.{
  IsWellFormed, not_is_some, with_clients, with_users, with_access_tokens, with_refresh_tokens,
  with_authorization_codes, with_user_tokens,
}

pub create_access_token_lem :
    (x : AccessToken) (s : Memory)
    → x.id ≢ ""
    → IsWellFormed s
    → IsWellFormed (create_access_token x s).1
unfolding create_access_token
create_access_token_lem x s named h = elim (Bool-cases (is_some (get x.id s.access_tokens))) [
  | inl e ↦ rw e h
  | inr e ↦ elim (Bool-cases (is_some (find (λ y. y.token_hash == x.token_hash) s.access_tokens))) [
    | inl e' ↦ rw (e, e') h
    | inr e' ↦
        rw (e, e')
          (with_access_tokens h (
            put-IsIndexed _ _ x s.access_tokens (λ y. y.token_hash == x.token_hash) h.access_tokens
              named (not_is_some _ e')
              (λ w p n q. ground (arith, eq_iff w.token_hash x.token_hash))))
  ]
]

pub create_refresh_token_lem :
    (x : RefreshToken) (s : Memory)
    → x.id ≢ ""
    → IsWellFormed s
    → IsWellFormed (create_refresh_token x s).1
unfolding create_refresh_token
create_refresh_token_lem x s named h = elim (Bool-cases (is_some (get x.id s.refresh_tokens))) [
  | inl e ↦ rw e h
  | inr e ↦
      elim (Bool-cases (is_some (find (λ y. y.token_hash == x.token_hash) s.refresh_tokens))) [
        | inl e' ↦ rw (e, e') h
        | inr e' ↦
            rw (e, e')
              (with_refresh_tokens h (
                put-IsIndexed _ _ x s.refresh_tokens (λ y. y.token_hash == x.token_hash)
                  h.refresh_tokens named (not_is_some _ e')
                  (λ w p n q. ground (arith, eq_iff w.token_hash x.token_hash))))
      ]
]

pub create_authorization_code_lem :
    (x : AuthorizationCode) (s : Memory)
    → x.id ≢ ""
    → IsWellFormed s
    → IsWellFormed (create_authorization_code x s).1
unfolding create_authorization_code
create_authorization_code_lem x s named h =
    elim (Bool-cases (is_some (get x.id s.authorization_codes))) [
      | inl e ↦ rw e h
      | inr e ↦
          elim (Bool-cases
            (is_some (find (λ y. y.code_hash == x.code_hash) s.authorization_codes))) [
              | inl e' ↦ rw (e, e') h
              | inr e' ↦
                  rw (e, e')
                    (with_authorization_codes h (
                      put-IsIndexed _ _ x s.authorization_codes (λ y. y.code_hash == x.code_hash)
                        h.authorization_codes named (not_is_some _ e')
                        (λ w p n q. ground (arith, eq_iff w.code_hash x.code_hash))))
            ]
    ]

pub create_user_token_lem :
    (x : UserToken) (s : Memory)
    → x.id ≢ ""
    → IsWellFormed s
    → IsWellFormed (create_user_token x s).1
unfolding create_user_token
create_user_token_lem x s named h = elim (Bool-cases (is_some (get x.id s.user_tokens))) [
  | inl e ↦ rw e h
  | inr e ↦ elim (Bool-cases (is_some (find (λ y. y.token_hash == x.token_hash) s.user_tokens))) [
    | inl e' ↦ rw (e, e') h
    | inr e' ↦
        rw (e, e')
          (with_user_tokens h (
            put-IsIndexed _ _ x s.user_tokens (λ y. y.token_hash == x.token_hash) h.user_tokens
              named (not_is_some _ e')
              (λ w p n q. ground (arith, eq_iff w.token_hash x.token_hash))))
  ]
]

pub delete_client_lem :
    (id : String) (s : Memory) → IsWellFormed s → IsWellFormed (delete_client id s).1
unfolding delete_client
delete_client_lem id s h = elim (Bool-cases (is_some (get id s.clients))) [
  | inl e ↦ rw e (with_clients h (delete-IsIndexed _ _ id s.clients h.clients))
  | inr e ↦ rw e h
]

pub delete_user_lem :
    (id : String) (s : Memory) → IsWellFormed s → IsWellFormed (delete_user id s).1
unfolding delete_user
delete_user_lem id s h = elim (Bool-cases (is_some (get id s.users))) [
  | inl e ↦ rw e (
      with_users h (delete-IsIndexed _ _ id s.users h.users)
        (delete-IsIndexed _ _ id s.users h.emails))
  | inr e ↦ rw e h
]

pub delete_access_token_lem :
    (id : String) (s : Memory) → IsWellFormed s → IsWellFormed (delete_access_token id s).1
unfolding delete_access_token
delete_access_token_lem id s h = elim (Bool-cases (is_some (get id s.access_tokens))) [
  | inl e ↦ rw e (with_access_tokens h (delete-IsIndexed _ _ id s.access_tokens h.access_tokens))
  | inr e ↦ rw e h
]

pub delete_refresh_token_lem :
    (id : String) (s : Memory) → IsWellFormed s → IsWellFormed (delete_refresh_token id s).1
unfolding delete_refresh_token
delete_refresh_token_lem id s h = elim (Bool-cases (is_some (get id s.refresh_tokens))) [
  | inl e ↦ rw e (with_refresh_tokens h (delete-IsIndexed _ _ id s.refresh_tokens h.refresh_tokens))
  | inr e ↦ rw e h
]

pub delete_authorization_code_lem :
    (id : String) (s : Memory) → IsWellFormed s → IsWellFormed (delete_authorization_code id s).1
unfolding delete_authorization_code
delete_authorization_code_lem id s h = elim (Bool-cases (is_some (get id s.authorization_codes))) [
  | inl e ↦ rw e (
      with_authorization_codes h
        (delete-IsIndexed _ _ id s.authorization_codes h.authorization_codes))
  | inr e ↦ rw e h
]

pub delete_user_token_lem :
    (id : String) (s : Memory) → IsWellFormed s → IsWellFormed (delete_user_token id s).1
unfolding delete_user_token
delete_user_token_lem id s h = elim (Bool-cases (is_some (get id s.user_tokens))) [
  | inl e ↦ rw e (with_user_tokens h (delete-IsIndexed _ _ id s.user_tokens h.user_tokens))
  | inr e ↦ rw e h
]

pub delete_access_tokens_lem :
    (filter : TokenFilter) (s : Memory)
    → IsWellFormed s
    → IsWellFormed (delete_access_tokens filter s).1
unfolding delete_access_tokens
delete_access_tokens_lem filter s h =
    with_access_tokens h (delete_where-IsIndexed _ _ _ s.access_tokens h.access_tokens)

pub delete_refresh_tokens_lem :
    (filter : TokenFilter) (s : Memory)
    → IsWellFormed s
    → IsWellFormed (delete_refresh_tokens filter s).1
unfolding delete_refresh_tokens
delete_refresh_tokens_lem filter s h =
    with_refresh_tokens h (delete_where-IsIndexed _ _ _ s.refresh_tokens h.refresh_tokens)

pub delete_expired_authorization_codes_lem :
    (before : ℕ) (s : Memory)
    → IsWellFormed s
    → IsWellFormed (delete_expired_authorization_codes before s).1
unfolding delete_expired_authorization_codes
delete_expired_authorization_codes_lem before s h =
    with_authorization_codes h
      (delete_where-IsIndexed _ _ _ s.authorization_codes h.authorization_codes)

pub delete_user_tokens_lem :
    (user_id purpose : String) (s : Memory)
    → IsWellFormed s
    → IsWellFormed (delete_user_tokens user_id purpose s).1
unfolding delete_user_tokens
delete_user_tokens_lem user_id purpose s h =
    with_user_tokens h (delete_where-IsIndexed _ _ _ s.user_tokens h.user_tokens)

pub delete_expired_user_tokens_lem :
    (before : ℕ) (s : Memory)
    → IsWellFormed s
    → IsWellFormed (delete_expired_user_tokens before s).1
unfolding delete_expired_user_tokens
delete_expired_user_tokens_lem before s h =
    with_user_tokens h (delete_where-IsIndexed _ _ _ s.user_tokens h.user_tokens)
