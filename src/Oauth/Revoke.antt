-- ===== src/Oauth/Revoke.antt =====
-- Token revocation and introspection: pkg/oauth/revoke.go.
pub mod Foreign
use go_identity.Common.{
  ℕ, ◌/◌, String, Bool, true, false, List, Option, none, some, ◌==◌, ◌!=◌, not, ℤ, sub_ℕ,
  if◌then◌else◌, pos,
}
use go_identity.Failure.{Result}
use go_identity.Effect.{
  unix, M, ◌>>=◌, ◌>>◌, pure, fail, lift, read, write, refuse_if, map_error, recover, is_not_found,
  ignore_not_found, now, when,
}
use go_identity.Security.{hash_token}
use go_identity.Identity.Scope.{format_scope}
use go_identity.Identity.Token.{
  AccessToken, RefreshToken, access_token_has_expired, refresh_token_has_expired,
}
use go_identity.Identity.Client.{Client, is_public}
use go_identity.Account.Service.{can_sign_in, signs_in}
use go_identity.Oauth.Error.{refusal, server_error, error_invalid_client}
use go_identity.Oauth.Params.{Request, parse_post_form, param, required_param}
use go_identity.Oauth.Server.{Server, authenticate_client}
use go_identity.Oauth.Tokens.{token_type_bearer}

abbrev pub token_type_hint_access_token : String
token_type_hint_access_token = "access_token"

abbrev pub token_type_hint_refresh_token : String
token_type_hint_refresh_token = "refresh_token"

-- A lookup that found nothing leaves the next one to be made.
unfoldable pub optional : {S A : Type 0} → (S → Result A) → M S (Option A)
optional q =
    recover (read q >>= λ a. pure (some a)) (λ e. if is_not_found e then pure none else fail e)

-- `IntrospectionResponse`
pub record IntrospectionResponse : Type 0 where
  pub active : Bool
  pub scope : String
  pub client_id : String
  pub username : String
  pub token_type : String
  pub expires_at : ℤ
  pub issued_at : ℤ
  pub subject : String
  pub issuer : String

abbrev pub inactive : IntrospectionResponse
inactive = record {
  active = false;
  scope = "";
  client_id = "";
  username = "";
  token_type = "";
  expires_at = pos 0;
  issued_at = pos 0;
  subject = "";
  issuer = "";
}

-- `found` of `Introspect`
pub record Found : Type 0 where
  pub token_type : String
  pub client_id : String
  pub user_id : String
  pub scopes : List String
  pub created_at : ℤ
  pub expires_at : ℤ
  pub expired : Bool

abbrev pub access_found : ℕ → AccessToken → Found
access_found t token = record {
  token_type = token_type_bearer;
  client_id = token.client_id;
  user_id = token.user_id;
  scopes = token.scopes;
  created_at = unix token.created_at;
  expires_at = unix token.expires_at;
  expired = access_token_has_expired token t;
}

abbrev pub refresh_found : ℕ → RefreshToken → Found
refresh_found t token = record {
  token_type = token_type_hint_refresh_token;
  client_id = token.client_id;
  user_id = token.user_id;
  scopes = token.scopes;
  created_at = unix token.created_at;
  expires_at = unix token.expires_at;
  expired = refresh_token_has_expired token t;
}

module _ {S : Type 0} (srv : Server S) where
  -- The first lookup of `revoke`; the result says whether the token was found.
  unfoldable pub revoke_access_token : Client → String → M S Bool
  revoke_access_token client hash = do
    found ← optional (srv.store.get_access_token_by_hash hash)
    elim found [
      | none ↦ pure false
      | some token ↦ do
        when (token.client_id == client.id)
            (ignore_not_found (write (srv.store.delete_access_token token.id)))
        pure true
    ]

  -- The second lookup of `revoke`.
  unfoldable pub revoke_refresh_token : Client → String → M S Bool
  revoke_refresh_token client hash = do
    found ← optional (srv.store.get_refresh_token_by_hash hash)
    elim found [
      | none ↦ pure false
      | some token ↦ do
        when (token.client_id == client.id) (do
          ignore_not_found (write (srv.store.delete_refresh_token token.id))
          when (token.access_token_id != "")
              (ignore_not_found (write (srv.store.delete_access_token token.access_token_id))))
        pure true
    ]

  -- `revoke`
  unfoldable pub revoke : Client → String → String → M S (Unit {0})
  revoke client token hint = do
    let hash = hash_token srv.env token
    let access = revoke_access_token client hash
    let refresh = revoke_refresh_token client hash
    let refresh_first = hint == token_type_hint_refresh_token
    found ← if refresh_first then refresh else access
    if found then pure tt else (do second ← if refresh_first then access else refresh; pure tt)

  -- `HandleRevoke` up to its answer: nothing, with status 200, or an error.
  unfoldable pub handle_revoke : Request → M S (Unit {0})
  handle_revoke r = do
    form ← lift (parse_post_form r)
    client ← authenticate_client srv r form
    token ← lift (required_param form "token")
    hint ← lift (param form "token_type_hint")
    map_error server_error (revoke client token hint)

  -- The loop of `Introspect` over its lookups.
  unfoldable pub find_token : String → String → ℕ → M S (Option Found)
  find_token hash hint t = do
    let access : M S (Option Found) = (do
      token ← optional (srv.store.get_access_token_by_hash hash)
      pure (elim token [ none ↦ none | some a ↦ some (access_found t a) ]))
    let refresh : M S (Option Found) = (do
      token ← optional (srv.store.get_refresh_token_by_hash hash)
      pure (elim token [ none ↦ none | some a ↦ some (refresh_found t a) ]))
    let refresh_first = hint == token_type_hint_refresh_token
    first ← if refresh_first then refresh else access
    elim first [ none ↦ if refresh_first then access else refresh | some f ↦ pure (some f) ]

  -- The response of an active token, before its user is added.
  abbrev pub active_response : Client → Found → IntrospectionResponse
  active_response client f = record {
    active = true;
    scope = format_scope f.scopes;
    client_id = client.client_id;
    username = "";
    token_type = f.token_type;
    expires_at = f.expires_at;
    issued_at = f.created_at;
    subject = "";
    issuer = srv.issuer;
  }

  -- The end of `Introspect`: the user of the token, if it has one.
  unfoldable pub introspect_user : Found → IntrospectionResponse → M S IntrospectionResponse
  introspect_user f response =
      if f.user_id != ""
      then (do
        found ← optional (srv.store.get_user_by_id f.user_id)
        elim found [
          | none ↦ pure inactive
          | some user ↦
              if not (signs_in (can_sign_in srv.accounts user))
              then pure inactive
              else pure (record response { subject = user.id; username = user.username })
        ])
      else pure response

  -- `Introspect` of a token that was found and has not expired.
  unfoldable pub introspect_found : Found → M S IntrospectionResponse
  introspect_found f = do
    found ← optional (srv.store.get_client_by_id f.client_id)
    elim found [
      | none ↦ pure inactive
      | some client ↦
          if not client.enabled then pure inactive else introspect_user f (active_response client f)
    ]

  -- `Introspect`
  unfoldable pub introspect : String → String → M S IntrospectionResponse
  introspect token hint = do
    t ← now srv.env
    found ← find_token (hash_token srv.env token) hint t
    elim found [
      | none ↦ pure inactive
      | some f ↦ if f.expired then pure inactive else introspect_found f
    ]

  -- `HandleIntrospect` up to its answer.
  unfoldable pub handle_introspect : Request → M S IntrospectionResponse
  handle_introspect r = do
    form ← lift (parse_post_form r)
    client ← authenticate_client srv r form
    refuse_if (is_public client)
        (refusal error_invalid_client "public clients can't introspect tokens")
    token ← lift (required_param form "token")
    hint ← lift (param form "token_type_hint")
    map_error server_error (introspect token hint)
