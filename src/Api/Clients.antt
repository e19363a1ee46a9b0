-- ===== src/Api/Clients.antt =====
-- pkg/api/clients.go: the handlers.
pub mod Secret
use go_identity.Common.{String, Bool, true, false, ◌&&◌, List, not, pos, text_append, if◌then◌else◌}
use go_identity.Effect.{M, ◌>>=◌, ◌>>◌, pure, lift, read, write, now, when}
use go_identity.Security.{new_id, new_token, hash_secret}
use go_identity.Identity.Client.{Client, is_public}
use go_identity.Store.{TokenFilter, no_filter}
use go_identity.Api.{
  Api, Target, Payload, Response, json, created, no_body, write_error, invalid_request, handled,
  decode, ListResponse, list_options, respond_list,
}
use go_identity.Api.ClientRequest.{
  ClientView, ClientRequest, ClientWithSecret, SecretResponse, to_client, apply,
}

module _ {S : Type 0} (a : Api S) where
  -- `revokeTokens`
  unfoldable pub revoke_tokens : TokenFilter → M S (Unit {0})
  revoke_tokens filter = do
    refresh ← write (a.accounts.store.delete_refresh_tokens filter)
    access ← write (a.accounts.store.delete_access_tokens filter)
    pure tt

  unfoldable pub list_clients : Target → M S (Response (ListResponse ClientView))
  list_clients r = list_options a r (λ opts. handled (do
    page ← read (a.accounts.store.list_clients opts)
    respond_list (λ c. pure (to_client c)) page opts))

  unfoldable pub get_client : Target → M S (Response ClientView)
  get_client r = handled (do
    client ← read (a.accounts.store.get_client_by_id r.id)
    pure (json 200 (to_client client)))

  -- The secret of a new client, and the client with its hash; a public client has none.
  unfoldable pub with_secret : Client → M S (String × Client)
  with_secret client =
      if not (is_public client)
      then (do
        secret ← new_token a.env
        hash ← hash_secret a.hasher secret
        pure (secret, record client { secret_hash = hash }))
      else pure ("", client)

  unfoldable pub create_client : Target → Payload ClientRequest → M S (Response ClientWithSecret)
  create_client r payload = decode payload (λ req. handled (do
    t ← now a.env
    id ← new_id a.env
    filled ← lift (
        apply a.is_absolute_uri req (record {
          id = id;
          client_id = "";
          name = "";
          description = "";
          type = "";
          secret_hash = "";
          redirect_uris = List.[];
          allowed_scopes = List.[];
          default_scopes = List.[];
          allowed_grant_types = List.[];
          require_consent = false;
          require_pkce = false;
          enabled = true;
          access_token_lifetime = pos 0;
          authorization_code_lifetime = pos 0;
          refresh_token_usage = "";
          refresh_token_expiration = "";
          refresh_token_lifetime = pos 0;
          created_at = t;
          updated_at = t;
        }))
    (secret, client) ← with_secret filled
    write (a.accounts.store.create_client client)
    pure (
        created (text_append r.path (text_append "/" client.id))
          (record { client = to_client client; client_secret = secret }))))

  unfoldable pub update_client : Target → Payload ClientRequest → M S (Response ClientView)
  update_client r payload = decode payload (λ req. handled (do
    current ← read (a.accounts.store.get_client_by_id r.id)
    filled ← lift (apply a.is_absolute_uri req current)
    t ← now a.env
    let client : Client = record filled {
      secret_hash = if is_public filled then "" else filled.secret_hash;
      updated_at = t;
    }
    write (a.accounts.store.update_client client)
    when (current.enabled && not client.enabled)
        (revoke_tokens (record no_filter { client_id = client.id }))
    pure (json 200 (to_client client))))

  unfoldable pub delete_client : Target → M S (Response (Unit {0}))
  delete_client r = handled (do
    write (a.accounts.store.delete_client r.id)
    revoke_tokens (record no_filter { client_id = r.id })
    pure (no_body 204))

  unfoldable pub regenerate_client_secret : Target → M S (Response SecretResponse)
  regenerate_client_secret r = handled (do
    client ← read (a.accounts.store.get_client_by_id r.id)
    if is_public client
        then pure (write_error 400 invalid_request "public clients don't have a secret")
        else (do
          secret ← new_token a.env
          hash ← hash_secret a.hasher secret
          t ← now a.env
          write (
              a.accounts.store.update_client (record client { secret_hash = hash; updated_at = t }))
          pure (json 200 (record { client_secret = secret }))))
