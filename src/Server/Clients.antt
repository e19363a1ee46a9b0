-- ===== src/Server/Clients.antt =====
-- The provision of clients: `EnsureClient` of pkg/server/server.go.
use go_identity.Common.{ℕ, String, Option, none, some, ◌==◌, ◌!=◌, if◌then◌else◌}
use go_identity.Failure.{StoreError, Result, ok, err, store}
use go_identity.Effect.{M, ◌>>=◌, ◌>>◌, pure, lift, read, write, now}
use go_identity.Security.{new_id, hash_secret}
use go_identity.Identity.Client.{Client, ensure_defaults, validate}
use go_identity.Server.{Surroundings}

module _ {S : Type 0} (around : Surroundings S) where
  -- A lookup in which a missing client is no error.
  abbrev pub if_found : Result Client → Result (Option Client)
  if_found (ok client) = ok (some client)
  if_found (err (store StoreError.not_found)) = ok none
  if_found (err other_error) = err other_error

  -- The secret hash of a provisioned client.
  abbrev pub provided_hash : Client → Option Client → String → M S String
  provided_hash c existing secret =
      if secret != ""
      then hash_secret around.hasher secret
      else pure (elim existing [ none ↦ c.secret_hash | some e ↦ e.secret_hash ])

  -- The end of `EnsureClient` for a client that exists, and for a new one.
  abbrev pub save_client : ℕ → Client → Option Client → M S Client
  save_client t c (some existing) = do
    let updated : Client = record c {
      id = existing.id;
      created_at = existing.created_at;
      updated_at = t;
    }
    write (around.store.update_client updated)
    pure updated
  save_client t c none = do
    id ← (if c.id == "" then new_id around.env else pure c.id)
    let added : Client = record c { id = id; created_at = t; updated_at = t }
    write (around.store.create_client added)
    pure added

  -- `EnsureClient`
  unfoldable pub ensure_client : Client → String → M S Client
  ensure_client client secret = do
    t ← now around.env
    existing ← read (λ s. if_found (around.store.get_client_by_client_id client.client_id s))
    let c : Client = ensure_defaults client
    hash ← provided_hash c existing secret
    let hashed : Client = record c { secret_hash = hash }
    lift (validate around.is_absolute_uri hashed)
    save_client t hashed existing
