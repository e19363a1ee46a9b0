-- ===== src/Memory/Lookup.antt =====
-- Searches of the in-memory store by hash and by name.
use go_identity.Common.{◌≡◌, ◌↔◌, String, Option, none, some, arith}
use go_identity.Failure.{ok}
use go_identity.Identity.Token.{AccessToken}
use go_identity.Identity.Client.{Client}
use go_identity.Memory.State.{Memory}
use go_identity.Memory.Unique.{find_iff}
use go_identity.Memory.Invariant.{IsWellFormed}
use go_identity.Memory.Clients.{found, get_client_by_id, get_client_by_client_id}
use go_identity.Memory.AccessTokens.{get_access_token_by_id, get_access_token_by_hash}

found-eq-ok : {A : Type 0} (o : Option A) (a : A) → (found o ≡ ok a) ↔ (o ≡ some a)
found-eq-ok none a = (λ h. absurd (ground arith), λ h. absurd (ground arith))
found-eq-ok (some b) a = (λ h. ground arith, λ h. ground arith)

-- In a well-formed store, a search for an access token by its hash returns exactly the token that
-- is stored under its identifier and has that hash, so it does not depend on the order in which the
-- map is walked.
pub get_access_token_by_hash_iff :
    (token_hash : String) (token : AccessToken) (s : Memory)
    → IsWellFormed s
    → (get_access_token_by_hash token_hash s ≡ ok token)
      ↔ ((get_access_token_by_id token.id s ≡ ok token) × (token.token_hash ≡ token_hash))
unfolding get_access_token_by_hash get_access_token_by_id
get_access_token_by_hash_iff token_hash token s h =
    let (to, from) = find_iff _ _ token_hash s.access_tokens token h.access_tokens in
    (
      λ e. let (g, r) = to ((found-eq-ok _ token).0 e) in ((found-eq-ok _ token).1 g, r),
      λ (g, r). (found-eq-ok _ token).1 (from ((found-eq-ok _ token).0 g, r)),
    )

-- In a well-formed store, a search for a client by its client_id returns exactly the client that is
-- stored under its identifier and has that client_id.
pub get_client_by_client_id_iff :
    (client_id : String) (client : Client) (s : Memory)
    → IsWellFormed s
    → (get_client_by_client_id client_id s ≡ ok client)
      ↔ ((get_client_by_id client.id s ≡ ok client) × (client.client_id ≡ client_id))
unfolding get_client_by_client_id get_client_by_id
get_client_by_client_id_iff client_id client s h =
    let (to, from) = find_iff _ _ client_id s.clients client h.clients in
    (
      λ e. let (g, r) = to ((found-eq-ok _ client).0 e) in ((found-eq-ok _ client).1 g, r),
      λ (g, r). (found-eq-ok _ client).1 (from ((found-eq-ok _ client).0 g, r)),
    )
