-- ===== src/Memory/Clients.antt =====
-- The clients of pkg/store/memory/memory.go.
use go_identity.Common.{
  ℕ, String, Bool, true, ◌&&◌, ◌||◌, List, Option, none, some, ◌==◌, ◌!=◌, not, if◌then◌else◌,
}
use go_identity.Failure.{Result, ok, err}
use go_identity.Identity.Client.{Client}
use go_identity.Identity.Token.{is_some}
use go_identity.Store.{ListOptions, err_not_found, err_duplicate}
use go_identity.Memory.State.{Memory}
use go_identity.Memory.Table.{get, put, delete, find, select}
use go_identity.Memory.Page.{page}

-- A value of a map, or `ErrNotFound`.
abbrev pub found {ℓ} : {A : Type ℓ} → Option A → Result A
found none = err err_not_found
found (some a) = ok a

unfoldable pub list_clients : ListOptions → Memory → Result (List Client × ℕ)
unfolding page select
list_clients opts s = ok (page (λ c. (c.created_at, c.id)) (select (λ c. true) s.clients) opts)

unfoldable pub get_client_by_id : String → Memory → Result Client
unfolding get
get_client_by_id id s = found (get id s.clients)

unfoldable pub get_client_by_client_id : String → Memory → Result Client
unfolding find
get_client_by_client_id client_id s = found (find (λ c. c.client_id == client_id) s.clients)

-- `clientIdTaken`
unfoldable pub client_id_taken : String → String → Memory → Bool
unfolding find
client_id_taken client_id except_id s =
    is_some (find (λ c. c.client_id == client_id && c.id != except_id) s.clients)

unfoldable pub create_client : Client → Memory → Result (Unit {0}) × Memory
unfolding get put client_id_taken
create_client client s =
    if is_some (get client.id s.clients) || client_id_taken client.client_id "" s
    then (err err_duplicate, s)
    else (ok tt, record s { clients = put client.id client s.clients })

unfoldable pub update_client : Client → Memory → Result (Unit {0}) × Memory
unfolding get put client_id_taken
update_client client s =
    if not (is_some (get client.id s.clients))
    then (err err_not_found, s)
    else if client_id_taken client.client_id client.id s
    then (err err_duplicate, s)
    else (ok tt, record s { clients = put client.id client s.clients })

unfoldable pub delete_client : String → Memory → Result (Unit {0}) × Memory
unfolding get delete
delete_client id s =
    if not (is_some (get id s.clients))
    then (err err_not_found, s)
    else (ok tt, record s { clients = delete id s.clients })
