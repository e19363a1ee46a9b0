-- ===== src/Memory/Users.antt =====
-- The users of pkg/store/memory/memory.go.
use go_identity.Common.{
  ℕ, String, Bool, ◌&&◌, ◌||◌, List, ◌==◌, ◌!=◌, not, text_contains, if◌then◌else◌,
}
use go_identity.Failure.{Result, ok, err}
use go_identity.Effect.{Env}
use go_identity.Identity.User.{User}
use go_identity.Identity.Token.{is_some}
use go_identity.Store.{ListOptions, UserFilter, err_not_found, err_duplicate}
use go_identity.Memory.State.{Memory}
use go_identity.Memory.Table.{get, put, delete, find, select}
use go_identity.Memory.Page.{page}
use go_identity.Memory.Clients.{found}

-- The users that `ListUsers` keeps.
abbrev listed : String → User → Bool
listed search u = not (
    search != ""
    && not (text_contains u.normalized_username search)
    && not (text_contains u.normalized_email search))

unfoldable pub list_users : Env → UserFilter → ListOptions → Memory → Result (List User × ℕ)
unfolding page select text_contains
list_users env filter opts s =
    ok
      (page (λ u. (u.created_at, u.id)) (select (listed (env.to_lower filter.search)) s.users) opts)

unfoldable pub get_user_by_id : String → Memory → Result User
unfolding get
get_user_by_id id s = found (get id s.users)

unfoldable pub get_user_by_normalized_username : String → Memory → Result User
unfolding find
get_user_by_normalized_username name s = found (find (λ u. u.normalized_username == name) s.users)

unfoldable pub get_user_by_normalized_email : String → Memory → Result User
unfolding find
get_user_by_normalized_email email s = found (find (λ u. u.normalized_email == email) s.users)

-- `userTaken`
unfoldable pub user_taken : User → String → Memory → Bool
unfolding find
user_taken user except_id s = is_some (
    find
      (λ u.
        u.id != except_id
        && (u.normalized_username == user.normalized_username
            || u.normalized_email == user.normalized_email))
      s.users)

unfoldable pub create_user : User → Memory → Result (Unit {0}) × Memory
unfolding get put user_taken
create_user user s =
    if is_some (get user.id s.users) || user_taken user "" s
    then (err err_duplicate, s)
    else (ok tt, record s { users = put user.id user s.users })

unfoldable pub update_user : User → Memory → Result (Unit {0}) × Memory
unfolding get put user_taken
update_user user s =
    if not (is_some (get user.id s.users))
    then (err err_not_found, s)
    else if user_taken user user.id s
    then (err err_duplicate, s)
    else (ok tt, record s { users = put user.id user s.users })

unfoldable pub delete_user : String → Memory → Result (Unit {0}) × Memory
unfolding get delete
delete_user id s =
    if not (is_some (get id s.users))
    then (err err_not_found, s)
    else (ok tt, record s { users = delete id s.users })
