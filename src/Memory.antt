-- ===== src/Memory.antt =====
-- pkg/store/memory/memory.go: the in-memory store. The order in which Go walks a map is not
-- determined; the model walks in the order of the table, which by the uniqueness of the hashes and
-- names that the store keeps does not change what is found.
pub mod Table
pub mod Unique
pub mod State
pub mod Page
pub mod Clients
pub mod Users
pub mod AccessTokens
pub mod RefreshTokens
pub mod Codes
pub mod Invariant
pub mod Lookup
pub mod Expiry
pub mod Sweep
use go_identity.Effect.{Env}
use go_identity.Store.{Store}
pub use State.{Memory, new}
use Clients.{
  list_clients, get_client_by_id, get_client_by_client_id, create_client, update_client,
  delete_client,
}
use Users.{
  list_users, get_user_by_id, get_user_by_normalized_username, get_user_by_normalized_email,
  create_user, update_user, delete_user,
}
use AccessTokens.{
  list_access_tokens, get_access_token_by_id, get_access_token_by_hash, create_access_token,
  delete_access_token, delete_access_tokens,
}
use RefreshTokens.{
  list_refresh_tokens, get_refresh_token_by_id, get_refresh_token_by_hash, create_refresh_token,
  update_refresh_token, delete_refresh_token, delete_refresh_tokens,
}
use Codes.{
  get_authorization_code_by_hash, create_authorization_code, consume_authorization_code,
  delete_authorization_code, delete_expired_authorization_codes, get_user_token_by_hash,
  create_user_token, delete_user_token, delete_user_tokens, delete_expired_user_tokens,
}

-- `var _ store.Store = &Store{}`
abbrev pub memory_store : Env → Store Memory
memory_store env = record {
  list_clients = list_clients;
  get_client_by_id = get_client_by_id;
  get_client_by_client_id = get_client_by_client_id;
  create_client = create_client;
  update_client = update_client;
  delete_client = delete_client;
  list_users = list_users env;
  get_user_by_id = get_user_by_id;
  get_user_by_normalized_username = get_user_by_normalized_username;
  get_user_by_normalized_email = get_user_by_normalized_email;
  create_user = create_user;
  update_user = update_user;
  delete_user = delete_user;
  list_access_tokens = list_access_tokens;
  get_access_token_by_id = get_access_token_by_id;
  get_access_token_by_hash = get_access_token_by_hash;
  create_access_token = create_access_token;
  delete_access_token = delete_access_token;
  delete_access_tokens = delete_access_tokens;
  list_refresh_tokens = list_refresh_tokens;
  get_refresh_token_by_id = get_refresh_token_by_id;
  get_refresh_token_by_hash = get_refresh_token_by_hash;
  create_refresh_token = create_refresh_token;
  update_refresh_token = update_refresh_token;
  delete_refresh_token = delete_refresh_token;
  delete_refresh_tokens = delete_refresh_tokens;
  get_authorization_code_by_hash = get_authorization_code_by_hash;
  create_authorization_code = create_authorization_code;
  consume_authorization_code = consume_authorization_code;
  delete_authorization_code = delete_authorization_code;
  delete_expired_authorization_codes = delete_expired_authorization_codes;
  get_user_token_by_hash = get_user_token_by_hash;
  create_user_token = create_user_token;
  delete_user_token = delete_user_token;
  delete_user_tokens = delete_user_tokens;
  delete_expired_user_tokens = delete_expired_user_tokens;
}
