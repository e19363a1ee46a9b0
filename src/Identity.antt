-- ===== src/Identity.antt =====
-- pkg/identity: the entities of the identity server and their validation.
pub mod Scope
pub mod Token
pub mod Client
pub mod User
