-- ===== src/Account.antt =====
-- pkg/account: the user account flows.
pub mod Service
pub mod Authenticate
pub mod Email
pub mod Users
pub mod Password
pub mod UserTokens
