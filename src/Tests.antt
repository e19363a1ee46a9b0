-- ===== src/Tests.antt =====
-- Runs of the modelled code of pkg/ on concrete inputs.
pub mod Samples
pub mod Stored
pub mod Identity
pub mod Account
pub mod Memory
pub mod Oauth
pub mod Endpoints
pub mod Revocation
pub mod Sessions
pub mod Passwords
pub mod Pages
pub mod Management
pub mod Routes
pub mod Startup
