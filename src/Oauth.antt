-- ===== src/Oauth.antt =====
-- pkg/oauth: the OAuth 2.0 authorization server.
pub mod Error
pub mod Params
pub mod Server
pub mod Tokens
pub mod Issued
pub mod Lookup
pub mod Grants
pub mod Endpoint
pub mod Revoke
pub mod Bearer
pub mod Challenge
pub mod Metadata
pub mod AuthorizeRequest
pub mod Authorize
