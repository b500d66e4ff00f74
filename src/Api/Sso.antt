-- ===== src/Api/Sso.antt =====
-- internal/api/oidc.go: login through an identity provider, and its administration.
pub mod Accounts
pub mod Login
pub mod Callback
pub mod Settings
pub mod Links
