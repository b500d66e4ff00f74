-- ===== src/Api.antt =====
-- internal/api/server.go: the HTTP handlers over the store.
pub mod Server
pub mod Steps
pub mod Access
pub mod Agents
pub mod Start
pub mod Admin
pub mod Connect
pub mod Sso
pub mod Login
pub mod Plugins
pub mod Relay
pub mod Activity
pub mod Overview
pub mod Routes
