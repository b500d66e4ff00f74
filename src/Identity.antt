-- ===== src/Identity.antt =====
-- internal/identity: OpenID Connect providers and the registry of those that are configured.
pub mod Provider
pub mod Registry
