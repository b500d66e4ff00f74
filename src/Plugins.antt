-- ===== src/Plugins.antt =====
-- internal/plugins: plugin manifests and the registries that resolve them.
pub mod Manifest
pub mod Merged
pub mod Evaluator
pub mod Resolver
pub mod Sidecar
