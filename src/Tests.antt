-- ===== src/Tests.antt =====
-- Runs of the model at concrete inputs.
pub mod Data
pub mod StoreRuns
pub mod StartRuns
pub mod SecurityRuns
pub mod PluginRuns
pub mod ApiRuns
pub mod ConnectRuns
pub mod SsoRuns
pub mod GatewayRuns
pub mod ClawRuns
pub mod RelayRuns
pub mod SandboxRuns
pub mod AdminRuns
