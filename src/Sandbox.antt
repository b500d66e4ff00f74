-- ===== src/Sandbox.antt =====
-- internal/sandbox: what an agent's runtime is given, as the specifications that the cluster is sent.
pub mod Labels
pub mod Network
pub mod Pod
