-- ===== src/Store.antt =====
-- internal/store: the in-memory store. `Memory` has its state, one child for each table has the
-- methods, `Commands` has every method that writes as one step, and the others have the proofs.
pub mod Memory
pub mod Users
pub mod Agents
pub mod Models
pub mod Connections
pub mod Bindings
pub mod Manifests
pub mod Identities
pub mod Settings
pub mod Commands
pub mod Errors
pub mod Invariant
