-- ===== src/Store/Invariant.antt =====
-- internal/store: what the tables of the in-memory store keep true between two calls. Each child has
-- the methods of some tables.
pub mod Links
pub mod Users
pub mod Identities
pub mod Tables
pub mod Reachable
