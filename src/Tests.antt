-- ===== src/Tests.antt =====
-- Runs of the model at concrete inputs, and the theorems applied to them.
pub mod Sample
pub mod Stores
pub mod Queries
pub mod Deletes
pub mod Signatures
pub mod Clients
pub mod Passes
pub mod Sessions
pub mod Blobs
pub mod Configs
pub mod Publishes
pub mod Locks
pub mod Tokens
