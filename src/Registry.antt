-- ===== src/Registry.antt =====
-- The atomic derivation registry, crates/bloom-signer/src/derivation_registry.rs.
pub mod Path
pub mod Types
pub mod Events
pub mod Tables
pub mod Prepare
pub mod Accounts
pub mod Lifecycle
pub mod Prepared
pub mod Changes
pub mod Moves
pub mod Run
pub mod Chain
pub mod Paths
pub mod Fresh
pub mod Tombstones
pub mod Retry
mod Tests
