-- ===== src/Signing.antt =====
-- The signing engine: `authorize_sign` and what follows it, of crates/bloom-signer/src/engine.rs.
pub mod Request
pub mod Terms
pub mod Revocation
pub mod State
pub mod Checks
pub mod Petal
pub mod Limits
pub mod Authorize
pub mod Effects
pub mod Revoke
pub mod Clock
pub mod Expiring
pub mod Mutation
pub mod Rest
pub mod Revoked
pub mod Observed
pub mod Epochs
pub mod Within
pub mod Genuine
pub mod Available
pub mod Authorized
pub mod Changes
pub mod Totals
pub mod Counted
pub mod Steps
pub mod Sound
pub mod Untouched
pub mod Calls
pub mod History
pub mod Respects
pub mod Enforced
pub mod Answers
pub mod Floor
pub mod Final
pub mod Idempotent
pub mod Once
pub mod Durable
pub mod Stored
pub mod Replay
pub mod Attempts
pub mod Windows
pub mod Samples
mod Tests
mod RevocationTests
