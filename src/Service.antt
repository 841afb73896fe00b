-- ===== src/Service.antt =====
-- The service of crates/bloom-signer/src/service.rs that composes the engine, the clock and the
-- backends.
pub mod Types
pub mod Sign
pub mod Follows
pub mod History
pub mod Collected
pub mod Completes
pub mod Answers
pub mod Answered
pub mod Again
pub mod Failures
pub mod Asked
pub mod Once
mod Tests
