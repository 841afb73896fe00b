-- ===== src/Derive.antt =====
-- The pure rules of crates/bloom-signer-derive: the frozen word counts of policy.rs, and the walk
-- to the next valid child index of allocation.rs.
pub mod Walk
pub mod WalkLaws
