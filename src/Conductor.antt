-- ===== src/Conductor.antt =====
-- crates/moe-core/src/conductor.rs.
pub mod Plan
pub mod Ids
pub mod State
pub mod Operation
pub mod Acceptance
pub mod Samples
