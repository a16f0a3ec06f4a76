-- ===== src/Command.antt =====
-- The commands that an owner confirms (crates/moe-command-broker/src).
pub mod Policy
pub mod Maps
pub mod Confirmation
pub mod Registry
pub mod Paths
pub mod Classification
pub mod Samples
