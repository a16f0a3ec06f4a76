-- ===== src/Relay.antt =====
-- crates/moe-relay-client/src/lifecycle.rs.
pub mod Status
pub mod Lifecycle
pub mod Samples
