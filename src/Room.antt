-- ===== src/Room.antt =====
-- crates/moe-core/src/room.rs.
pub mod Types
pub mod Snapshot
pub mod Draft
pub mod Read
pub mod Store
pub mod Samples
