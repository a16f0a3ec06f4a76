-- ===== src/Room/Store/Validity.antt =====
-- The Room store of crates/moe-core/src/room.rs keeps its snapshot valid.
pub mod Rooms
pub mod Append
pub mod Mutations
pub mod Creation
pub mod Calls
