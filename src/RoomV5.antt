-- ===== src/RoomV5.antt =====
-- Long-lived v5 rooms, from zkvm/crates/stf-core/src/room_v5.
pub mod Refusal
pub mod Storage
pub mod Liabilities
pub mod Exit
pub mod Roster
pub mod Import
pub mod Executed
pub mod Admission
pub mod Batch
