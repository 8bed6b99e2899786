-- ===== src/StfTypes.antt =====
-- The shared types and commitments of zkvm/crates/stf-types.
pub mod Scalars
pub mod Limits
pub mod Levels
pub mod Abi
pub mod Block
pub mod Compact
pub mod Domain
pub mod BatchData
pub mod V5
pub mod Hosting
