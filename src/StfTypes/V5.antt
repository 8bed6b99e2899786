-- ===== src/StfTypes/V5.antt =====
-- The types and commitments of the v5 engine, from zkvm/crates/stf-types/src/v5.
pub mod Policy
pub mod Witness
pub mod Journal
pub mod Input
pub mod Defaults
pub mod Hash
pub mod Trees
pub mod Imported
pub mod PolicyHash
pub mod ColdTemplate
pub mod Totality
pub mod Evaluate
pub use Policy.*
pub use Witness.*
pub use Journal.*
pub use Input.*
