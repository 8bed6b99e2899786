-- ===== src/Words.antt =====
-- Machine words: `u64` and `U256` are numbers kept below 2^64 and 2^256 by checked operations, and
-- their big-endian bytes are a list of numbers below 256.
mod Defs
pub mod Bytes
pub mod Powers
unfoldable pub use Defs.*
