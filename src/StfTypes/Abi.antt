-- ===== src/StfTypes/Abi.antt =====
-- Solidity ABI words (zkvm/crates/stf-types/src/abi.rs) over an abstract Keccak-256.
pub mod Sample
use zkdeal_prover.Prelude.{
  ℕ, ◌^◌, ◌<◌, Bool, true, false, List, [], ◌∷◌, ◌++◌, replicate, if◌then◌else◌,
}
use zkdeal_prover.StfTypes.Scalars.{Address, B256, U256, Bytes}
use zkdeal_prover.Words.{be_bytes}

-- `keccak256` of alloy-primitives, which the repository calls and does not define: a function from
-- byte strings to 32-byte digests. Nothing else is assumed of it.
pub record Keccak : Type 0 where
  pub keccak256 : Bytes → B256
  pub keccak256_bounds : (bytes : Bytes) → keccak256 bytes < 2 ^ 256

-- A byte array of 32 bytes.
abbrev pub Word : Type 0
Word = Bytes

unfoldable pub abi_u64_word_v5 : ℕ → Word
abi_u64_word_v5 value = replicate 24 0 ++ be_bytes 8 value

unfoldable pub abi_bool_word_v5 : Bool → Word
unfolding abi_u64_word_v5
abi_bool_word_v5 value = abi_u64_word_v5 (if value then 1 else 0)

unfoldable pub abi_address_word_v5 : Address → Word
abi_address_word_v5 value = replicate 12 0 ++ be_bytes 20 value

unfoldable pub abi_u256_word_v5 : U256 → Word
abi_u256_word_v5 value = be_bytes 32 value

-- `digest.0`: the bytes of a digest.
unfoldable pub b256_bytes : B256 → Word
b256_bytes digest = be_bytes 32 digest

unfoldable pub concat_words : List Word → Bytes
concat_words [] = []
concat_words (word ∷ words) = word ++ concat_words words

unfoldable pub keccak_words_v5 : ⦃keccak : Keccak⦄ → List Word → B256
unfolding concat_words
keccak_words_v5 ⦃keccak⦄ words = keccak.keccak256 (concat_words words)
