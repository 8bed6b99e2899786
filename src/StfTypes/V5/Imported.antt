-- ===== src/StfTypes/V5/Imported.antt =====
-- The commitments of zkvm/crates/stf-types/src/v5/hash.rs to an import from L1.
use zkdeal_prover.Prelude.{ℕ, List, [], ◌∷◌, ◌++◌}
use zkdeal_prover.StfTypes.Scalars.{B256, U256, Bytes}
use zkdeal_prover.StfTypes.Abi.{
  Keccak, abi_u64_word_v5, abi_address_word_v5, b256_bytes, keccak_words_v5,
}
use zkdeal_prover.StfTypes.V5.Witness.{L1StorageSlotV5, L1ImportWitnessV5}
use zkdeal_prover.Words.{be_bytes}

-- The bytes of "zkdeal/l1-storage-keys/v5".
abbrev pub storage_keys_tag : Bytes
storage_keys_tag =
    122 ∷ 107 ∷ 100 ∷ 101 ∷ 97 ∷ 108 ∷ 47 ∷ 108 ∷ 49 ∷ 45 ∷ 115 ∷ 116 ∷ 111 ∷ 114 ∷ 97 ∷ 103 ∷ 101
    ∷ 45 ∷ 107 ∷ 101 ∷ 121 ∷ 115 ∷ 47 ∷ 118 ∷ 53 ∷ []

-- The bytes of "zkdeal/l1-storage-values/v5".
abbrev pub storage_values_tag : Bytes
storage_values_tag =
    122 ∷ 107 ∷ 100 ∷ 101 ∷ 97 ∷ 108 ∷ 47 ∷ 108 ∷ 49 ∷ 45 ∷ 115 ∷ 116 ∷ 111 ∷ 114 ∷ 97 ∷ 103 ∷ 101
    ∷ 45 ∷ 118 ∷ 97 ∷ 108 ∷ 117 ∷ 101 ∷ 115 ∷ 47 ∷ 118 ∷ 53 ∷ []

unfoldable pub key_bytes : List U256 → Bytes
key_bytes [] = []
key_bytes (key ∷ keys) = be_bytes 32 key ++ key_bytes keys

unfoldable pub slot_bytes : List L1StorageSlotV5 → Bytes
slot_bytes [] = []
slot_bytes (slot ∷ slots) = be_bytes 32 slot.key ++ (be_bytes 32 slot.value ++ slot_bytes slots)

module _ ⦃keccak : Keccak⦄ where
  unfoldable pub storage_keys_root_v5 : List U256 → B256
  unfolding key_bytes
  storage_keys_root_v5 keys = keccak.keccak256 (storage_keys_tag ++ key_bytes keys)

  unfoldable pub import_payload_commitment_v5 : List L1StorageSlotV5 → B256
  unfolding slot_bytes
  import_payload_commitment_v5 storage = keccak.keccak256 (storage_values_tag ++ slot_bytes storage)

  unfoldable pub import_policy_leaf_v5 : ℕ → L1ImportWitnessV5 → B256
  import_policy_leaf_v5 chain_id witness = keccak_words_v5 (
      abi_u64_word_v5 chain_id
      ∷ abi_address_word_v5 witness.source
      ∷ b256_bytes witness.source_code_hash
      ∷ b256_bytes witness.storage_keys_root
      ∷ b256_bytes witness.adapter_id
      ∷ b256_bytes witness.adapter_version
      ∷ [])

  unfoldable pub import_root_v5 : ℕ → ℕ → L1ImportWitnessV5 → B256
  unfolding import_policy_leaf_v5 import_payload_commitment_v5
  import_root_v5 room_id chain_id witness = keccak_words_v5 (
      abi_u64_word_v5 room_id
      ∷ abi_u64_word_v5 witness.source_block
      ∷ b256_bytes witness.header_hash
      ∷ b256_bytes witness.state_root
      ∷ b256_bytes (import_policy_leaf_v5 chain_id witness)
      ∷ b256_bytes (import_payload_commitment_v5 witness.storage)
      ∷ abi_u64_word_v5 witness.expiry_block
      ∷ [])
