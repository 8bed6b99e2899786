-- ===== src/StfTypes/Hosting.antt =====
-- The statements under which batches are hosted and aggregated: zkvm/crates/stf-types/src/hosting.rs.
-- The validation of an aggregate stands in Aggregate.
pub mod Aggregate
pub mod Blob
mod Tests
use zkdeal_prover.Prelude.{ℕ, ◌+◌, ◌*◌, ◌/◌, ◌-◌, List, [], ◌∷◌, ◌++◌, map, length, replicate}
use zkdeal_prover.StfTypes.Scalars.{B256, Bytes}
use zkdeal_prover.StfTypes.Abi.{Keccak, Word, abi_u64_word_v5, b256_bytes, keccak_words_v5}

record BlobEquivalenceInputV1 : Type 0 where
  deployment_domain : B256
  room_id : ℕ
  journal_hash : B256
  canonical_data : Bytes
  blob_start_index : ℕ
  blob_versioned_hashes : List B256
  commitments : List Bytes
  evaluation_points : List B256
  evaluations : List B256

pub record AggregateMemberStatementV1 : Type 0 where
  pub room_id : ℕ
  pub room_program_id : B256
  pub journal_hash : B256
  pub equivalence_program_id : B256
  pub equivalence_statement : B256

pub record AggregateInputV1 : Type 0 where
  pub deployment_domain : B256
  pub members : List AggregateMemberStatementV1

pub data HostingStatementError : Type 0 where
  empty_canonical_data bad_blob_count non_canonical_blob_count bad_blob_range :
      HostingStatementError
  vector_length_mismatch bad_commitment_length bad_versioned_hash : HostingStatementError
  bad_challenge non_canonical_evaluation evaluation_mismatch : HostingStatementError
  bad_aggregate_count zero_room duplicate_room zero_room_program : HostingStatementError
  incomplete_equivalence : HostingStatementError

abbrev pub max_aggregate_rooms_v1 : ℕ
max_aggregate_rooms_v1 = 8

-- The bytes of "zkdeal.data-availability.eip4844.v1".
abbrev data_availability_statement_label : Bytes
data_availability_statement_label =
    122 ∷ 107 ∷ 100 ∷ 101 ∷ 97 ∷ 108 ∷ 46 ∷ 100 ∷ 97 ∷ 116 ∷ 97 ∷ 45 ∷ 97 ∷ 118 ∷ 97 ∷ 105 ∷ 108
    ∷ 97 ∷ 98 ∷ 105 ∷ 108 ∷ 105 ∷ 116 ∷ 121 ∷ 46 ∷ 101 ∷ 105 ∷ 112 ∷ 52 ∷ 56 ∷ 52 ∷ 52 ∷ 46 ∷ 118
    ∷ 49 ∷ []

-- The bytes of "zkdeal.recursive-aggregate.v1".
abbrev pub aggregate_statement_label : Bytes
aggregate_statement_label =
    122 ∷ 107 ∷ 100 ∷ 101 ∷ 97 ∷ 108 ∷ 46 ∷ 114 ∷ 101 ∷ 99 ∷ 117 ∷ 114 ∷ 115 ∷ 105 ∷ 118 ∷ 101 ∷ 45
    ∷ 97 ∷ 103 ∷ 103 ∷ 114 ∷ 101 ∷ 103 ∷ 97 ∷ 116 ∷ 101 ∷ 46 ∷ 118 ∷ 49 ∷ []

-- `a.div_ceil(b)`
abbrev div_ceil : ℕ → ℕ → ℕ
div_ceil a b = (a + (b - 1)) / b

-- The offsets of the elements of a `bytes[]`, from `offset` on.
unfoldable element_offsets : ℕ → List Bytes → Bytes
element_offsets offset [] = []
element_offsets offset (value ∷ values) =
    abi_u64_word_v5 offset
    ++ element_offsets (offset + (32 + div_ceil (length value) 32 * 32)) values

-- The elements, each behind its length and filled up to whole words.
unfoldable element_words : List Bytes → Bytes
element_words [] = []
element_words (value ∷ values) =
    abi_u64_word_v5 (length value)
    ++ (value
        ++ (replicate (div_ceil (length value) 32 * 32 - length value) 0 ++ element_words values))

module _ ⦃keccak : Keccak⦄ where
  unfoldable pub abi_b256_array_hash : List B256 → B256
  abi_b256_array_hash values = keccak_words_v5 (
      abi_u64_word_v5 32
      ∷ abi_u64_word_v5 (length values)
      ∷ map (λ (value : B256). b256_bytes value) values)

  unfoldable abi_bytes_array_hash : List Bytes → B256
  unfolding element_offsets element_words
  abi_bytes_array_hash values = keccak.keccak256 (
      abi_u64_word_v5 32
      ++ (abi_u64_word_v5 (length values)
          ++ (element_offsets (length values * 32) values ++ element_words values)))

  unfoldable data_availability_statement_v1 : BlobEquivalenceInputV1 → B256
  unfolding abi_b256_array_hash abi_bytes_array_hash
  data_availability_statement_v1 input = keccak_words_v5 (
      b256_bytes (keccak.keccak256 data_availability_statement_label)
      ∷ b256_bytes input.deployment_domain
      ∷ abi_u64_word_v5 input.room_id
      ∷ b256_bytes input.journal_hash
      ∷ b256_bytes (keccak.keccak256 input.canonical_data)
      ∷ abi_u64_word_v5 (length input.canonical_data)
      ∷ abi_u64_word_v5 input.blob_start_index
      ∷ b256_bytes (abi_b256_array_hash input.blob_versioned_hashes)
      ∷ b256_bytes (abi_bytes_array_hash input.commitments)
      ∷ b256_bytes (abi_b256_array_hash input.evaluation_points)
      ∷ b256_bytes (abi_b256_array_hash input.evaluations)
      ∷ [])

  unfoldable pub aggregate_member_hash_v1 : AggregateMemberStatementV1 → B256
  aggregate_member_hash_v1 member = keccak_words_v5 (
      abi_u64_word_v5 member.room_id
      ∷ b256_bytes member.room_program_id
      ∷ b256_bytes member.journal_hash
      ∷ b256_bytes member.equivalence_program_id
      ∷ b256_bytes member.equivalence_statement
      ∷ [])

  unfoldable pub aggregate_statement_v1 : AggregateInputV1 → B256
  unfolding aggregate_member_hash_v1 abi_b256_array_hash
  aggregate_statement_v1 input = keccak_words_v5 (
      b256_bytes (keccak.keccak256 aggregate_statement_label)
      ∷ b256_bytes input.deployment_domain
      ∷ b256_bytes (
          abi_b256_array_hash (
            map (λ (member : AggregateMemberStatementV1). aggregate_member_hash_v1 member)
              input.members))
      ∷ [])
