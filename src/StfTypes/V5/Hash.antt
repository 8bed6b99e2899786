-- ===== src/StfTypes/V5/Hash.antt =====
-- The commitments of zkvm/crates/stf-types/src/v5/hash.rs to the lists that a batch carries.
use zkdeal_prover.Prelude.{ℕ, List, [], ◌∷◌, map, length}
use zkdeal_prover.StfTypes.Scalars.{B256, Bytes}
use zkdeal_prover.StfTypes.Abi.{
  Keccak, Word, abi_u64_word_v5, abi_bool_word_v5, abi_address_word_v5, abi_u256_word_v5,
  b256_bytes, keccak_words_v5,
}
use zkdeal_prover.StfTypes.V5.Witness.{
  RosterMemberV5, RosterChangeV5, AdmissionRecordV5, ForcedTransactionV5, AssetLiabilityV5,
  DepositV5, WithdrawalV5,
}

-- The bytes of "zkdeal/forced-rejection/v5".
abbrev pub forced_rejection_tag : Bytes
forced_rejection_tag =
    122 ∷ 107 ∷ 100 ∷ 101 ∷ 97 ∷ 108 ∷ 47 ∷ 102 ∷ 111 ∷ 114 ∷ 99 ∷ 101 ∷ 100 ∷ 45 ∷ 114 ∷ 101 ∷ 106
    ∷ 101 ∷ 99 ∷ 116 ∷ 105 ∷ 111 ∷ 110 ∷ 47 ∷ 118 ∷ 53 ∷ []

module _ ⦃keccak : Keccak⦄ where
  unfoldable pub roster_change_hash_v5 : RosterChangeV5 → B256
  roster_change_hash_v5 change = keccak_words_v5 (
      abi_u64_word_v5 change.request_id
      ∷ abi_u64_word_v5 change.action
      ∷ abi_u64_word_v5 change.index
      ∷ abi_u64_word_v5 change.joined_epoch
      ∷ abi_u64_word_v5 change.deadline
      ∷ abi_address_word_v5 change.member
      ∷ b256_bytes change.withdrawal_commitment
      ∷ [])

  -- `keccak256(abi.encode(bytes32[]))`: the offset, the length and the leaves.
  unfoldable pub array_hash : List B256 → B256
  array_hash leaves =
      keccak_words_v5 (abi_u64_word_v5 32 ∷ abi_u64_word_v5 (length leaves) ∷ map b256_bytes leaves)

  unfoldable pub roster_changes_hash_v5 : List RosterChangeV5 → B256
  unfolding array_hash roster_change_hash_v5
  roster_changes_hash_v5 changes = array_hash (map (λ change. roster_change_hash_v5 change) changes)

  unfoldable pub admission_record_hash_v5 : AdmissionRecordV5 → B256
  admission_record_hash_v5 record' = keccak_words_v5 (
      abi_u64_word_v5 record'.receipt.admission_id
      ∷ b256_bytes record'.receipt.transaction_hash
      ∷ abi_u64_word_v5 record'.receipt.deposit_inbox_id
      ∷ b256_bytes record'.receipt.deposit_content_hash
      ∷ abi_u64_word_v5 record'.receipt.deadline_block
      ∷ abi_u64_word_v5 record'.receipt.maximum_batch_index
      ∷ abi_u64_word_v5 record'.receipt.bond_epoch
      ∷ abi_u256_word_v5 record'.receipt.admission_fee
      ∷ b256_bytes (keccak.keccak256 record'.receipt.signature)
      ∷ abi_u64_word_v5 record'.outcome.admission_id
      ∷ b256_bytes record'.outcome.transaction_hash
      ∷ abi_u64_word_v5 record'.outcome.status
      ∷ abi_u64_word_v5 record'.outcome.l2_block_number
      ∷ abi_u64_word_v5 record'.outcome.transaction_index
      ∷ b256_bytes record'.outcome.reason_hash
      ∷ [])

  unfoldable pub deposit_content_hash_v5 : DepositV5 → B256
  deposit_content_hash_v5 deposit = keccak_words_v5 (
      abi_address_word_v5 deposit.depositor
      ∷ abi_address_word_v5 deposit.beneficiary
      ∷ abi_address_word_v5 deposit.asset
      ∷ abi_u256_word_v5 deposit.amount
      ∷ [])

  unfoldable pub inbox_record_hash_v5 : DepositV5 → B256
  unfolding deposit_content_hash_v5
  inbox_record_hash_v5 deposit = keccak_words_v5 (
      abi_u64_word_v5 deposit.inbox_id
      ∷ b256_bytes (deposit_content_hash_v5 deposit)
      ∷ abi_u64_word_v5 deposit.queued_at_block
      ∷ abi_bool_word_v5 deposit.consumed
      ∷ abi_bool_word_v5 deposit.refunded
      ∷ [])

  unfoldable pub inbox_records_hash_v5 : List DepositV5 → B256
  unfolding array_hash inbox_record_hash_v5
  inbox_records_hash_v5 deposits =
      array_hash (map (λ deposit. inbox_record_hash_v5 deposit) deposits)

  unfoldable pub admission_records_hash_v5 : List AdmissionRecordV5 → B256
  unfolding array_hash admission_record_hash_v5
  admission_records_hash_v5 records =
      array_hash (map (λ record'. admission_record_hash_v5 record') records)

  unfoldable pub forced_outcome_hash_v5 : ForcedTransactionV5 → B256
  forced_outcome_hash_v5 forced = keccak_words_v5 (
      abi_u64_word_v5 forced.forced_id
      ∷ b256_bytes (keccak.keccak256 forced.raw_transaction)
      ∷ abi_u64_word_v5 forced.outcome.status
      ∷ abi_u64_word_v5 forced.outcome.l2_block_number
      ∷ abi_u64_word_v5 forced.outcome.transaction_index
      ∷ b256_bytes forced.outcome.reason_hash
      ∷ [])

  unfoldable pub forced_outcomes_hash_v5 : List ForcedTransactionV5 → B256
  unfolding array_hash forced_outcome_hash_v5
  forced_outcomes_hash_v5 forced = array_hash (map (λ item. forced_outcome_hash_v5 item) forced)

  unfoldable pub forced_rejection_reason_hash_v5 : B256 → ℕ → B256
  forced_rejection_reason_hash_v5 transaction_hash reason = keccak_words_v5 (
      b256_bytes (keccak.keccak256 forced_rejection_tag)
      ∷ b256_bytes transaction_hash
      ∷ abi_u64_word_v5 reason
      ∷ [])

  unfoldable pub liability_words : List AssetLiabilityV5 → List Word
  liability_words [] = []
  liability_words (value ∷ values) =
      abi_address_word_v5 value.asset
      ∷ abi_u256_word_v5 value.pending
      ∷ abi_u256_word_v5 value.controlled
      ∷ abi_u256_word_v5 value.claimable
      ∷ abi_u256_word_v5 value.paid
      ∷ liability_words values

  unfoldable pub liabilities_hash_v5 : List AssetLiabilityV5 → B256
  unfolding liability_words
  liabilities_hash_v5 values =
      keccak_words_v5
        (abi_u64_word_v5 32 ∷ abi_u64_word_v5 (length values) ∷ liability_words values)

  unfoldable pub withdrawal_leaf_v5 : B256 → ℕ → ℕ → WithdrawalV5 → B256
  withdrawal_leaf_v5 deployment_domain room_id outbox_epoch withdrawal = keccak_words_v5 (
      b256_bytes deployment_domain
      ∷ abi_u64_word_v5 room_id
      ∷ abi_u64_word_v5 outbox_epoch
      ∷ abi_u64_word_v5 withdrawal.index
      ∷ abi_u64_word_v5 withdrawal.roster_epoch
      ∷ abi_address_word_v5 withdrawal.recipient
      ∷ abi_address_word_v5 withdrawal.asset
      ∷ abi_u256_word_v5 withdrawal.amount
      ∷ [])

  unfoldable pub roster_leaf : RosterMemberV5 → B256
  roster_leaf member = keccak_words_v5 (
      abi_u64_word_v5 member.index
      ∷ abi_address_word_v5 member.member
      ∷ abi_u64_word_v5 member.joined_epoch
      ∷ [])
