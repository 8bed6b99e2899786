-- ===== src/RoomV5/Admission.antt =====
-- Operator admission receipts and forced transactions:
-- zkvm/crates/stf-core/src/room_v5/admission.rs.
pub mod Records
pub mod Accepted
mod Tests
use zkdeal_prover.Prelude.{
  is_err, ℕ, ◌+◌, Bool, true, false, not, ◌&&◌, ◌||◌, Option, none, some, List, [], ◌∷◌, ltb, ◌==◌,
  ◌!=◌, if◌then◌else◌, is_some_and, is_empty, length, get_elem?, any, find?, Result, ok, err, ◌>>=◌,
  ◌>>◌, reject_if, ok_or,
}
use zkdeal_prover.Prelude.Map.{lookup}
use zkdeal_prover.Words.{checked_add_u64, checked_sub}
use zkdeal_prover.StfTypes.Scalars.{Address, B256, U256, Bytes}
use zkdeal_prover.StfTypes.Abi.{Keccak}
use zkdeal_prover.StfTypes.BatchData.{Rlp, canonical_batch_data_v5}
use zkdeal_prover.StfTypes.Domain.{room_chain_id_v5}
use zkdeal_prover.StfTypes.V5.{
  AdmissionOutcomeV5, AdmissionRecordV5, ForcedTransactionV5, DepositV5, BatchInputV5,
}
use zkdeal_prover.StfTypes.V5.Hash.{
  admission_records_hash_v5, forced_outcomes_hash_v5, deposit_content_hash_v5,
  forced_rejection_reason_hash_v5,
}
use zkdeal_prover.State.{same_bytes, StateMap, AccountRecord, account_or_default}
use zkdeal_prover.RoomV5.Executed.{ExecutedBlock, validate_processed_outcome_v5, was_executed}
use zkdeal_prover.Policy.{ExecutionPolicyV4}
use zkdeal_prover.Policy.Calls.{Precompiles, validate_transaction_entry}
use zkdeal_prover.TxEnv.{Envelopes, TxEnv, tx_env_from_raw}
use zkdeal_prover.RoomV5.Refusal.{
  Refusal, admission_cursor_backwards, admission_records_differ, forced_cursor_backwards,
  forced_outcomes_differ, admissions_in_unanimous_room, unknown_admission_mode,
  canonical_data_differs, admission_id_overflow, admission_receipt_invalid,
  unfunded_admission_charged, deposit_hash_omitted, admission_deposit_differs,
  rejected_yet_executed, forced_id_overflow, forced_identity_invalid, forced_executable,
  forced_reason_differs,
}

-- What admission is given: the certified policy of the room, and from the packages the transaction
-- decoder, the RLP encoders and revm's list of precompiles.
pub record AdmissionContext : Type 0 where
  pub policy : ExecutionPolicyV4
  pub envelopes : Envelopes
  pub rlp : Rlp
  pub is_precompile : Precompiles

-- `FORCED_REJECTION_UNDECODABLE_V5`, `FORCED_REJECTION_POLICY_V5`, `FORCED_REJECTION_SENDER_V5`
abbrev pub forced_rejection_undecodable_v5 : ℕ
forced_rejection_undecodable_v5 = 1

abbrev pub forced_rejection_policy_v5 : ℕ
forced_rejection_policy_v5 = 2

abbrev pub forced_rejection_sender_v5 : ℕ
forced_rejection_sender_v5 = 3

-- The reason that a decoded transaction gives. An absent account has nonce and balance zero.
pub rejection_of_tx : AdmissionContext → StateMap → TxEnv → Option ℕ
rejection_of_tx context terminal tx =
    let account = account_or_default (lookup tx.caller terminal.accounts) in
    if is_err (
      validate_transaction_entry context.is_precompile context.policy tx.caller tx.kind
        tx.call_data)
    then some forced_rejection_policy_v5
    else if account.nonce != tx.nonce || ltb account.balance tx.value
    then some forced_rejection_sender_v5
    else none

pub forced_rejection_reason_v5 : AdmissionContext → Bytes → ℕ → StateMap → Option ℕ
unfolding rejection_of_tx
forced_rejection_reason_v5 context raw chain_id terminal =
    elim (tx_env_from_raw context.envelopes raw chain_id) [
      | err refusal ↦ some forced_rejection_undecodable_v5
      | ok tx ↦ rejection_of_tx context terminal tx
    ]

module _ ⦃keccak : Keccak⦄ where
  -- The comparison of a funded admission with the deposit that it references, when the batch crosses it.
  pub deposit_differs : AdmissionRecordV5 → DepositV5 → Bool
  deposit_differs admission deposit =
      deposit.refunded
      || deposit.consumed
      || deposit_content_hash_v5 deposit != admission.receipt.deposit_content_hash
      || ltb deposit.amount admission.receipt.admission_fee

  pub validate_funding : BatchInputV5 → AdmissionRecordV5 → Result Refusal (Unit {0})
  unfolding deposit_differs
  validate_funding input admission =
      if admission.receipt.deposit_inbox_id == 0
      then reject_if
          (admission.receipt.admission_fee != 0 || admission.receipt.deposit_content_hash != 0)
          unfunded_admission_charged
      else do
        reject_if (admission.receipt.deposit_content_hash == 0) deposit_hash_omitted
        reject_if
            (is_some_and
              (find?
                (λ (deposit : DepositV5). deposit.inbox_id == admission.receipt.deposit_inbox_id)
                input.deposits)
              (λ deposit. deposit_differs admission deposit))
            admission_deposit_differs

  -- One round of the loop over the admissions, for the id that is due.
  pub validate_admission :
      BatchInputV5 → List ExecutedBlock → ℕ → AdmissionRecordV5 → Result Refusal (Unit {0})
  unfolding was_executed
  validate_admission input executed expected admission = do
    let journal = input.journal
    reject_if
        (admission.receipt.admission_id != expected
          || admission.outcome.admission_id != expected
          || admission.receipt.transaction_hash != admission.outcome.transaction_hash
          || ltb admission.receipt.maximum_batch_index journal.batch_index
          || ltb admission.receipt.deadline_block journal.l1_inclusion_deadline
          || length admission.receipt.signature != 65)
        admission_receipt_invalid
    validate_funding input admission
    reject_if
        (admission.outcome.status == 2 && was_executed executed admission.outcome.transaction_hash)
        rejected_yet_executed
    validate_processed_outcome_v5 executed admission.outcome.transaction_hash
        admission.outcome.status admission.outcome.l2_block_number
        admission.outcome.transaction_index admission.outcome.reason_hash

  unfoldable pub validate_admission_records :
      BatchInputV5 → List ExecutedBlock → ℕ → List AdmissionRecordV5 → Result Refusal (Unit {0})
  validate_admission_records input executed offset [] = ok tt
  validate_admission_records input executed offset (admission ∷ admissions) = do
    expected ←
        ok_or (checked_add_u64 input.journal.admission_cursor_before (offset + 1))
          admission_id_overflow
    validate_admission input executed expected admission
    validate_admission_records input executed (offset + 1) admissions

  -- A rejection needs a reason, and the commitment to that reason.
  pub validate_rejection :
      AdmissionContext → BatchInputV5 → StateMap → ForcedTransactionV5 → Result Refusal (Unit {0})
  validate_rejection context input terminal forced = do
    reason ←
        ok_or
          (forced_rejection_reason_v5 context forced.raw_transaction
            (room_chain_id_v5 input.journal.deployment_domain input.journal.room_id) terminal)
          forced_executable
    reject_if
        (forced.outcome.reason_hash
          != forced_rejection_reason_hash_v5 (keccak.keccak256 forced.raw_transaction) reason)
        forced_reason_differs

  -- One round of the loop over the forced transactions.
  pub validate_forced :
      AdmissionContext
      → BatchInputV5
      → List ExecutedBlock
      → StateMap
      → ℕ
      → ForcedTransactionV5
      → Result Refusal (Unit {0})
  unfolding validate_rejection
  validate_forced context input executed terminal expected forced = do
    let transaction_hash = keccak.keccak256 forced.raw_transaction
    reject_if
        (forced.forced_id != expected
          || forced.outcome.admission_id != expected
          || forced.outcome.transaction_hash != transaction_hash)
        forced_identity_invalid
    (if forced.outcome.status == 2 then validate_rejection context input terminal forced else ok tt)
    validate_processed_outcome_v5 executed transaction_hash forced.outcome.status
        forced.outcome.l2_block_number forced.outcome.transaction_index forced.outcome.reason_hash

  unfoldable pub validate_forced_transactions :
      AdmissionContext
      → BatchInputV5
      → List ExecutedBlock
      → StateMap
      → ℕ
      → List ForcedTransactionV5
      → Result Refusal (Unit {0})
  validate_forced_transactions context input executed terminal offset [] = ok tt
  validate_forced_transactions context input executed terminal offset (forced ∷ rest) = do
    expected ←
        ok_or (checked_add_u64 input.journal.forced_cursor_before (offset + 1)) forced_id_overflow
    validate_forced context input executed terminal expected forced
    validate_forced_transactions context input executed terminal (offset + 1) rest

  -- The part of the function for a validity-only room.
  unfoldable pub validate_operator_data :
      AdmissionContext → BatchInputV5 → List ExecutedBlock → StateMap → Result Refusal (Unit {0})
  validate_operator_data context input executed terminal = do
    let canonical = canonical_batch_data_v5 context.rlp input.blocks input.journal.pre_state_root
    reject_if
        (not (same_bytes canonical input.canonical_batch_data)
          || keccak.keccak256 input.canonical_batch_data != input.journal.canonical_data_hash)
        canonical_data_differs
    validate_admission_records input executed 0 input.admissions
    validate_forced_transactions context input executed terminal 0 input.forced_transactions

  unfoldable pub validate_admissions_v5 :
      AdmissionContext → BatchInputV5 → List ExecutedBlock → StateMap → Result Refusal (Unit {0})
  validate_admissions_v5 context input executed terminal = do
    let journal = input.journal
    admission_count ←
        ok_or (checked_sub journal.admission_cursor_after journal.admission_cursor_before)
          admission_cursor_backwards
    reject_if
        (admission_count != length input.admissions
          || admission_records_hash_v5 input.admissions != journal.admission_records_hash)
        admission_records_differ
    forced_count ←
        ok_or (checked_sub journal.forced_cursor_after journal.forced_cursor_before)
          forced_cursor_backwards
    reject_if
        (forced_count != length input.forced_transactions
          || forced_outcomes_hash_v5 input.forced_transactions != journal.forced_outcomes_hash)
        forced_outcomes_differ
    (if journal.authorization_mode == 0
        then reject_if
            (not (is_empty input.admissions)
              || not (is_empty input.forced_transactions)
              || not (is_empty input.canonical_batch_data)
              || journal.canonical_data_hash != 0)
            admissions_in_unanimous_room
        else if journal.authorization_mode != 1
        then err unknown_admission_mode
        else validate_operator_data context input executed terminal)
