-- ===== src/RoomV5/Admission/Tests.antt =====
-- A concrete validity-only batch with an admission and two forced transactions, and the theorems at it.
use zkdeal_prover.Prelude.{
  leb, ℕ, ◌≡◌, refl, false, none, some, List, [], ◌∷◌, replicate, All, ok, err,
}
use zkdeal_prover.StfTypes.Abi.Sample.{sample_keccak}
use zkdeal_prover.StfTypes.Domain.{room_chain_id_v5}
use zkdeal_prover.StfTypes.BatchData.{rlp_list, encode_blocks, canonical_batch_data_v5}
use zkdeal_prover.StfTypes.V5.{AdmissionRecordV5, ForcedTransactionV5, DepositV5, BatchInputV5}
use zkdeal_prover.StfTypes.V5.Defaults.{default_journal, default_input}
use zkdeal_prover.StfTypes.V5.Hash.{
  admission_records_hash_v5, admission_record_hash_v5, forced_outcomes_hash_v5,
  forced_outcome_hash_v5, deposit_content_hash_v5, forced_rejection_reason_hash_v5, array_hash,
}
use zkdeal_prover.StfTypes.V5.Evaluate.{evaluate}
use zkdeal_prover.State.{same_bytes, StateMap}
use zkdeal_prover.Policy.Calls.{
  validate_transaction_entry, allows_call, has_call_rule, selector_of,
  validate_active_member_arguments,
}
use zkdeal_prover.Policy.Sample.{sample_policy}
use zkdeal_prover.Words.{from_be_bytes}
use zkdeal_prover.TxEnv.{TxEnvelope, tx_env_from_raw, is_blob_or_set_code, validate_envelope}
use zkdeal_prover.RoomV5.Refusal.{forced_executable}
use zkdeal_prover.RoomV5.Executed.{ExecutedBlock, validate_processed_outcome_v5, was_executed}
use zkdeal_prover.RoomV5.Admission.{
  AdmissionContext, rejection_of_tx, forced_rejection_reason_v5, deposit_differs, validate_funding,
  validate_admission, validate_admission_records, validate_rejection, validate_forced,
  validate_forced_transactions, validate_operator_data, validate_admissions_v5,
}
use zkdeal_prover.RoomV5.Admission.Records.{IsExecutable, AreAdmitted, AreForced}
use zkdeal_prover.RoomV5.Admission.Accepted.{
  validate_admissions_v5-admits, validate_admissions_v5-forces, validate_admissions_v5-uncensored,
}

abbrev chain_id : ℕ
chain_id = room_chain_id_v5 6 7

-- A transfer of `value` from account 21 with nonce 4.
abbrev envelope : ℕ → TxEnvelope
envelope value = record {
  tx_type = 2;
  nonce = 4;
  gas_limit = 21000;
  max_fee_per_gas = 0;
  max_priority_fee_per_gas = none;
  access_list = none;
  signature = [];
  chain_id = some chain_id;
  kind = some 50;
  value = value;
  input = 0 ∷ 0 ∷ 0 ∷ 9 ∷ [];
}

-- One byte is a transfer of that value.
abbrev context : AdmissionContext
context = record {
  envelopes = record {
    decode_2718 = λ raw. elim raw [ [] ↦ none | byte ∷ bytes ↦ some (envelope byte, bytes) ];
    recover_signer = λ envelope'. some 21;
  };
  rlp = record {
    encode_u64 = λ n. n ∷ [];
    encode_u256 = λ n. n ∷ [];
    encode_address = λ n. n ∷ [];
    encode_b256 = λ n. n ∷ [];
    encode_bytes = λ bytes. bytes;
    list_header = λ n. n ∷ [];
  };
  policy = sample_policy;
  is_precompile = λ address. leb address 17;
}

-- Account 21 has the nonce 4 and ten units.
abbrev terminal : StateMap
terminal = record {
  accounts = (21, record { nonce = 4; balance = 10; code = []; storage = [] }) ∷ [];
  block_hashes = [];
  access_accounts = none;
  access_storage = none;
  access_violation = none;
  prepared_code = [];
  prepared_code_addresses = [];
}

abbrev deposit : DepositV5
deposit = record {
  inbox_id = 4;
  depositor = 11;
  beneficiary = 12;
  asset = 0;
  amount = 40;
  queued_at_block = 3;
  consumed = false;
  refunded = false;
}

abbrev executed : List ExecutedBlock
executed =
    record { number = 9; transactions = record { transaction_hash = 77; status = 0 } ∷ [] } ∷ []

abbrev admission : AdmissionRecordV5
admission = record {
  receipt = record {
    admission_id = 3;
    transaction_hash = 77;
    deposit_inbox_id = 4;
    deposit_content_hash = deposit_content_hash_v5 deposit;
    deadline_block = 100;
    maximum_batch_index = 1;
    bond_epoch = 0;
    admission_fee = 2;
    signature = replicate 65 1;
  };
  outcome = record {
    admission_id = 3;
    transaction_hash = 77;
    status = 0;
    l2_block_number = 9;
    transaction_index = 0;
    reason_hash = 0;
  };
}

-- The rejection of the transaction with one byte, for lack of funds.
abbrev forced : ℕ → ForcedTransactionV5
forced byte = record {
  forced_id = 6;
  raw_transaction = byte ∷ [];
  outcome = record {
    admission_id = 6;
    transaction_hash = sample_keccak.keccak256 (byte ∷ []);
    status = 2;
    l2_block_number = 0;
    transaction_index = 0;
    reason_hash = forced_rejection_reason_hash_v5 (sample_keccak.keccak256 (byte ∷ [])) 3;
  };
}

abbrev batch : ℕ → BatchInputV5
batch byte = record default_input {
  journal = record default_journal {
    deployment_domain = 6;
    room_id = 7;
    authorization_mode = 1;
    admission_cursor_before = 2;
    admission_cursor_after = 3;
    admission_records_hash = admission_records_hash_v5 (admission ∷ []);
    forced_cursor_before = 5;
    forced_cursor_after = 6;
    forced_outcomes_hash = forced_outcomes_hash_v5 (forced byte ∷ []);
    canonical_data_hash = sample_keccak.keccak256 (canonical_batch_data_v5 context.rlp [] 0);
    l1_inclusion_deadline = 90;
  };
  admissions = admission ∷ [];
  forced_transactions = forced byte ∷ [];
  canonical_batch_data = canonical_batch_data_v5 context.rlp [] 0;
  deposits = deposit ∷ [];
}

batch_valid : validate_admissions_v5 context (batch 11) executed terminal ≡ ok tt
unfolding validate_admissions_v5 validate_operator_data validate_admission_records
    validate_admission validate_funding deposit_differs validate_forced_transactions validate_forced
    validate_rejection forced_rejection_reason_v5 rejection_of_tx validate_transaction_entry
    allows_call has_call_rule selector_of validate_active_member_arguments from_be_bytes same_bytes
    validate_processed_outcome_v5 was_executed tx_env_from_raw is_blob_or_set_code validate_envelope
    room_chain_id_v5 canonical_batch_data_v5 encode_blocks rlp_list admission_records_hash_v5
    admission_record_hash_v5 forced_outcomes_hash_v5 forced_outcome_hash_v5 deposit_content_hash_v5
    forced_rejection_reason_hash_v5 array_hash evaluate
batch_valid = refl

-- A transfer that account 21 can pay for is not rejected.
executable_refused :
    validate_admissions_v5 context (batch 10) executed terminal ≡ err forced_executable
unfolding validate_admissions_v5 validate_operator_data validate_admission_records
    validate_admission validate_funding deposit_differs validate_forced_transactions validate_forced
    validate_rejection forced_rejection_reason_v5 rejection_of_tx validate_transaction_entry
    allows_call has_call_rule selector_of validate_active_member_arguments from_be_bytes same_bytes
    validate_processed_outcome_v5 was_executed tx_env_from_raw is_blob_or_set_code validate_envelope
    room_chain_id_v5 canonical_batch_data_v5 encode_blocks rlp_list admission_records_hash_v5
    admission_record_hash_v5 forced_outcomes_hash_v5 forced_outcome_hash_v5 deposit_content_hash_v5
    forced_rejection_reason_hash_v5 array_hash evaluate
executable_refused = refl

validate_admissions_v5-admits_example : AreAdmitted (batch 11) executed 2 (admission ∷ [])
validate_admissions_v5-admits_example =
    validate_admissions_v5-admits (batch 11) executed context terminal batch_valid refl

validate_admissions_v5-forces_example :
    AreForced (batch 11) executed context terminal 5 (forced 11 ∷ [])
validate_admissions_v5-forces_example =
    validate_admissions_v5-forces (batch 11) executed context terminal batch_valid refl

validate_admissions_v5-uncensored_example :
    All
      (λ (f : ForcedTransactionV5).
        f.outcome.status ≡ 2
        → ¬ IsExecutable context f.raw_transaction
            (room_chain_id_v5 (batch 11).journal.deployment_domain (batch 11).journal.room_id)
            terminal)
      (batch 11).forced_transactions
validate_admissions_v5-uncensored_example =
    validate_admissions_v5-uncensored (batch 11) executed context terminal batch_valid refl
