-- ===== src/RoomV5/Batch/Tests.antt =====
-- A validity-only batch of two blocks, each with one call that writes the block's number, and the
-- theorems at it.
use zkdeal_prover.Prelude.{
  ℕ, ◌+◌, ◌≡◌, ◌≢◌, refl, true, false, none, some, List, [], ◌∷◌, leb, length, ok, err, set_insert,
  collect_set,
}
use zkdeal_prover.Prelude.Map.{lookup, amount_at}
use zkdeal_prover.Words.{from_be_bytes}
use zkdeal_prover.StfTypes.Scalars.{Address, B256, U256}
use zkdeal_prover.StfTypes.Abi.Sample.{sample_keccak}
use zkdeal_prover.StfTypes.Compact.{CompactAccountWitnessV4, CompactStorageWitnessV4}
use zkdeal_prover.StfTypes.Domain.{room_chain_id_v5}
use zkdeal_prover.StfTypes.BatchData.{
  rlp_list, encode_txs, encode_history, encode_environment, encode_blocks, canonical_batch_data_v5,
  batch_block_data_hash_v5,
}
use zkdeal_prover.StfTypes.V5.{BatchBlockV5, BatchInputV5, BatchJournalV5}
use zkdeal_prover.StfTypes.V5.Defaults.{default_journal, default_input}
use zkdeal_prover.StfTypes.V5.Hash.{
  admission_records_hash_v5, forced_outcomes_hash_v5, array_hash, liabilities_hash_v5,
  inbox_records_hash_v5, roster_changes_hash_v5,
}
use zkdeal_prover.StfTypes.V5.PolicyHash.{
  encode_all, encode_list, encode_code, encode_call, encode_namespace, encode_import,
  encode_registry, encode_exit_asset, encode_exit, encode_policy, execution_policy_hash_v5,
}
use zkdeal_prover.StfTypes.V5.Evaluate.{evaluate}
use zkdeal_prover.Trie.{sample_trie}
use zkdeal_prover.State.{StateMap, same_bytes, code_hash}
use zkdeal_prover.State.Install.{
  from_compact, collect_history, install_block_hashes, scan_from, prepare_code,
  install_prepared_runtime_code,
}
use zkdeal_prover.State.Commit.{
  Account, latch_storage, latch_account, merge_storage, merge_code, merge_account, keep_account,
  commit_account, commit,
}
use zkdeal_prover.State.Roots.{
  sparse_node, padded, tree_root, sparse_storage_leaves, sparse_account_leaf, sparse_account_leaves,
  sparse_state_root_v5, room_state_root_v5,
}
use zkdeal_prover.Compact.{
  count_proofs, count_account_proofs, count_account, account_value, collect_slots, add_account,
  verify_account, verify_accounts, verify_compact_state_v4,
}
use zkdeal_prover.Policy.{slot_has_prefix, is_covered, is_writable}
use zkdeal_prover.Policy.Calls.{
  validate_transaction_entry, allows_call, has_call_rule, selector_of,
  validate_active_member_arguments,
}
use zkdeal_prover.Policy.Enforce.{
  storage_of, storage_at, initial_storage, validate_slots, validate_storage, validate_pinned,
  validate_membership_state_guards, validate_post_state,
}
use zkdeal_prover.Policy.Enforce.Frame.{IsPinned}
use zkdeal_prover.Policy.FromV5.{
  is_envelope_invalid, pin_code, reject_uncommitted, collect_kinds, resolve_call, resolve_calls,
  resolve_namespaces, validate_covered_slots, validate_covered, validate_imports,
  validate_registry_slots, validate_registry, from_v5,
}
use zkdeal_prover.Policy.FromV5.Exit.{
  validate_exit_asset, validate_exit_assets, validate_queue, validate_exit_binding,
}
use zkdeal_prover.Policy.Sample.{sample_policy_v5, sample_room}
use zkdeal_prover.TxEnv.{TxEnvelope, tx_env_from_raw, is_blob_or_set_code, validate_envelope}
use zkdeal_prover.StfError.{long_lived_room}
use zkdeal_prover.RoomV5.Refusal.{intermediate_root_differs}
use zkdeal_prover.State.Canonical.{IsCanonical}
use zkdeal_prover.RoomV5.Batch.Chain.{last_root, AreRoomBlocks}
use zkdeal_prover.Block.{
  Machine, TxResult, add_gas, tx_commitment_raw, state_root_in_mode, execute_transaction,
  execute_decoded, execute_transactions, check_root, install_input_block_hashes,
  execute_block_on_state,
}
use zkdeal_prover.RoomV5.Storage.{read_storage_v5}
use zkdeal_prover.RoomV5.Liabilities.{
  apply_deposit_credits_v5, apply_deposit_credits, validate_liabilities_v5, collect_deposits,
  collect_withdrawals, settle_assets,
}
use zkdeal_prover.RoomV5.Roster.{validate_roster_transition_v5, carries_approvers}
use zkdeal_prover.RoomV5.Import.{
  verify_and_apply_import_v5, has_import_fields, participant_state_v5, participant_state,
}
use zkdeal_prover.RoomV5.Exit.{
  exit_record_count_v5, read_exit_records_v5, read_records, withdrawal_tree_capacity_v5,
}
use zkdeal_prover.RoomV5.Exit.Allocation.{
  number_withdrawals, same_withdrawals, validate_derived_exit, validate_exit_v5,
}
use zkdeal_prover.RoomV5.Admission.{
  validate_admission_records, validate_forced_transactions, validate_operator_data,
  validate_admissions_v5,
}
use zkdeal_prover.RoomV5.Batch.{
  Opening, is_identity_invalid, is_count_invalid, is_registry, pre_exit_cursor, validate_identity,
  decode_txs, decode_blocks, authenticate, open_state, open_batch, close_batch, execute_batch_v5,
}
use zkdeal_prover.RoomV5.Batch.Blocks.{
  Progress, is_environment_invalid, execute_batch_block, execute_blocks,
}
use zkdeal_prover.RoomV5.Executed.{ExecutedBlock}
use zkdeal_prover.RoomV5.Batch.Run.{AreRun}
use zkdeal_prover.RoomV5.Batch.Accepted.{IsOpened, IsRun}
use zkdeal_prover.RoomV5.Batch.Transition.{execute_batch_v5-proves, execute_batch_v5-frames}

abbrev chain_id : ℕ
chain_id = room_chain_id_v5 6 7

abbrev envelope : TxEnvelope
envelope = record {
  tx_type = 2;
  nonce = 4;
  gas_limit = 21000;
  max_fee_per_gas = 0;
  max_priority_fee_per_gas = none;
  access_list = none;
  signature = [];
  chain_id = some chain_id;
  kind = some 50;
  value = 0;
  input = 0 ∷ 0 ∷ 0 ∷ 9 ∷ [];
}

-- An account that is touched, with new words.
abbrev touched : ℕ → U256 → List ℕ → List (U256 × U256) → Account
touched nonce balance code words = record {
  is_touched = true;
  is_selfdestructed = false;
  is_created = false;
  info = record {
    balance = balance;
    nonce = nonce;
    code_hash = sample_keccak.keccak256 code;
    code = some code;
  };
  storage = words;
}

-- Every transaction writes the block's number to slot 9 of contract 50.
abbrev run : ℕ → TxResult
run number = record {
  changes = (21, touched 5 10 [] []) ∷ (50, touched 1 0 (1 ∷ 2 ∷ []) ((9, number) ∷ [])) ∷ [];
  is_success = true;
  gas_used = 30000;
  violation = none;
}

abbrev machine : Machine
machine = record {
  evm = record { transact = λ policy env state tx. some (run env.number) };
  trie = sample_trie;
  rlp = record {
    encode_u64 = λ n. n ∷ [];
    encode_u256 = λ n. n ∷ [];
    encode_address = λ n. n ∷ [];
    encode_b256 = λ n. n ∷ [];
    encode_bytes = λ bytes. bytes;
    list_header = λ n. n ∷ [];
  };
  envelopes = record {
    decode_2718 = λ raw. elim raw [ [] ↦ none | byte ∷ bytes ↦ some (envelope, bytes) ];
    recover_signer = λ envelope'. some 21;
  };
  is_precompile = λ address. leb address 17;
  bytecodes = record { is_accepted = λ code. true; is_legacy = λ code. true };
}

-- The accounts after the block with this number.
abbrev after : ℕ → StateMap
after number = record sample_room {
  accounts =
      (21, record { nonce = 5; balance = 10; code = []; storage = [] })
      ∷ (
        50,
        record {
          nonce = 1;
          balance = 0;
          code = 1 ∷ 2 ∷ [];
          storage = (1, 100) ∷ (2, 5) ∷ (3, 1) ∷ (4, 128) ∷ (9, number) ∷ [];
        },
      )
      ∷ (51, record { nonce = 1; balance = 0; code = 3 ∷ []; storage = [] })
      ∷ [];
}

abbrev root_of : StateMap → B256
root_of state = elim (sparse_state_root_v5 state) [ none ↦ 0 | some root ↦ root ]

abbrev block : ℕ → BatchBlockV5
block number = record {
  block_number = number;
  raw_txs = (11 ∷ []) ∷ [];
  env = record {
    number = number;
    timestamp = 1000 + number;
    gas_limit = 30000000;
    coinbase = 0;
    base_fee = 0;
    prev_randao = 0;
    difficulty = 0;
    excess_blob_gas = 0;
    chain_id = chain_id;
  };
  block_hashes = [];
  expected_post_state_root = root_of (after number);
}

abbrev word : U256 → U256 → CompactStorageWitnessV4
word slot value = record { slot = slot; value = value; proof = [] }

abbrev account :
    Address → ℕ → U256 → List ℕ → List CompactStorageWitnessV4 → CompactAccountWitnessV4
account address nonce balance code words = record {
  address = address;
  exists = true;
  nonce = nonce;
  balance = balance;
  code = code;
  canonical_storage_root = 0;
  account_proof = [];
  storage = words;
}

abbrev blocks : List BatchBlockV5
blocks = block 5 ∷ block 6 ∷ []

abbrev batch_journal : BatchJournalV5
batch_journal = record default_journal {
  protocol_version = 6;
  deployment_domain = 6;
  room_id = 7;
  authorization_mode = 1;
  cold_template_id = 8;
  proof_program_id = 9;
  proof_system_version = 10;
  policy_hash = execution_policy_hash_v5 sample_policy_v5;
  batch_index = 2;
  start_l2_block = 5;
  end_l2_block = 6;
  pre_state_root = root_of sample_room;
  post_state_root = root_of (after 6);
  batch_data_hash = batch_block_data_hash_v5 machine.rlp blocks (root_of sample_room);
  canonical_data_hash = batch_block_data_hash_v5 machine.rlp blocks (root_of sample_room);
  pre_participant_root = 100;
  post_participant_root = 100;
  pre_participant_epoch = 5;
  post_participant_epoch = 5;
  pre_participant_count = 1;
  post_participant_count = 1;
  participant_capacity = 128;
  inbox_records_hash = inbox_records_hash_v5 [];
  admission_records_hash = admission_records_hash_v5 [];
  forced_outcomes_hash = forced_outcomes_hash_v5 [];
  pre_liabilities_hash = liabilities_hash_v5 [];
  post_liabilities_hash = liabilities_hash_v5 [];
  roster_changes_hash = roster_changes_hash_v5 [];
  l1_inclusion_deadline = 90;
}

abbrev batch : BatchInputV5
batch = record default_input {
  journal = batch_journal;
  policy = sample_policy_v5;
  canonical_batch_data = canonical_batch_data_v5 machine.rlp blocks (root_of sample_room);
  withdrawal_capacity = 0;
  compact_state = record {
    canonical_state_root = 0;
    accounts =
        account 21 4 10 [] []
        ∷ account 50 1 0 (1 ∷ 2 ∷ [])
            (word 1 100 ∷ word 2 5 ∷ word 3 1 ∷ word 4 128 ∷ word 9 0 ∷ [])
        ∷ account 51 1 0 (3 ∷ []) (word 0 0 ∷ [])
        ∷ [];
  };
  blocks = blocks;
}

batch_valid : execute_batch_v5 machine batch ≡ ok batch_journal
unfolding execute_batch_v5 validate_identity open_batch close_batch is_identity_invalid
    is_count_invalid is_registry pre_exit_cursor authenticate decode_blocks decode_txs open_state
    execute_blocks execute_batch_block is_environment_invalid execute_block_on_state check_root
    install_input_block_hashes execute_transactions execute_decoded execute_transaction add_gas
    tx_commitment_raw state_root_in_mode room_state_root_v5 sparse_state_root_v5
    sparse_account_leaves sparse_account_leaf sparse_storage_leaves tree_root padded sparse_node
    verify_compact_state_v4 verify_accounts verify_account add_account collect_slots account_value
    count_account count_account_proofs count_proofs from_compact install_block_hashes
    collect_history install_prepared_runtime_code prepare_code scan_from code_hash same_bytes commit
    commit_account keep_account merge_account merge_code merge_storage latch_account latch_storage
    tx_env_from_raw is_blob_or_set_code validate_envelope validate_transaction_entry allows_call
    has_call_rule selector_of validate_active_member_arguments from_be_bytes from_v5
    is_envelope_invalid pin_code reject_uncommitted resolve_calls resolve_call collect_kinds
    resolve_namespaces validate_covered validate_covered_slots validate_imports validate_registry
    validate_registry_slots validate_exit_binding validate_queue validate_exit_assets
    validate_exit_asset is_covered is_writable slot_has_prefix validate_post_state validate_pinned
    validate_storage validate_slots validate_membership_state_guards execution_policy_hash_v5
    encode_policy encode_all encode_list encode_code encode_call encode_namespace encode_import
    encode_registry encode_exit_asset encode_exit collect_set set_insert apply_deposit_credits_v5
    apply_deposit_credits validate_liabilities_v5 collect_deposits collect_withdrawals settle_assets
    validate_roster_transition_v5 carries_approvers verify_and_apply_import_v5 has_import_fields
    participant_state_v5 participant_state exit_record_count_v5 read_exit_records_v5 read_records
    read_storage_v5 withdrawal_tree_capacity_v5 validate_exit_v5 validate_derived_exit
    number_withdrawals same_withdrawals validate_admissions_v5 validate_operator_data
    validate_admission_records validate_forced_transactions room_chain_id_v5
    batch_block_data_hash_v5 canonical_batch_data_v5 encode_blocks encode_environment encode_history
    encode_txs rlp_list admission_records_hash_v5 forced_outcomes_hash_v5 array_hash evaluate
batch_valid = refl

-- The second block names another root than the one it ends in.
root_refused :
    execute_batch_v5 machine
      (record batch { blocks = block 5 ∷ record (block 6) { expected_post_state_root = 3 } ∷ [] })
    ≡ err (long_lived_room intermediate_root_differs)
unfolding execute_batch_v5 validate_identity open_batch close_batch is_identity_invalid
    is_count_invalid is_registry pre_exit_cursor authenticate decode_blocks decode_txs open_state
    execute_blocks execute_batch_block is_environment_invalid execute_block_on_state check_root
    install_input_block_hashes execute_transactions execute_decoded execute_transaction add_gas
    tx_commitment_raw state_root_in_mode room_state_root_v5 sparse_state_root_v5
    sparse_account_leaves sparse_account_leaf sparse_storage_leaves tree_root padded sparse_node
    verify_compact_state_v4 verify_accounts verify_account add_account collect_slots account_value
    count_account count_account_proofs count_proofs from_compact install_block_hashes
    collect_history install_prepared_runtime_code prepare_code scan_from code_hash same_bytes commit
    commit_account keep_account merge_account merge_code merge_storage latch_account latch_storage
    tx_env_from_raw is_blob_or_set_code validate_envelope validate_transaction_entry allows_call
    has_call_rule selector_of validate_active_member_arguments from_be_bytes from_v5
    is_envelope_invalid pin_code reject_uncommitted resolve_calls resolve_call collect_kinds
    resolve_namespaces validate_covered validate_covered_slots validate_imports validate_registry
    validate_registry_slots validate_exit_binding validate_queue validate_exit_assets
    validate_exit_asset is_covered is_writable slot_has_prefix validate_post_state validate_pinned
    validate_storage validate_slots validate_membership_state_guards execution_policy_hash_v5
    encode_policy encode_all encode_list encode_code encode_call encode_namespace encode_import
    encode_registry encode_exit_asset encode_exit collect_set set_insert apply_deposit_credits_v5
    apply_deposit_credits validate_liabilities_v5 collect_deposits collect_withdrawals settle_assets
    validate_roster_transition_v5 carries_approvers verify_and_apply_import_v5 has_import_fields
    participant_state_v5 participant_state exit_record_count_v5 read_exit_records_v5 read_records
    read_storage_v5 withdrawal_tree_capacity_v5 validate_exit_v5 validate_derived_exit
    number_withdrawals same_withdrawals validate_admissions_v5 validate_operator_data
    validate_admission_records validate_forced_transactions room_chain_id_v5
    batch_block_data_hash_v5 canonical_batch_data_v5 encode_blocks encode_environment encode_history
    encode_txs rlp_list admission_records_hash_v5 forced_outcomes_hash_v5 array_hash evaluate
root_refused = refl

execute_batch_v5-proves_example :
    (opening : Opening) × (opens : IsOpened machine batch opening) × (executed : List ExecutedBlock)
    × (terminal : StateMap) × (verify_compact_state_v4 machine.trie batch.compact_state
        ≡ ok opens.opened)
    × IsCanonical opens.opened
    × (state_root_in_mode machine opens.opened 1 ≡ ok batch_journal.pre_state_root)
    × (verify_and_apply_import_v5 machine.trie batch opens.opened ≡ ok opens.imported)
    × (apply_deposit_credits_v5 batch opens.imported ≡ ok opens.credited)
    × (opening.state.accounts ≡ opens.credited.accounts)
    × AreRun machine batch opening.policy blocks opening.decoded opening.state executed terminal
    × (state_root_in_mode machine terminal 1 ≡ ok batch_journal.post_state_root)
    × (last_root batch_journal.pre_state_root blocks ≡ batch_journal.post_state_root)
    × AreRoomBlocks batch 5 none blocks
    × (◌≡◌ {A = ℕ} (6 + 1) (5 + length blocks))
execute_batch_v5-proves_example = execute_batch_v5-proves machine batch batch_journal batch_valid

execute_batch_v5-frames_example :
    (opening : Opening) × (terminal : Progress) × IsRun machine batch opening terminal
    × ((a : Address) (hash : B256)
        → lookup a opening.policy.code_hashes ≡ some hash
        → IsPinned terminal.state a hash)
    × ((a : Address) (s : U256)
        → amount_at s (storage_at (lookup a (initial_storage opening.state.accounts)))
          ≢ amount_at s (storage_of (lookup a terminal.state.accounts))
        → is_writable opening.policy.storage_namespaces a s ≡ true)
execute_batch_v5-frames_example = execute_batch_v5-frames machine batch batch_journal batch_valid
