-- ===== src/StfTypes/V5/Defaults.antt =====
-- `Default::default()` of the journal, the policy and the input.
use zkdeal_prover.Prelude.{false, none, []}
use zkdeal_prover.StfTypes.V5.Policy.{ExecutionPolicyV5}
use zkdeal_prover.StfTypes.V5.Journal.{BatchJournalV5}
use zkdeal_prover.StfTypes.V5.Input.{BatchInputV5}

abbrev pub default_journal : BatchJournalV5
default_journal = record {
  protocol_version = 0;
  deployment_domain = 0;
  room_id = 0;
  authorization_mode = 0;
  cold_template_id = 0;
  proof_program_id = 0;
  proof_system_version = 0;
  policy_hash = 0;
  batch_index = 0;
  start_l2_block = 0;
  end_l2_block = 0;
  pre_state_root = 0;
  post_state_root = 0;
  batch_data_hash = 0;
  canonical_data_hash = 0;
  pre_participant_root = 0;
  post_participant_root = 0;
  pre_participant_epoch = 0;
  post_participant_epoch = 0;
  pre_participant_count = 0;
  post_participant_count = 0;
  participant_capacity = 0;
  pre_roster_root = 0;
  post_roster_root = 0;
  pre_roster_epoch = 0;
  post_roster_epoch = 0;
  pre_active_count = 0;
  post_active_count = 0;
  roster_change_cursor_before = 0;
  roster_change_cursor_after = 0;
  inbox_cursor_before = 0;
  inbox_cursor_after = 0;
  inbox_records_hash = 0;
  admission_cursor_before = 0;
  admission_cursor_after = 0;
  admission_records_hash = 0;
  forced_cursor_before = 0;
  forced_cursor_after = 0;
  forced_outcomes_hash = 0;
  import_cursor_before = 0;
  import_cursor_after = 0;
  imported_l1_block = 0;
  imported_l1_header_hash = 0;
  imported_l1_state_root = 0;
  import_root = 0;
  outbox_epoch = 0;
  withdrawal_root = 0;
  pre_liabilities_hash = 0;
  post_liabilities_hash = 0;
  roster_changes_hash = 0;
  l1_inclusion_deadline = 0;
  close = false;
}

abbrev pub default_policy : ExecutionPolicyV5
default_policy = record {
  state_commitment = 0;
  max_blocks_per_batch = 0;
  max_transactions_per_block = 0;
  max_gas_per_block = 0;
  max_memory_bytes = 0;
  allow_contract_creation = false;
  allow_self_destruct = false;
  code = [];
  calls = [];
  storage = [];
  imports = [];
  participant_registry = none;
  exit = none;
}

abbrev pub default_input : BatchInputV5
default_input = record {
  encoded_witness_bytes = 0;
  l1_chain_id = 0;
  journal = default_journal;
  policy = default_policy;
  roster_capacity = 0;
  pre_roster = [];
  post_roster = [];
  roster_changes = [];
  admissions = [];
  forced_transactions = [];
  canonical_batch_data = [];
  pre_liabilities = [];
  post_liabilities = [];
  deposits = [];
  withdrawals = [];
  withdrawal_capacity = 0;
  l1_import = none;
  compact_state = record { canonical_state_root = 0; accounts = [] };
  blocks = [];
}
