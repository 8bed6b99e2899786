-- ===== src/Policy/Sample.antt =====
-- Policies for tests: member 21 may call contract 50 with the selector 9.
use zkdeal_prover.Prelude.{◌^◌, true, false, none, some, [], ◌∷◌}
use zkdeal_prover.StfTypes.Abi.Sample.{sample_keccak}
use zkdeal_prover.StfTypes.V5.{ExecutionPolicyV5}
use zkdeal_prover.State.{StateMap}
use zkdeal_prover.Policy.{ExecutionPolicyV4}

abbrev pub sample_policy : ExecutionPolicyV4
sample_policy = record {
  certified = true;
  active_members = 21 ∷ [];
  code_hashes = (50, 7) ∷ [];
  call_rules = record { caller = 0; target = 50; selectors = 9 ∷ []; kinds = 0 ∷ [] } ∷ [];
  storage_namespaces =
      record { contract = 50; slot_prefix = 0; prefix_bits = 0; writable = true } ∷ [];
  active_member_argument_rules = [];
  membership_state_guards = [];
  membership_changed = false;
  allow_contract_creation = false;
  allow_self_destruct = false;
  max_gas_per_block = 30000000;
  max_memory_bytes = 65536;
  exit_program_id = 0;
  preset_asset_ids = [];
}

-- Contract 50 is the registry, with its words in the slots 1 to 4, contract 51 the exit queue, of
-- which the slots below 2^128 may be written.
abbrev pub sample_policy_v5 : ExecutionPolicyV5
sample_policy_v5 = record {
  state_commitment = 1;
  max_blocks_per_batch = 4;
  max_transactions_per_block = 16;
  max_gas_per_block = 30000000;
  max_memory_bytes = 65536;
  allow_contract_creation = false;
  allow_self_destruct = false;
  code =
      record { address = 50; runtime_code_hash = sample_keccak.keccak256 (1 ∷ 2 ∷ []) }
      ∷ record { address = 51; runtime_code_hash = sample_keccak.keccak256 (3 ∷ []) }
      ∷ [];
  calls = record { caller = 0; target = 50; selectors = 9 ∷ []; kinds = 0 ∷ [] } ∷ [];
  storage =
      record { contract = 50; slot_prefix = 0; prefix_bits = 0; writable = true }
      ∷ record { contract = 51; slot_prefix = 0; prefix_bits = 128; writable = true }
      ∷ record { contract = 51; slot_prefix = 2 ^ 200; prefix_bits = 256; writable = false }
      ∷ [];
  imports =
      record {
        adapter_id = 1;
        adapter_version = 1;
        source = 77;
        source_key = 3;
        room_contract = 50;
        room_slot = 20;
      }
      ∷ [];
  participant_registry =
      some (record {
        contract = 50;
        root_slot = 1;
        epoch_slot = 2;
        count_slot = 3;
        capacity_slot = 4;
      });
  exit = some (record {
    queue_contract = 51;
    count_slot = 0;
    records_base_slot = 1;
    assets = record { asset = 0; kind = 0; token = 0; balance_slot = 0 } ∷ [];
    fallback_recipient = 30;
  });
}

abbrev pub sample_room : StateMap
sample_room = record {
  accounts =
      (21, record { nonce = 4; balance = 10; code = []; storage = [] })
      ∷ (
        50,
        record {
          nonce = 1;
          balance = 0;
          code = 1 ∷ 2 ∷ [];
          storage = (1, 100) ∷ (2, 5) ∷ (3, 1) ∷ (4, 128) ∷ [];
        },
      )
      ∷ (51, record { nonce = 1; balance = 0; code = 3 ∷ []; storage = [] })
      ∷ [];
  block_hashes = [];
  access_accounts = none;
  access_storage = none;
  access_violation = none;
  prepared_code = [];
  prepared_code_addresses = [];
}

abbrev pub sample_resolved : ExecutionPolicyV4
sample_resolved = record {
  certified = true;
  active_members = 21 ∷ [];
  code_hashes =
      (50, sample_keccak.keccak256 (1 ∷ 2 ∷ [])) ∷ (51, sample_keccak.keccak256 (3 ∷ [])) ∷ [];
  call_rules = record { caller = 0; target = 50; selectors = 9 ∷ []; kinds = 0 ∷ [] } ∷ [];
  storage_namespaces =
      record { contract = 50; slot_prefix = 0; prefix_bits = 0; writable = true }
      ∷ record { contract = 51; slot_prefix = 0; prefix_bits = 128; writable = true }
      ∷ record { contract = 51; slot_prefix = 2 ^ 200; prefix_bits = 256; writable = false }
      ∷ [];
  active_member_argument_rules = [];
  membership_state_guards = [];
  membership_changed = false;
  allow_contract_creation = false;
  allow_self_destruct = false;
  max_gas_per_block = 30000000;
  max_memory_bytes = 65536;
  exit_program_id = 0;
  preset_asset_ids = [];
}
