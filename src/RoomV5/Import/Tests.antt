-- ===== src/RoomV5/Import/Tests.antt =====
-- A concrete import with two mirrors, and the theorems at it.
use mathlib.Core.Path.{subst}
use zkdeal_prover.Prelude.{
  ℕ, ◌^◌, ◌<◌, ◌≤◌, ◌≡◌, ◌≢◌, refl, true, none, some, List, [], ◌∷◌, arith, All, ok, err,
}
use zkdeal_prover.Prelude.Map.{Map, lookup, amount_at, IsAscending}
use zkdeal_prover.Words.{be_bytes}
use zkdeal_prover.StfTypes.Scalars.{Address, U256}
use zkdeal_prover.StfTypes.Abi.Sample.{sample_keccak}
use zkdeal_prover.StfTypes.V5.{
  L1StorageSlotV5, L1MirrorBindingV5, CertifiedImportBindingV5, L1ImportWitnessV5,
  ParticipantRegistryBindingV5, BatchInputV5,
}
use zkdeal_prover.StfTypes.V5.Defaults.{default_journal, default_policy, default_input}
use zkdeal_prover.StfTypes.V5.Imported.{
  storage_keys_root_v5, import_root_v5, key_bytes, slot_bytes, import_policy_leaf_v5,
  import_payload_commitment_v5,
}
use zkdeal_prover.StfTypes.V5.Evaluate.{evaluate}
use zkdeal_prover.State.{StateMap, AccountRecord}
use zkdeal_prover.RoomV5.Refusal.{storage_keys_unsorted}
use zkdeal_prover.Trie.{sample_trie}
use zkdeal_prover.RoomV5.Import.{
  ParticipantState, verify_and_apply_import_v5, apply_import, collect_slots, is_proved,
  is_account_proved, differs_from_journal, certified_imports, apply_mirrors, apply_mirror,
  write_word, is_declared, has_import_fields, has_long_node, participant_state_v5,
  participant_state,
}
use zkdeal_prover.RoomV5.Import.Writes.{IsOrdered, stored, IsSameShell}
use zkdeal_prover.RoomV5.Import.Mirrors.{mirrored}
use zkdeal_prover.RoomV5.Import.Slots.{imported_value, is_imported, AreProved}
use zkdeal_prover.RoomV5.Import.Accepted.{
  verify_and_apply_import_v5-proves, verify_and_apply_import_v5-mirrors,
  verify_and_apply_import_v5-keeps, participant_state_v5-bounds,
}

-- The key 3 is 77 on L1, and the key 4 is zero.
abbrev slot : U256 → U256 → L1StorageSlotV5
slot key value = record { key = key; value = value; proof = (1 ∷ []) ∷ [] }

abbrev mirror : U256 → U256 → L1MirrorBindingV5
mirror key room_slot = record { source_key = key; room_contract = 50; room_slot = room_slot }

abbrev certified : U256 → U256 → CertifiedImportBindingV5
certified key room_slot = record {
  adapter_id = 8;
  adapter_version = 1;
  source = 21;
  source_key = key;
  room_contract = 50;
  room_slot = room_slot;
}

abbrev witness_of : List L1StorageSlotV5 → L1ImportWitnessV5
witness_of storage = record {
  source_block = 5;
  expiry_block = 9;
  header_hash = 31;
  state_root = 32;
  source = 21;
  source_nonce = 1;
  source_balance = 0;
  source_storage_root = 33;
  source_code_hash = 34;
  account_proof = (1 ∷ []) ∷ [];
  storage_keys_root = storage_keys_root_v5 (3 ∷ 4 ∷ []);
  adapter_id = 8;
  adapter_version = 1;
  storage = storage;
  mirror_bindings = mirror 3 9 ∷ mirror 4 10 ∷ [];
}

abbrev witness : L1ImportWitnessV5
witness = witness_of (slot 3 77 ∷ slot 4 0 ∷ [])

abbrev batch : L1ImportWitnessV5 → BatchInputV5
batch import' = record default_input {
  l1_chain_id = 1;
  journal = record default_journal {
    room_id = 7;
    import_cursor_after = 1;
    imported_l1_block = 5;
    imported_l1_header_hash = 31;
    imported_l1_state_root = 32;
    import_root = import_root_v5 7 1 import';
    l1_inclusion_deadline = 9;
  };
  policy = record default_policy { imports = certified 3 9 ∷ certified 4 10 ∷ [] };
  l1_import = some import';
}

abbrev room : Map U256 → AccountRecord
room storage = record { nonce = 2; balance = 6; code = 1 ∷ []; storage = storage }

abbrev state_of : Map U256 → StateMap
state_of storage = record {
  accounts = (50, room storage) ∷ [];
  block_hashes = [];
  access_accounts = none;
  access_storage = some ((50, 9 ∷ 10 ∷ []) ∷ []);
  access_violation = none;
  prepared_code = [];
  prepared_code_addresses = [];
}

abbrev before : StateMap
before = state_of ((10, 5) ∷ [])

abbrev after : StateMap
after = state_of ((9, 77) ∷ [])

before-IsOrdered : IsOrdered before
unfolding lookup
before-IsOrdered a account h =
    let own : room ((10, 5) ∷ []) ≡ account = ground arith in
    subst (λ (c : AccountRecord). IsAscending c.storage) own (tt, tt)

batch_valid : verify_and_apply_import_v5 sample_trie (batch witness) before ≡ ok after
unfolding verify_and_apply_import_v5 apply_import collect_slots is_proved is_account_proved
    differs_from_journal certified_imports apply_mirrors apply_mirror write_word is_declared
    has_long_node storage_keys_root_v5 import_root_v5 key_bytes slot_bytes import_policy_leaf_v5
    import_payload_commitment_v5 evaluate
batch_valid = refl

unsorted :
    verify_and_apply_import_v5 sample_trie (batch (witness_of (slot 4 0 ∷ slot 3 77 ∷ []))) before
    ≡ err storage_keys_unsorted
unfolding verify_and_apply_import_v5 apply_import collect_slots is_proved is_account_proved
    differs_from_journal certified_imports has_long_node storage_keys_root_v5 import_root_v5
    key_bytes slot_bytes import_policy_leaf_v5 import_payload_commitment_v5 evaluate
unsorted = refl

verify_and_apply_import_v5-proves_example :
    (witness.state_root ≡ (batch witness).journal.imported_l1_state_root)
    × (import_root_v5 (batch witness).journal.room_id (batch witness).l1_chain_id witness
        ≡ (batch witness).journal.import_root)
    × (sample_trie.verify_proof
          (batch witness).journal.imported_l1_state_root
          (sample_trie.unpack (sample_keccak.keccak256 (be_bytes 20 witness.source)))
          (some (
            sample_trie.encode_account (record {
              nonce = witness.source_nonce;
              balance = witness.source_balance;
              storage_root = witness.source_storage_root;
              code_hash = witness.source_code_hash;
            })))
          witness.account_proof
        ≡ true)
    × AreProved sample_trie witness.source_storage_root none witness.storage
    × All
        (λ (binding : L1MirrorBindingV5). is_imported witness.storage binding.source_key ≡ true)
        witness.mirror_bindings
verify_and_apply_import_v5-proves_example =
    verify_and_apply_import_v5-proves sample_trie (batch witness) witness before after refl
      batch_valid before-IsOrdered

verify_and_apply_import_v5-mirrors_example :
    stored after 50 9
    ≡ mirrored
        (λ key. imported_value witness.storage 0 key)
        witness.mirror_bindings
        (stored before)
        50
        9
verify_and_apply_import_v5-mirrors_example =
    verify_and_apply_import_v5-mirrors sample_trie (batch witness) witness before after refl
      batch_valid before-IsOrdered 50 9

verify_and_apply_import_v5-keeps_example :
    ((a : Address) → IsSameShell (lookup a before.accounts) (lookup a after.accounts))
    × IsOrdered after
verify_and_apply_import_v5-keeps_example =
    verify_and_apply_import_v5-keeps sample_trie (batch witness) witness before after refl
      batch_valid before-IsOrdered

no_import : verify_and_apply_import_v5 sample_trie default_input before ≡ ok before
unfolding verify_and_apply_import_v5 has_import_fields
no_import = refl

-- A registry of 256 seats, 3 of them taken, in epoch 2.
abbrev registry_batch : BatchInputV5
registry_batch = record default_input {
  policy = record default_policy {
    participant_registry = some (record {
      contract = 50;
      root_slot = 0;
      epoch_slot = 1;
      count_slot = 2;
      capacity_slot = 3;
    });
  };
}

abbrev registry : ParticipantState
registry = record { root = 99; epoch = 2; count = 3; capacity = 256 }

abbrev registry_state : StateMap
registry_state = state_of ((0, 99) ∷ (1, 2) ∷ (2, 3) ∷ (3, 256) ∷ [])

registry_valid : participant_state_v5 registry_batch registry_state ≡ ok registry
unfolding participant_state_v5 participant_state evaluate
registry_valid = refl

participant_state_v5-bounds_example :
    ((binding : ParticipantRegistryBindingV5) × (account : AccountRecord)
      × (registry_batch.policy.participant_registry ≡ some binding)
      × (lookup binding.contract registry_state.accounts ≡ some account)
      × (registry.root ≡ amount_at binding.root_slot account.storage)
      × (registry.epoch ≡ amount_at binding.epoch_slot account.storage)
      × (registry.count ≡ amount_at binding.count_slot account.storage)
      × (registry.capacity ≡ amount_at binding.capacity_slot account.storage))
    × (registry.root ≢ 0)
    × (0 < registry.epoch)
    × (registry.epoch < 2 ^ 64)
    × (128 ≤ registry.capacity)
    × (registry.capacity ≤ 32_768)
    × (registry.count ≤ registry.capacity)
    × ((k : ℕ) × (registry.capacity ≡ 2 ^ k))
participant_state_v5-bounds_example =
    participant_state_v5-bounds registry_batch registry_state registry registry_valid
