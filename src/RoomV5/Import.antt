-- ===== src/RoomV5/Import.antt =====
-- Authenticated import of L1 storage and the participant registry:
-- zkvm/crates/stf-core/src/room_v5/import.rs. A `usize` is taken to be 64 bits wide.
pub mod Writes
pub mod Mirrors
pub mod Slots
pub mod Accepted
mod Tests
use zkdeal_prover.Prelude.{
  ℕ, ◌+◌, ◌-◌, ◌^◌, Bool, true, false, not, ◌&&◌, ◌||◌, Option, none, some, List, [], ◌∷◌, map, ltb,
  leb, ◌==◌, ◌!=◌, if◌then◌else◌, is_some_and, length, contains, any, keep_if, Result, ok, err,
  ◌>>=◌, ◌>>◌, reject_if, ok_or,
}
use zkdeal_prover.Prelude.Map.{Map, lookup, insert, remove}
use zkdeal_prover.Words.{checked_add_u64, is_power_of_two, be_bytes}
use zkdeal_prover.StfTypes.Scalars.{Address, B256, U256, Bytes}
use zkdeal_prover.StfTypes.Limits.{max_compact_proof_nodes_v4}
use zkdeal_prover.StfTypes.Abi.{Keccak}
use zkdeal_prover.StfTypes.V5.{
  L1StorageSlotV5, L1MirrorBindingV5, L1ImportWitnessV5, CertifiedImportBindingV5,
  ParticipantRegistryBindingV5, BatchJournalV5, BatchInputV5,
}
use zkdeal_prover.StfTypes.V5.Imported.{storage_keys_root_v5, import_root_v5}
use zkdeal_prover.Trie.{TrieAccount, Trie}
use zkdeal_prover.State.{StateMap, AccountRecord, word_at}
use zkdeal_prover.RoomV5.Refusal.{
  Refusal, import_fields_without_witness, import_metadata_differs, account_proof_too_large,
  account_proof_invalid, storage_keys_unsorted, proof_nodes_overflow, storage_proof_too_large,
  storage_proof_invalid, storage_keys_differ, mirrors_incomplete, mirror_differs, mirror_key_absent,
  mirror_outside_envelope, mirror_contract_absent, no_participant_registry,
  registry_contract_absent, registry_exceeds_u64, registry_invalid,
}

-- `u64::saturating_add`
abbrev pub saturating_add_u64 : ℕ → ℕ → ℕ
saturating_add_u64 a b = if ltb (a + b) (2 ^ 64) then a + b else 2 ^ 64 - 1

-- The public fields that a batch without an import leaves empty.
unfoldable pub has_import_fields : BatchJournalV5 → Bool
has_import_fields journal =
    journal.import_cursor_after != journal.import_cursor_before
    || journal.imported_l1_block != 0
    || journal.imported_l1_header_hash != 0
    || journal.imported_l1_state_root != 0
    || journal.import_root != 0

pub has_long_node : List Bytes → Bool
has_long_node proof = any (λ (node : Bytes). ltb 1_024 (length node)) proof

-- `policy.imports.iter().filter(..)`: the mirrors that the adapter of the import must write.
pub certified_imports : BatchInputV5 → L1ImportWitnessV5 → List CertifiedImportBindingV5
certified_imports input witness =
    keep_if
      (λ (binding : CertifiedImportBindingV5).
        binding.adapter_id == witness.adapter_id
        && binding.adapter_version == witness.adapter_version
        && binding.source == witness.source)
      input.policy.imports

-- The write of one mirrored word; a zero word is no entry.
pub write_word : Address → AccountRecord → U256 → U256 → StateMap → StateMap
write_word address account slot value state = record state {
  accounts =
      insert address
        (record account {
          storage =
              if value == 0 then remove slot account.storage else insert slot value account.storage;
        })
        state.accounts;
}

-- Unlike a guarded read, a mirror requires that an envelope is declared.
pub is_declared : StateMap → Address → U256 → Bool
is_declared state address slot =
    is_some_and state.access_storage
      (λ allowed. is_some_and (lookup address allowed) (λ slots. contains slot slots))

-- One round of the loop over the mirrors.
pub apply_mirror :
    Map U256 → L1MirrorBindingV5 → CertifiedImportBindingV5 → StateMap → Result Refusal StateMap
unfolding write_word is_declared
apply_mirror values binding expected state = do
  reject_if
      (binding.source_key != expected.source_key
        || binding.room_contract != expected.room_contract
        || binding.room_slot != expected.room_slot)
      mirror_differs
  value ← ok_or (lookup binding.source_key values) mirror_key_absent
  reject_if (not (is_declared state binding.room_contract binding.room_slot))
      mirror_outside_envelope
  account ← ok_or (lookup binding.room_contract state.accounts) mirror_contract_absent
  ok (write_word binding.room_contract account binding.room_slot value state)

-- The loop over `mirror_bindings.iter().zip(certified)`.
pub apply_mirrors :
    Map U256
    → List L1MirrorBindingV5
    → List CertifiedImportBindingV5
    → StateMap
    → Result Refusal StateMap
apply_mirrors values [] certified state = ok state
apply_mirrors values (binding ∷ bindings) [] state = ok state
apply_mirrors values (binding ∷ bindings) (expected ∷ certified) state = do
  state' ← apply_mirror values binding expected state
  apply_mirrors values bindings certified state'

module _ ⦃keccak : Keccak⦄ where
  -- The comparison of the import with the public fields of the batch.
  pub differs_from_journal : BatchInputV5 → L1ImportWitnessV5 → Bool
  differs_from_journal input witness =
      let journal = input.journal in
      journal.import_cursor_after != saturating_add_u64 journal.import_cursor_before 1
      || witness.source_block != journal.imported_l1_block
      || witness.header_hash != journal.imported_l1_header_hash
      || witness.state_root != journal.imported_l1_state_root
      || import_root_v5 journal.room_id input.l1_chain_id witness != journal.import_root
      || ltb witness.expiry_block journal.l1_inclusion_deadline
      || witness.source == 0
      || witness.source_code_hash == 0

module _ ⦃keccak : Keccak⦄ (trie : Trie) where
  -- The proof of one storage slot; a zero word is proved absent.
  pub is_proved : B256 → L1StorageSlotV5 → Bool
  is_proved storage_root slot =
      trie.verify_proof storage_root (trie.unpack (keccak.keccak256 (be_bytes 32 slot.key)))
        (if slot.value != 0 then some (trie.encode_word slot.value) else none) slot.proof

  -- The loop over the imported slots, with the key before, the count of proof nodes and the values.
  pub collect_slots :
      B256 → List L1StorageSlotV5 → Option U256 → ℕ → Map U256 → Result Refusal (Map U256)
  unfolding has_long_node
  collect_slots storage_root [] previous proof_nodes values = ok values
  collect_slots storage_root (slot ∷ slots) previous proof_nodes values = do
    reject_if (is_some_and previous (λ key. leb slot.key key)) storage_keys_unsorted
    proof_nodes' ← ok_or (checked_add_u64 proof_nodes (length slot.proof)) proof_nodes_overflow
    reject_if (ltb max_compact_proof_nodes_v4 proof_nodes' || has_long_node slot.proof)
        storage_proof_too_large
    reject_if (not (is_proved storage_root slot)) storage_proof_invalid
    collect_slots storage_root slots (some slot.key) proof_nodes'
        (insert slot.key slot.value values)

  pub is_account_proved : L1ImportWitnessV5 → Bool
  is_account_proved witness =
      trie.verify_proof witness.state_root
        (trie.unpack (keccak.keccak256 (be_bytes 20 witness.source)))
        (some (
          trie.encode_account (record {
            nonce = witness.source_nonce;
            balance = witness.source_balance;
            storage_root = witness.source_storage_root;
            code_hash = witness.source_code_hash;
          })))
        witness.account_proof

  -- The part of `verify_and_apply_import_v5` behind the test that there is an import.
  pub apply_import : BatchInputV5 → L1ImportWitnessV5 → StateMap → Result Refusal StateMap
  apply_import input witness state = do
    reject_if (differs_from_journal input witness) import_metadata_differs
    reject_if
        (ltb max_compact_proof_nodes_v4 (length witness.account_proof)
          || has_long_node witness.account_proof)
        account_proof_too_large
    reject_if (not (is_account_proved witness)) account_proof_invalid
    values ←
        collect_slots witness.source_storage_root witness.storage none
          (length witness.account_proof) []
    reject_if
        (storage_keys_root_v5 (map (λ (entry : ℕ × U256). entry.0) values)
          != witness.storage_keys_root)
        storage_keys_differ
    let certified = certified_imports input witness
    reject_if (length certified != length witness.mirror_bindings) mirrors_incomplete
    apply_mirrors values witness.mirror_bindings certified state

  unfoldable pub verify_and_apply_import_v5 : BatchInputV5 → StateMap → Result Refusal StateMap
  unfolding has_import_fields
  verify_and_apply_import_v5 input state = elim input.l1_import [
    | none ↦ if has_import_fields input.journal then err import_fields_without_witness else ok state
    | some witness ↦ apply_import input witness state
  ]

pub record ParticipantState : Type 0 where
  pub root : B256
  pub epoch : ℕ
  pub count : ℕ
  pub capacity : ℕ

-- The checks on the four words of the registry.
unfoldable pub participant_state : U256 → U256 → U256 → U256 → Result Refusal ParticipantState
participant_state root epoch count capacity = do
  reject_if (ltb (2 ^ 64 - 1) epoch || ltb (2 ^ 64 - 1) count || ltb (2 ^ 64 - 1) capacity)
      registry_exceeds_u64
  reject_if
      (root == 0
        || epoch == 0
        || ltb capacity 128
        || ltb 32_768 capacity
        || not (is_power_of_two capacity)
        || ltb capacity count)
      registry_invalid
  ok (record { root = root; epoch = epoch; count = count; capacity = capacity })

unfoldable pub participant_state_v5 : BatchInputV5 → StateMap → Result Refusal ParticipantState
unfolding participant_state
participant_state_v5 input state = do
  binding ← ok_or input.policy.participant_registry no_participant_registry
  account ← ok_or (lookup binding.contract state.accounts) registry_contract_absent
  let word = λ (slot : U256). word_at (lookup slot account.storage)
  participant_state (word binding.root_slot) (word binding.epoch_slot) (word binding.count_slot)
      (word binding.capacity_slot)
