-- ===== src/RoomV5/Import/Accepted.antt =====
-- What an accepted import, and an accepted participant registry, establish.
use zkdeal_prover.Prelude.{
  ℕ, ◌^◌, ◌<◌, ◌≤◌, ◌≡◌, ◌≢◌, ap, ◌∙◌, true, false, none, some, [], arith, length, All, All-map, ok,
  Result-cases, Option-cases, inl, inr, Bool-cases,
}
use zkdeal_prover.Prelude.Map.{Map, lookup, amount_at, lookup-nil, amount_at-nil}
use zkdeal_prover.Words.{be_bytes}
use zkdeal_prover.Words.Powers.{is_power_of_two_sound}
use zkdeal_prover.StfTypes.Scalars.{Address, U256}
use zkdeal_prover.StfTypes.Abi.{Keccak}
use zkdeal_prover.StfTypes.V5.{
  L1MirrorBindingV5, L1ImportWitnessV5, ParticipantRegistryBindingV5, BatchInputV5,
}
use zkdeal_prover.StfTypes.V5.Imported.{import_root_v5}
use zkdeal_prover.State.{StateMap, AccountRecord}
use zkdeal_prover.Trie.{Trie}
use zkdeal_prover.RoomV5.Import.{
  has_import_fields, collect_slots, is_account_proved, differs_from_journal, certified_imports,
  apply_mirrors, apply_import, verify_and_apply_import_v5, ParticipantState, participant_state,
  participant_state_v5,
}
use zkdeal_prover.RoomV5.Import.Writes.{IsOrdered, stored, IsSameShell}
use zkdeal_prover.RoomV5.Import.Mirrors.{
  mirrored, mirrored_source, IsMirrored, apply_mirrors-IsMirrored,
}
use zkdeal_prover.RoomV5.Import.Slots.{
  imported_value, is_imported, AreProved, collect_slots-AreProved, collect_slots-amount,
  collect_slots-unlisted,
}

module _ ⦃keccak : Keccak⦄ (trie : Trie) (input : BatchInputV5) (witness : L1ImportWitnessV5)
    (state state' : StateMap) where
  record IsImported : Type 0 where
    values : Map U256
    agrees : differs_from_journal input witness ≡ false
    account : is_account_proved trie witness ≡ true
    collected :
        collect_slots trie witness.source_storage_root witness.storage none
          (length witness.account_proof)
          []
        ≡ ok values
    complete : length (certified_imports input witness) ≡ length witness.mirror_bindings
    mirrors :
        apply_mirrors values witness.mirror_bindings (certified_imports input witness) state
        ≡ ok state'

  apply_import-IsImported : apply_import trie input witness state ≡ ok state' → IsImported
  unfolding apply_import
  apply_import-IsImported h =
      elim (Result-cases (
        collect_slots trie witness.source_storage_root witness.storage none
          (length witness.account_proof) [])) [
            | inr (x, failed) ↦ absurd (ground arith)
            | inl (values, collected) ↦ record {
              values = values;
              agrees = ground arith;
              account = ground arith;
              collected = collected;
              complete = ground arith;
              mirrors = ground arith;
            }
          ]

  module _ (present : input.l1_import ≡ some witness)
      (valid : verify_and_apply_import_v5 trie input state ≡ ok state') where
    accepted_import : IsImported
    unfolding verify_and_apply_import_v5
    accepted_import = apply_import-IsImported (ground arith)

    account_proof :
        witness.state_root ≡ input.journal.imported_l1_state_root
        → is_account_proved trie witness ≡ true
        → trie.verify_proof input.journal.imported_l1_state_root
            (trie.unpack (keccak.keccak256 (be_bytes 20 witness.source)))
            (some (
              trie.encode_account (record {
                nonce = witness.source_nonce;
                balance = witness.source_balance;
                storage_root = witness.source_storage_root;
                code_hash = witness.source_code_hash;
              })))
            witness.account_proof
          ≡ true
    unfolding is_account_proved
    account_proof same proved = rw (← same) proved

    import-IsMirrored :
        IsOrdered state → IsMirrored accepted_import.values witness.mirror_bindings state state'
    import-IsMirrored ordered =
        apply_mirrors-IsMirrored accepted_import.values witness.mirror_bindings
          (certified_imports input witness) state state' accepted_import.complete
          accepted_import.mirrors ordered

    import_values :
        (key : U256) → amount_at key accepted_import.values ≡ imported_value witness.storage 0 key
    import_values key =
        collect_slots-amount trie witness.source_storage_root witness.storage none
          (length witness.account_proof) [] accepted_import.values key accepted_import.collected
        ∙ ap (λ (x : ℕ). imported_value witness.storage x key) (amount_at-nil key)

    import_listed :
        (key value : U256)
        → lookup key accepted_import.values ≡ some value
        → is_imported witness.storage key ≡ true
    import_listed key value known = elim (Bool-cases (is_imported witness.storage key)) [
      | inl listed ↦ listed
      | inr other ↦
          let missing : lookup key accepted_import.values ≡ none =
            collect_slots-unlisted trie witness.source_storage_root witness.storage none
              (length witness.account_proof) [] accepted_import.values key accepted_import.collected
              other
            ∙ lookup-nil key in
          absurd (ground arith)
    ]

    pub verify_and_apply_import_v5-proves :
        IsOrdered state
        → (witness.state_root ≡ input.journal.imported_l1_state_root)
          × (import_root_v5 input.journal.room_id input.l1_chain_id witness
              ≡ input.journal.import_root)
          × (trie.verify_proof input.journal.imported_l1_state_root
                (trie.unpack (keccak.keccak256 (be_bytes 20 witness.source)))
                (some (
                  trie.encode_account (record {
                    nonce = witness.source_nonce;
                    balance = witness.source_balance;
                    storage_root = witness.source_storage_root;
                    code_hash = witness.source_code_hash;
                  })))
                witness.account_proof
              ≡ true)
          × AreProved trie witness.source_storage_root none witness.storage
          × All
              (λ (binding : L1MirrorBindingV5).
                is_imported witness.storage binding.source_key ≡ true)
              witness.mirror_bindings
    unfolding differs_from_journal
    verify_and_apply_import_v5-proves ordered =
        let i = accepted_import in
        (
          ground (arith, i.agrees),
          ground (arith, i.agrees),
          account_proof (ground (arith, i.agrees)) i.account,
          collect_slots-AreProved trie witness.source_storage_root witness.storage none
              (length witness.account_proof) [] i.values i.collected,
          All-map _ _ (λ binding known. import_listed binding.source_key known.0 known.1)
              witness.mirror_bindings (import-IsMirrored ordered).known,
        )

    -- An accepted import writes the mirrors and nothing else: when the storage maps of the state are
    -- ordered, each word of the state after it is the word before it with the mirrors written in
    -- order, each with the value that the import's slots give its source key.
    pub verify_and_apply_import_v5-mirrors :
        IsOrdered state
        → (a : Address) (s : U256)
        → stored state' a s
          ≡ mirrored
              (λ key. imported_value witness.storage 0 key)
              witness.mirror_bindings
              (stored state)
              a
              s
    verify_and_apply_import_v5-mirrors ordered a s =
        let i = accepted_import in
        (import-IsMirrored ordered).words a s
        ∙ mirrored_source (λ key. amount_at key i.values)
            (λ key. imported_value witness.storage 0 key) witness.mirror_bindings (stored state)
            import_values a s

    -- An accepted import creates and removes no account, and keeps the nonce, the balance and the code
    -- of each, when the storage maps of the state are ordered; they stay ordered.
    pub verify_and_apply_import_v5-keeps :
        IsOrdered state
        → ((a : Address) → IsSameShell (lookup a state.accounts) (lookup a state'.accounts))
          × IsOrdered state'
    verify_and_apply_import_v5-keeps ordered =
        let m = import-IsMirrored ordered in (m.shells, m.ordered)

-- A batch without an import that is accepted leaves the state alone, and publishes nothing of one:
-- its cursor stands still and its block, header, state root and import root are zero.
pub verify_and_apply_import_v5-none :
    ⦃keccak : Keccak⦄ (trie : Trie) (input : BatchInputV5) (state state' : StateMap)
    → input.l1_import ≡ none
    → verify_and_apply_import_v5 trie input state ≡ ok state'
    → (state' ≡ state)
      × (input.journal.import_cursor_after ≡ input.journal.import_cursor_before)
      × (input.journal.imported_l1_block ≡ 0)
      × (input.journal.imported_l1_header_hash ≡ 0)
      × (input.journal.imported_l1_state_root ≡ 0)
      × (input.journal.import_root ≡ 0)
unfolding verify_and_apply_import_v5 has_import_fields
verify_and_apply_import_v5-none trie input state state' absent h = ground arith

-- A participant registry that is accepted holds the words that the certified contract has at the four
-- certified slots. Its root and its epoch are not zero, its capacity is a power of two from 128 to
-- 32768, its count is within the capacity, and the epoch is below 2 ^ 64.
pub participant_state_v5-bounds :
    (input : BatchInputV5) (state : StateMap) (p : ParticipantState)
    → participant_state_v5 input state ≡ ok p
    → ((binding : ParticipantRegistryBindingV5) × (account : AccountRecord)
        × (input.policy.participant_registry ≡ some binding)
        × (lookup binding.contract state.accounts ≡ some account)
        × (p.root ≡ amount_at binding.root_slot account.storage)
        × (p.epoch ≡ amount_at binding.epoch_slot account.storage)
        × (p.count ≡ amount_at binding.count_slot account.storage)
        × (p.capacity ≡ amount_at binding.capacity_slot account.storage))
      × (p.root ≢ 0)
      × (0 < p.epoch)
      × (p.epoch < 2 ^ 64)
      × (128 ≤ p.capacity)
      × (p.capacity ≤ 32_768)
      × (p.count ≤ p.capacity)
      × ((k : ℕ) × (p.capacity ≡ 2 ^ k))
unfolding participant_state_v5 participant_state
participant_state_v5-bounds input state p h =
    elim (Option-cases input.policy.participant_registry) [
      | inl absent ↦ absurd (ground arith)
      | inr (binding, named) ↦ elim (Option-cases (lookup binding.contract state.accounts)) [
        | inl absent ↦ absurd (ground arith)
        | inr (account, found) ↦
            let (k, small, power) = is_power_of_two_sound p.capacity (ground arith) in
            (
              (
                binding,
                account,
                named,
                found,
                ground arith,
                ground arith,
                ground arith,
                ground arith,
              ),
              ground arith,
              ground arith,
              ground arith,
              ground arith,
              ground arith,
              ground arith,
              (k, power),
            )
      ]
    ]
