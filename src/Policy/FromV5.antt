-- ===== src/Policy/FromV5.antt =====
-- The resolved policy of a v5 room: `from_v5` of zkvm/crates/stf-core/src/policy/from_v5.rs. A `usize`
-- is taken to be 64 bits wide.
pub mod Exit
pub mod Certified
pub mod Unchanged
use zkdeal_prover.Prelude.{
  ℕ, ◌^◌, Bool, true, false, not, ◌&&◌, ◌||◌, Option, none, some, List, [], ◌∷◌, ltb, leb, ◌==◌,
  ◌!=◌, if◌then◌else◌, is_some_and, is_none, is_empty, length, any, contains, collect_set, Result,
  ok, err, ◌>>=◌, ◌>>◌, reject_if, ok_or,
}
use zkdeal_prover.Prelude.Map.{Map, lookup, insert}
use zkdeal_prover.StfTypes.Scalars.{Address, B256, U256}
use zkdeal_prover.StfTypes.Abi.{Keccak}
use zkdeal_prover.StfTypes.V5.{
  CertifiedImportBindingV5, CodeCommitmentV5, CallRuleV5, StorageNamespaceV5,
  ParticipantRegistryBindingV5, ExecutionPolicyV5,
}
use zkdeal_prover.StfTypes.V5.PolicyHash.{execution_policy_hash_v5}
use zkdeal_prover.State.{StateMap, AccountRecord, code_hash}
use zkdeal_prover.Policy.{
  PolicyRefusal, policy_hash_differs, envelope_invalid, creation_certified, code_unsorted,
  pinned_account_absent, runtime_code_differs, no_code_commitments, uncommitted_code,
  call_rule_unpinned, selectors_invalid, kinds_invalid, no_call_kind, no_call_rules,
  namespace_invalid, storage_outside_namespace, import_read_only, no_registry_binding,
  registry_binding_invalid, registry_read_only, import_overwrites_registry, memory_exceeds_usize,
  delegate_call, kind_code, CallRule, StorageNamespace, ExecutionPolicyV4, active_member_sentinel,
  is_covered, is_writable,
}
use zkdeal_prover.Policy.Enforce.{keys}
use Exit.{validate_exit_binding}

-- `code_hashes.contains_key(&address)`
abbrev pub is_pinned : Map B256 → Address → Bool
is_pinned code_hashes address = not (is_none (lookup address code_hashes))

-- The resource envelope and the members.
unfoldable pub is_envelope_invalid : ExecutionPolicyV5 → List Address → Bool
is_envelope_invalid policy active_members =
    ltb 1 policy.state_commitment
    || policy.max_blocks_per_batch == 0
    || ltb 64 policy.max_blocks_per_batch
    || policy.max_transactions_per_block == 0
    || ltb 4_096 policy.max_transactions_per_block
    || policy.max_gas_per_block == 0
    || policy.max_memory_bytes == 0
    || is_empty active_members

module _ ⦃keccak : Keccak⦄ where
  -- The loop over the code commitments, with the address before and the hashes so far.
  unfoldable pub pin_code :
      StateMap → List CodeCommitmentV5 → Option Address → Map B256 → Result PolicyRefusal (Map B256)
  pin_code state [] previous code_hashes = ok code_hashes
  pin_code state (code ∷ codes) previous code_hashes = do
    reject_if
        (code.address == 0
          || code.runtime_code_hash == 0
          || is_some_and previous (λ before. leb code.address before)
          || not (is_none (lookup code.address code_hashes)))
        code_unsorted
    account ← ok_or (lookup code.address state.accounts) pinned_account_absent
    reject_if (code_hash account != code.runtime_code_hash) runtime_code_differs
    pin_code state codes (some code.address)
        (insert code.address code.runtime_code_hash code_hashes)

-- The loop that refuses code without a commitment.
unfoldable pub reject_uncommitted : Map B256 → Map AccountRecord → Result PolicyRefusal (Unit {0})
reject_uncommitted code_hashes [] = ok tt
reject_uncommitted code_hashes ((address, account) ∷ accounts) = do
  reject_if (not (is_empty account.code) && not (is_pinned code_hashes address)) uncommitted_code
  reject_uncommitted code_hashes accounts

-- The loop over the kinds of a rule.
unfoldable pub collect_kinds : List ℕ → List ℕ → Result PolicyRefusal (List ℕ)
collect_kinds [] kinds = ok kinds
collect_kinds (kind ∷ rest) kinds = do
  reject_if (ltb (kind_code delegate_call) kind || contains kind kinds) kinds_invalid
  collect_kinds rest (kind ∷ kinds)

-- One round of the loop over the call rules, given the caller and target pairs so far.
unfoldable pub resolve_call :
    Map B256 → List (Address × Address) → CallRuleV5 → Result PolicyRefusal CallRule
unfolding collect_kinds
resolve_call code_hashes call_keys rule = do
  reject_if
      (rule.target == 0
        || not (is_pinned code_hashes rule.target)
        || (rule.caller != active_member_sentinel && not (is_pinned code_hashes rule.caller))
        || any (λ (key : Address × Address). key.0 == rule.caller && key.1 == rule.target)
            call_keys)
      call_rule_unpinned
  let selectors = collect_set rule.selectors
  reject_if (is_empty selectors || length selectors != length rule.selectors) selectors_invalid
  kinds ← collect_kinds rule.kinds []
  reject_if (is_empty kinds) no_call_kind
  ok (record { caller = rule.caller; target = rule.target; selectors = selectors; kinds = kinds })

unfoldable pub resolve_calls :
    Map B256 → List CallRuleV5 → List (Address × Address) → Result PolicyRefusal (List CallRule)
unfolding resolve_call
resolve_calls code_hashes [] call_keys = ok []
resolve_calls code_hashes (rule ∷ rules) call_keys = do
  one ← resolve_call code_hashes call_keys rule
  rest ← resolve_calls code_hashes rules ((rule.caller, rule.target) ∷ call_keys)
  ok (one ∷ rest)

-- The loop over the namespaces, with the ones so far.
unfoldable pub resolve_namespaces :
    Map B256
    → List StorageNamespaceV5
    → List StorageNamespaceV5
    → Result PolicyRefusal (List StorageNamespace)
resolve_namespaces code_hashes [] storage_keys = ok []
resolve_namespaces code_hashes (namespace ∷ namespaces) storage_keys = do
  reject_if
      (ltb 256 namespace.prefix_bits
        || not (is_pinned code_hashes namespace.contract)
        || any
            (λ (key : StorageNamespaceV5).
              key.contract == namespace.contract
              && key.slot_prefix == namespace.slot_prefix
              && key.prefix_bits == namespace.prefix_bits)
            storage_keys)
      namespace_invalid
  rest ← resolve_namespaces code_hashes namespaces (namespace ∷ storage_keys)
  ok (
      record {
        contract = namespace.contract;
        slot_prefix = namespace.slot_prefix;
        prefix_bits = namespace.prefix_bits;
        writable = namespace.writable;
      }
      ∷ rest)

-- The loops over the accounts of the state and over the slots of each.
unfoldable pub validate_covered_slots :
    List StorageNamespace → Address → List U256 → Result PolicyRefusal (Unit {0})
validate_covered_slots namespaces address [] = ok tt
validate_covered_slots namespaces address (slot ∷ slots) = do
  reject_if (not (is_covered namespaces address slot)) storage_outside_namespace
  validate_covered_slots namespaces address slots

unfoldable pub validate_covered :
    List StorageNamespace → Map AccountRecord → Result PolicyRefusal (Unit {0})
unfolding validate_covered_slots
validate_covered namespaces [] = ok tt
validate_covered namespaces ((address, account) ∷ accounts) = do
  validate_covered_slots namespaces address (keys account.storage)
  validate_covered namespaces accounts

-- The loop over the import mirrors.
unfoldable pub validate_imports :
    List StorageNamespace → List CertifiedImportBindingV5 → Result PolicyRefusal (Unit {0})
validate_imports namespaces [] = ok tt
validate_imports namespaces (binding ∷ imports) = do
  reject_if (not (is_writable namespaces binding.room_contract binding.room_slot)) import_read_only
  validate_imports namespaces imports

-- The loop over the four slots of the registry.
unfoldable pub validate_registry_slots :
    List StorageNamespace
    → List CertifiedImportBindingV5
    → Address
    → List U256
    → Result PolicyRefusal (Unit {0})
validate_registry_slots namespaces imports contract [] = ok tt
validate_registry_slots namespaces imports contract (slot ∷ slots) = do
  reject_if (not (is_writable namespaces contract slot)) registry_read_only
  reject_if
      (any
        (λ (binding : CertifiedImportBindingV5).
          binding.room_contract == contract && binding.room_slot == slot)
        imports)
      import_overwrites_registry
  validate_registry_slots namespaces imports contract slots

abbrev pub registry_slots : ParticipantRegistryBindingV5 → List U256
registry_slots participant =
    participant.root_slot ∷ participant.epoch_slot ∷ participant.count_slot
    ∷ participant.capacity_slot ∷ []

unfoldable pub validate_registry :
    Map B256
    → List StorageNamespace
    → List CertifiedImportBindingV5
    → ParticipantRegistryBindingV5
    → Result PolicyRefusal (Unit {0})
unfolding validate_registry_slots
validate_registry code_hashes namespaces imports participant = do
  reject_if
      (participant.contract == 0
        || not (is_pinned code_hashes participant.contract)
        || length (collect_set (registry_slots participant)) != 4)
      registry_binding_invalid
  validate_registry_slots namespaces imports participant.contract (registry_slots participant)

module _ ⦃keccak : Keccak⦄ where
  unfoldable pub from_v5 :
      ExecutionPolicyV5
      → B256
      → List Address
      → StateMap
      → Bool
      → Result PolicyRefusal ExecutionPolicyV4
  from_v5 policy expected_hash active_members state membership_changed = do
    reject_if (execution_policy_hash_v5 policy != expected_hash) policy_hash_differs
    reject_if (is_envelope_invalid policy active_members) envelope_invalid
    reject_if (policy.allow_contract_creation || policy.allow_self_destruct) creation_certified
    code_hashes ← pin_code state policy.code none []
    reject_if (is_empty code_hashes) no_code_commitments
    reject_uncommitted code_hashes state.accounts
    call_rules ← resolve_calls code_hashes policy.calls []
    reject_if (is_empty call_rules) no_call_rules
    storage_namespaces ← resolve_namespaces code_hashes policy.storage []
    validate_covered storage_namespaces state.accounts
    validate_imports storage_namespaces policy.imports
    participant ← ok_or policy.participant_registry no_registry_binding
    validate_registry code_hashes storage_namespaces policy.imports participant
    validate_exit_binding code_hashes storage_namespaces policy.imports participant.contract
        policy.exit
    reject_if (leb (2 ^ 64) policy.max_memory_bytes) memory_exceeds_usize
    ok (record {
      certified = true;
      active_members = active_members;
      code_hashes = code_hashes;
      call_rules = call_rules;
      storage_namespaces = storage_namespaces;
      active_member_argument_rules = [];
      membership_state_guards = [];
      membership_changed = membership_changed;
      allow_contract_creation = false;
      allow_self_destruct = false;
      max_gas_per_block = policy.max_gas_per_block;
      max_memory_bytes = policy.max_memory_bytes;
      exit_program_id = 0;
      preset_asset_ids = [];
    })
