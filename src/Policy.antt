-- ===== src/Policy.antt =====
-- The certified policy of a room: zkvm/crates/stf-core/src/policy/mod.rs, its schema.
pub mod Enforce
pub mod Calls
pub mod FromV5
pub mod Sample
mod Tests
use zkdeal_prover.Prelude.{
  ℕ, ◌-◌, ◌/◌, ◌^◌, Bool, true, false, ◌&&◌, List, [], ◌==◌, if◌then◌else◌, any,
}
use zkdeal_prover.Prelude.Map.{Map}
use zkdeal_prover.StfTypes.Scalars.{Address, B256, U256, Selector}

-- The refusals of the policy, the texts under `StfError::CertifiedPolicy`, without the values that a
-- message interpolates.
pub data PolicyRefusal : Type 0 where
  -- enforce.rs
  abi_index_overflow argument_missing argument_not_an_address argument_not_a_member : PolicyRefusal
  guard_contract_absent membership_change_forbidden : PolicyRefusal
  pinned_account_disappeared pinned_code_changed storage_read_only : PolicyRefusal
  -- inspector.rs
  creation_disabled entry_outside_envelope : PolicyRefusal
  -- from_v5.rs
  policy_hash_differs envelope_invalid creation_certified code_unsorted pinned_account_absent :
      PolicyRefusal
  runtime_code_differs no_code_commitments uncommitted_code call_rule_unpinned selectors_invalid :
      PolicyRefusal
  kinds_invalid no_call_kind no_call_rules namespace_invalid storage_outside_namespace :
      PolicyRefusal
  import_read_only no_registry_binding registry_binding_invalid registry_read_only : PolicyRefusal
  import_overwrites_registry exit_binding_invalid exit_slots_read_only import_writes_queue :
      PolicyRefusal
  too_many_exit_assets exit_assets_unsorted native_asset_invalid token_asset_invalid : PolicyRefusal
  asset_kind_invalid memory_exceeds_usize : PolicyRefusal

pub data AllowedCallKind : Type 0 where
  call static_call delegate_call : AllowedCallKind

-- `kind as u8`
abbrev pub kind_code : AllowedCallKind → ℕ
kind_code call = 0
kind_code static_call = 1
kind_code delegate_call = 2

pub record CallRule : Type 0 where
  pub caller : Address
  pub target : Address
  pub selectors : List Selector
  pub kinds : List ℕ

pub record StorageNamespace : Type 0 where
  pub contract : Address
  pub slot_prefix : U256
  pub prefix_bits : ℕ
  pub writable : Bool

pub record ActiveMemberArgumentRule : Type 0 where
  pub target : Address
  pub selector : Selector
  pub argument_word_indices : List ℕ

pub record MembershipStateGuard : Type 0 where
  pub contract : Address
  pub storage_slot : U256
  pub bit_offset : ℕ
  pub bit_width : ℕ
  pub allowed_values : List U256

pub record ExecutionPolicyV4 : Type 0 where
  pub certified : Bool
  pub active_members : List Address
  pub code_hashes : Map B256
  pub call_rules : List CallRule
  pub storage_namespaces : List StorageNamespace
  pub active_member_argument_rules : List ActiveMemberArgumentRule
  pub membership_state_guards : List MembershipStateGuard
  pub membership_changed : Bool
  pub allow_contract_creation : Bool
  pub allow_self_destruct : Bool
  pub max_gas_per_block : ℕ
  pub max_memory_bytes : ℕ
  pub exit_program_id : B256
  pub preset_asset_ids : List ℕ

-- The policy of a block that no room certifies; a `usize` is taken to be 64 bits wide.
abbrev pub legacy_unrestricted : ExecutionPolicyV4
legacy_unrestricted = record {
  certified = false;
  active_members = [];
  code_hashes = [];
  call_rules = [];
  storage_namespaces = [];
  active_member_argument_rules = [];
  membership_state_guards = [];
  membership_changed = false;
  allow_contract_creation = true;
  allow_self_destruct = true;
  max_gas_per_block = 2 ^ 64 - 1;
  max_memory_bytes = 2 ^ 64 - 1;
  exit_program_id = 0;
  preset_asset_ids = [];
}

-- `ACTIVE_MEMBER_SENTINEL`, the zero address.
abbrev pub active_member_sentinel : Address
active_member_sentinel = 0

unfoldable pub slot_has_prefix : U256 → U256 → ℕ → Bool
slot_has_prefix slot prefix bits =
    if bits == 0 then true else slot / 2 ^ (256 - bits) == prefix / 2 ^ (256 - bits)

-- A namespace of the contract that holds the slot, and one that may be written.
unfoldable pub is_covered : List StorageNamespace → Address → U256 → Bool
unfolding slot_has_prefix
is_covered namespaces address slot =
    any
      (λ (namespace : StorageNamespace).
        namespace.contract == address
        && slot_has_prefix slot namespace.slot_prefix namespace.prefix_bits)
      namespaces

unfoldable pub is_writable : List StorageNamespace → Address → U256 → Bool
unfolding slot_has_prefix
is_writable namespaces address slot =
    any
      (λ (namespace : StorageNamespace).
        namespace.contract == address
        && namespace.writable
        && slot_has_prefix slot namespace.slot_prefix namespace.prefix_bits)
      namespaces
