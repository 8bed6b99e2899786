-- ===== src/StfTypes/V5/Policy.antt =====
-- The certified policy of a long-lived room, from zkvm/crates/stf-types/src/v5/types.rs.
use zkdeal_prover.Prelude.{ℕ, Bool, Option, List}
use zkdeal_prover.StfTypes.Scalars.{Address, B256, U256, Selector}

pub record CertifiedImportBindingV5 : Type 0 where
  pub adapter_id : B256
  pub adapter_version : B256
  pub source : Address
  pub source_key : U256
  pub room_contract : Address
  pub room_slot : U256

pub record CodeCommitmentV5 : Type 0 where
  pub address : Address
  pub runtime_code_hash : B256

pub record CallRuleV5 : Type 0 where
  pub caller : Address
  pub target : Address
  pub selectors : List Selector
  pub kinds : List ℕ

pub record StorageNamespaceV5 : Type 0 where
  pub contract : Address
  pub slot_prefix : U256
  pub prefix_bits : ℕ
  pub writable : Bool

pub record ParticipantRegistryBindingV5 : Type 0 where
  pub contract : Address
  pub root_slot : U256
  pub epoch_slot : U256
  pub count_slot : U256
  pub capacity_slot : U256

pub record ExitAssetBindingV5 : Type 0 where
  pub asset : Address
  pub kind : ℕ
  pub token : Address
  pub balance_slot : U256

pub record ExitBindingV5 : Type 0 where
  pub queue_contract : Address
  pub count_slot : U256
  pub records_base_slot : U256
  pub assets : List ExitAssetBindingV5
  pub fallback_recipient : Address

pub record ExecutionPolicyV5 : Type 0 where
  pub state_commitment : ℕ
  pub max_blocks_per_batch : ℕ
  pub max_transactions_per_block : ℕ
  pub max_gas_per_block : ℕ
  pub max_memory_bytes : ℕ
  pub allow_contract_creation : Bool
  pub allow_self_destruct : Bool
  pub code : List CodeCommitmentV5
  pub calls : List CallRuleV5
  pub storage : List StorageNamespaceV5
  pub imports : List CertifiedImportBindingV5
  pub participant_registry : Option ParticipantRegistryBindingV5
  pub exit : Option ExitBindingV5
