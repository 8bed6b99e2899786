-- ===== src/StfTypes/V5/Witness.antt =====
-- The witness records of a batch, from zkvm/crates/stf-types/src/v5/types.rs.
use zkdeal_prover.Prelude.{ℕ, Bool, List}
use zkdeal_prover.StfTypes.Scalars.{Address, B256, U256, Bytes}
use zkdeal_prover.StfTypes.Block.{BlockEnvV1, HistoricalBlockHash}

pub record BatchBlockV5 : Type 0 where
  pub block_number : ℕ
  pub raw_txs : List Bytes
  pub env : BlockEnvV1
  pub block_hashes : List HistoricalBlockHash
  pub expected_post_state_root : B256

pub record RosterMemberV5 : Type 0 where
  pub index : ℕ
  pub member : Address
  pub joined_epoch : ℕ

pub record RosterChangeV5 : Type 0 where
  pub action : ℕ
  pub request_id : ℕ
  pub index : ℕ
  pub joined_epoch : ℕ
  pub deadline : ℕ
  pub member : Address
  pub withdrawal_commitment : B256

pub record AdmissionReceiptV5 : Type 0 where
  pub admission_id : ℕ
  pub transaction_hash : B256
  pub deposit_inbox_id : ℕ
  pub deposit_content_hash : B256
  pub deadline_block : ℕ
  pub maximum_batch_index : ℕ
  pub bond_epoch : ℕ
  pub admission_fee : U256
  pub signature : Bytes

pub record AdmissionOutcomeV5 : Type 0 where
  pub admission_id : ℕ
  pub transaction_hash : B256
  pub status : ℕ
  pub l2_block_number : ℕ
  pub transaction_index : ℕ
  pub reason_hash : B256

pub record AdmissionRecordV5 : Type 0 where
  pub receipt : AdmissionReceiptV5
  pub outcome : AdmissionOutcomeV5

pub record ForcedTransactionV5 : Type 0 where
  pub forced_id : ℕ
  pub raw_transaction : Bytes
  pub outcome : AdmissionOutcomeV5

pub record AssetLiabilityV5 : Type 0 where
  pub asset : Address
  pub pending : U256
  pub controlled : U256
  pub claimable : U256
  pub paid : U256

pub record DepositV5 : Type 0 where
  pub inbox_id : ℕ
  pub depositor : Address
  pub beneficiary : Address
  pub asset : Address
  pub amount : U256
  pub queued_at_block : ℕ
  pub consumed : Bool
  pub refunded : Bool

pub record WithdrawalV5 : Type 0 where
  pub index : ℕ
  pub roster_epoch : ℕ
  pub recipient : Address
  pub asset : Address
  pub amount : U256

pub record L1StorageSlotV5 : Type 0 where
  pub key : U256
  pub value : U256
  pub proof : List Bytes

pub record L1MirrorBindingV5 : Type 0 where
  pub source_key : U256
  pub room_contract : Address
  pub room_slot : U256

pub record L1ImportWitnessV5 : Type 0 where
  pub source_block : ℕ
  pub expiry_block : ℕ
  pub header_hash : B256
  pub state_root : B256
  pub source : Address
  pub source_nonce : ℕ
  pub source_balance : U256
  pub source_storage_root : B256
  pub source_code_hash : B256
  pub account_proof : List Bytes
  pub storage_keys_root : B256
  pub adapter_id : B256
  pub adapter_version : B256
  pub storage : List L1StorageSlotV5
  pub mirror_bindings : List L1MirrorBindingV5
