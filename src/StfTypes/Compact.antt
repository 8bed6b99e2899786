-- ===== src/StfTypes/Compact.antt =====
-- The compact state witness of zkvm/crates/stf-types/src/v4/types.rs.
use zkdeal_prover.Prelude.{ℕ, Bool, List}
use zkdeal_prover.StfTypes.Scalars.{Address, B256, U256, Bytes}

pub record CompactStorageWitnessV4 : Type 0 where
  pub slot : U256
  pub value : U256
  pub proof : List Bytes

pub record CompactAccountWitnessV4 : Type 0 where
  pub address : Address
  pub exists : Bool
  pub nonce : ℕ
  pub balance : U256
  pub code : Bytes
  pub canonical_storage_root : B256
  pub account_proof : List Bytes
  pub storage : List CompactStorageWitnessV4

pub record CompactStateWitnessV4 : Type 0 where
  pub canonical_state_root : B256
  pub accounts : List CompactAccountWitnessV4
