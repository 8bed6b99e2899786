-- ===== src/StfError.antt =====
-- The failures of the state-transition function: zkvm/crates/stf-core/src/error.rs. A text that an error
-- carries is the refusal that it reports.
use zkdeal_prover.Prelude.{ℕ}
use zkdeal_prover.StfTypes.Scalars.{B256}
use zkdeal_prover.State.{StfDbError}
use zkdeal_prover.State.Install.{InstallRefusal}
use zkdeal_prover.TxEnv.{TxRefusal}
use zkdeal_prover.Compact.{CompactRefusal}
use zkdeal_prover.Policy.{PolicyRefusal}
use zkdeal_prover.RoomV5.Refusal.{Refusal}

pub data StfError : Type 0 where
  -- PreRootMismatch, with the expected and the computed root
  pre_root_mismatch : B256 → B256 → StfError
  -- TxDecode: of a room's transactions, and of a list that was decoded before
  tx_decode : TxRefusal → StfError
  predecoded_length predecoded_exhausted : StfError
  -- what `tx_env_from_raw` reports
  tx_refused : TxRefusal → StfError
  -- TxExecution: revm refuses, or an access is outside of the envelope
  tx_execution : StfError
  access_outside : StfDbError → StfError
  -- BlockHashHistory
  block_hash_history : InstallRefusal → StfError
  -- BlockGasLimit, with what is used and the limit
  block_gas_limit : ℕ → ℕ → StfError
  -- CompactWitness
  compact_witness : CompactRefusal → StfError
  -- CertifiedPolicy: a refusal of the policy, and of the prepared code
  certified_policy : PolicyRefusal → StfError
  prepared_code_refused : InstallRefusal → StfError
  -- LongLivedRoom
  long_lived_room : Refusal → StfError
