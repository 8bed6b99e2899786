-- ===== src/StfTypes/V5/Input.antt =====
-- The complete private input of a batch, from zkvm/crates/stf-types/src/v5/types.rs.
use zkdeal_prover.Prelude.{ℕ, Option, List}
use zkdeal_prover.StfTypes.Scalars.{Bytes}
use zkdeal_prover.StfTypes.Compact.{CompactStateWitnessV4}
use zkdeal_prover.StfTypes.V5.Policy.{ExecutionPolicyV5}
use zkdeal_prover.StfTypes.V5.Witness.{
  BatchBlockV5, RosterMemberV5, RosterChangeV5, AdmissionRecordV5, ForcedTransactionV5,
  AssetLiabilityV5, DepositV5, WithdrawalV5, L1ImportWitnessV5,
}
use zkdeal_prover.StfTypes.V5.Journal.{BatchJournalV5}

pub record BatchInputV5 : Type 0 where
  pub encoded_witness_bytes : ℕ
  pub l1_chain_id : ℕ
  pub journal : BatchJournalV5
  pub policy : ExecutionPolicyV5
  pub roster_capacity : ℕ
  pub pre_roster : List RosterMemberV5
  pub post_roster : List RosterMemberV5
  pub roster_changes : List RosterChangeV5
  pub admissions : List AdmissionRecordV5
  pub forced_transactions : List ForcedTransactionV5
  pub canonical_batch_data : Bytes
  pub pre_liabilities : List AssetLiabilityV5
  pub post_liabilities : List AssetLiabilityV5
  pub deposits : List DepositV5
  pub withdrawals : List WithdrawalV5
  pub withdrawal_capacity : ℕ
  pub l1_import : Option L1ImportWitnessV5
  pub compact_state : CompactStateWitnessV4
  pub blocks : List BatchBlockV5
