-- ===== src/RoomV5/Executed.antt =====
-- The outcomes of the executed blocks: `validate_processed_outcome_v5` of
-- zkvm/crates/stf-core/src/room_v5/admission.rs, TransactionOutcome of stf-core/src/report.rs.
use zkdeal_prover.Prelude.{
  ℕ, ◌≤◌, ◌≡◌, ◌≢◌, ◌⊎◌, inl, inr, Bool, ◌||◌, some, List, [], ◌∷◌, All, false, ltb, ◌==◌, ◌!=◌,
  if◌then◌else◌, get_elem?, any, find?, arith, Result, ok, ◌>>=◌, ◌>>◌, reject_if, ok_or,
  Option-cases,
}
use native.Mathlib.Decide.{ℕ_discrete}
use zkdeal_prover.StfTypes.Scalars.{B256}
use zkdeal_prover.RoomV5.Refusal.{
  Refusal, rejected_outcome_invalid, processed_outcome_invalid, block_absent, transaction_absent,
  outcome_differs,
}

pub record TransactionOutcome : Type 0 where
  pub transaction_hash : B256
  pub status : ℕ

-- One executed block: its number and the outcomes of its transactions.
pub record ExecutedBlock : Type 0 where
  pub number : ℕ
  pub transactions : List TransactionOutcome

unfoldable pub validate_processed_outcome_v5 :
    List ExecutedBlock → B256 → ℕ → ℕ → ℕ → B256 → Result Refusal (Unit {0})
validate_processed_outcome_v5 blocks transaction_hash status l2_block_number transaction_index
      reason_hash =
    if status == 2
    then reject_if (l2_block_number != 0 || transaction_index != 0 || reason_hash == 0)
        rejected_outcome_invalid
    else do
      reject_if (ltb 1 status || reason_hash != 0) processed_outcome_invalid
      block ←
          ok_or (find? (λ (block : ExecutedBlock). block.number == l2_block_number) blocks)
            block_absent
      outcome ← ok_or (get_elem? block.transactions transaction_index) transaction_absent
      reject_if (outcome.transaction_hash != transaction_hash || outcome.status != status)
          outcome_differs

-- `executed.iter().any(..)`: the batch executed a transaction with this hash.
unfoldable pub was_executed : List ExecutedBlock → B256 → Bool
was_executed executed hash =
    any
      (λ (block : ExecutedBlock).
        any (λ (outcome : TransactionOutcome). outcome.transaction_hash == hash) block.transactions)
      executed

-- No transaction of any executed block has the hash.
abbrev pub IsUnexecuted : List ExecutedBlock → B256 → Type 0
IsUnexecuted executed hash =
    All
      (λ (block : ExecutedBlock).
        All (λ (outcome : TransactionOutcome). outcome.transaction_hash ≢ hash) block.transactions)
      executed

other_hashes :
    (hash : B256) (outcomes : List TransactionOutcome)
    → any (λ (outcome : TransactionOutcome). outcome.transaction_hash == hash) outcomes ≡ false
    → All (λ (outcome : TransactionOutcome). outcome.transaction_hash ≢ hash) outcomes
other_hashes hash [] h = tt
other_hashes hash (outcome ∷ outcomes) h = (ground arith, other_hashes hash outcomes (ground arith))

pub was_executed-IsUnexecuted :
    (executed : List ExecutedBlock) (hash : B256)
    → was_executed executed hash ≡ false
    → IsUnexecuted executed hash
unfolding was_executed
was_executed-IsUnexecuted [] hash h = tt
was_executed-IsUnexecuted (block ∷ executed) hash h = (
  other_hashes hash block.transactions (ground arith),
  was_executed-IsUnexecuted executed hash (ground arith),
)

-- The execution bears an outcome out: a rejected one names no place and gives a reason, and any other
-- names the block and the position where the transaction with this hash ended with this status.
abbrev pub IsProcessed : List ExecutedBlock → B256 → ℕ → ℕ → ℕ → B256 → Type 0
IsProcessed blocks hash status number index reason =
    ((status ≡ 2) × (number ≡ 0) × (index ≡ 0) × (reason ≢ 0))
    ⊎ ((status ≤ 1)
        × (reason ≡ 0)
        × ((block : ExecutedBlock) × (find? (λ (b : ExecutedBlock). b.number == number) blocks
              ≡ some block)
            × (get_elem? block.transactions index
                ≡ some (record { transaction_hash = hash; status = status }))))

pub validate_processed_outcome_v5-IsProcessed :
    (blocks : List ExecutedBlock) (hash : B256) (status number index : ℕ) (reason : B256)
    → validate_processed_outcome_v5 blocks hash status number index reason ≡ ok tt
    → IsProcessed blocks hash status number index reason
unfolding validate_processed_outcome_v5
validate_processed_outcome_v5-IsProcessed blocks hash status number index reason h =
    elim (ℕ_discrete status 2) [
      | yes rejected ↦ inl (rejected, ground arith, ground arith, ground arith)
      | no other ↦ elim (Option-cases (find? (λ (b : ExecutedBlock). b.number == number) blocks)) [
        | inl absent ↦ absurd (ground arith)
        | inr (block, named) ↦ elim (Option-cases (get_elem? block.transactions index)) [
          | inl absent ↦ absurd (ground arith)
          | inr (outcome, there) ↦
              inr (ground arith, ground arith, (block, named, ground (arith, there)))
        ]
      ]
    ]
