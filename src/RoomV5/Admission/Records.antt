-- ===== src/RoomV5/Admission/Records.antt =====
-- What the two loops over admissions and forced transactions establish.
use zkdeal_prover.Prelude.{
  ℕ, ◌+◌, ◌≤◌, ◌≡◌, ◌≢◌, ◌↔◌, inl, inr, false, none, some, List, [], ◌∷◌, ◌==◌, find?, All, arith,
  ok, Result-cases, Option-cases,
}
use mathlib.Core.Path.{subst}
use zkdeal_prover.Prelude.Map.{lookup}
use zkdeal_prover.StfTypes.Scalars.{Bytes}
use zkdeal_prover.StfTypes.Abi.{Keccak}
use zkdeal_prover.StfTypes.Domain.{room_chain_id_v5}
use zkdeal_prover.StfTypes.V5.{AdmissionRecordV5, ForcedTransactionV5, DepositV5, BatchInputV5}
use zkdeal_prover.StfTypes.V5.Hash.{forced_rejection_reason_hash_v5, deposit_content_hash_v5}
use zkdeal_prover.State.{StateMap, account_or_default}
use zkdeal_prover.Policy.Calls.{validate_transaction_entry}
use zkdeal_prover.TxEnv.{TxEnv, tx_env_from_raw}
use zkdeal_prover.RoomV5.Executed.{
  ExecutedBlock, IsUnexecuted, was_executed-IsUnexecuted, IsProcessed,
  validate_processed_outcome_v5-IsProcessed,
}
use zkdeal_prover.RoomV5.Admission.{
  AdmissionContext, rejection_of_tx, forced_rejection_reason_v5, deposit_differs, validate_funding,
  validate_admission, validate_admission_records, validate_rejection, validate_forced,
  validate_forced_transactions,
}

-- The transaction decodes for the room's chain, the policy admits it, and
-- its sender has the nonce and the value at the terminal state.
pub record IsExecutable (context : AdmissionContext) (raw : Bytes) (chain_id : ℕ)
    (terminal : StateMap) : Type 0 where
  pub tx : TxEnv
  pub decoded : tx_env_from_raw context.envelopes raw chain_id ≡ ok tx
  pub admitted :
      validate_transaction_entry context.is_precompile context.policy tx.caller tx.kind tx.call_data
      ≡ ok tt
  pub nonce : (account_or_default (lookup tx.caller terminal.accounts)).nonce ≡ tx.nonce
  pub balance : tx.value ≤ (account_or_default (lookup tx.caller terminal.accounts)).balance

-- No reason is derived exactly for the transactions that pass these three tests.
pub forced_rejection_reason_v5-none :
    (context : AdmissionContext) (raw : Bytes) (chain_id : ℕ) (terminal : StateMap)
    → (forced_rejection_reason_v5 context raw chain_id terminal ≡ none)
      ↔ IsExecutable context raw chain_id terminal
unfolding forced_rejection_reason_v5 rejection_of_tx
forced_rejection_reason_v5-none context raw chain_id terminal = (
  (λ h. elim (Result-cases (tx_env_from_raw context.envelopes raw chain_id)) [
    | inr (x, failed) ↦ absurd (ground arith)
    | inl (tx, decoded) ↦ record {
      tx = tx;
      decoded = decoded;
      admitted = ground arith;
      nonce = ground arith;
      balance = ground arith;
    }
  ]),
  (λ e. ground (arith, e.decoded, e.admitted, e.nonce, e.balance)),
)

next_id : (cursor offset id : ℕ) → id ≡ cursor + offset → cursor + (offset + 1) ≡ id + 1
next_id cursor offset id e = omega (arith, e)

module _ ⦃keccak : Keccak⦄ (input : BatchInputV5) (executed : List ExecutedBlock) where
  -- One admission, for the id that is due: its receipt and its outcome carry that id and one hash, the
  -- receipt reaches to this batch and its deadline, a fee comes out of a deposit, which when the batch
  -- crosses it is live and holds the fee, and the outcome is borne out; no
  -- transaction of the executed blocks has the hash of a rejected one.
  pub record IsAdmitted (id : ℕ) (admission : AdmissionRecordV5) : Type 0 where
    pub receipt : admission.receipt.admission_id ≡ id
    pub outcome : admission.outcome.admission_id ≡ id
    pub hash : admission.receipt.transaction_hash ≡ admission.outcome.transaction_hash
    pub batch : input.journal.batch_index ≤ admission.receipt.maximum_batch_index
    pub deadline : input.journal.l1_inclusion_deadline ≤ admission.receipt.deadline_block
    pub unfunded : admission.receipt.deposit_inbox_id ≡ 0 → admission.receipt.admission_fee ≡ 0
    pub funded :
        (deposit : DepositV5)
        → admission.receipt.deposit_inbox_id ≢ 0
        → find? (λ (d : DepositV5). d.inbox_id == admission.receipt.deposit_inbox_id) input.deposits
          ≡ some deposit
        → (deposit.refunded ≡ false)
          × (deposit_content_hash_v5 deposit ≡ admission.receipt.deposit_content_hash)
          × (admission.receipt.admission_fee ≤ deposit.amount)
    pub unexecuted :
        admission.outcome.status ≡ 2 → IsUnexecuted executed admission.outcome.transaction_hash
    pub processed :
        IsProcessed executed admission.outcome.transaction_hash admission.outcome.status
          admission.outcome.l2_block_number admission.outcome.transaction_index
          admission.outcome.reason_hash

  validate_admission-IsAdmitted :
      (id : ℕ) (admission : AdmissionRecordV5)
      → validate_admission input executed id admission ≡ ok tt
      → IsAdmitted id admission
  unfolding validate_admission validate_funding deposit_differs
  validate_admission-IsAdmitted id admission h = record {
    receipt = ground arith;
    outcome = ground arith;
    hash = ground arith;
    batch = ground arith;
    deadline = ground arith;
    unfunded = λ e. ground arith;
    funded = λ deposit ne found. ground arith;
    unexecuted =
        λ e. was_executed-IsUnexecuted executed admission.outcome.transaction_hash (ground arith);
    processed =
        validate_processed_outcome_v5-IsProcessed executed admission.outcome.transaction_hash
          admission.outcome.status admission.outcome.l2_block_number
          admission.outcome.transaction_index admission.outcome.reason_hash (ground arith);
  }

  -- The admissions carry the ids behind `id`, one after the other.
  abbrev pub AreAdmitted : ℕ → List AdmissionRecordV5 → Type 0
  AreAdmitted id [] = Unit
  AreAdmitted id (admission ∷ admissions) =
      IsAdmitted (id + 1) admission × AreAdmitted (id + 1) admissions

  pub validate_admission_records-AreAdmitted :
      (offset : ℕ) (admissions : List AdmissionRecordV5)
      → validate_admission_records input executed offset admissions ≡ ok tt
      → (id : ℕ) → id ≡ input.journal.admission_cursor_before + offset
      → AreAdmitted id admissions
  unfolding validate_admission_records
  validate_admission_records-AreAdmitted offset [] h id e = tt
  validate_admission_records-AreAdmitted offset (admission ∷ admissions) h id e = (
    validate_admission-IsAdmitted (id + 1) admission (
        subst (λ (n : ℕ). validate_admission input executed n admission ≡ ok tt)
          (next_id input.journal.admission_cursor_before offset id e) (ground arith)),
    validate_admission_records-AreAdmitted (offset + 1) admissions (ground arith) (id + 1)
        (omega arith),
  )

  module _ (context : AdmissionContext) (terminal : StateMap) where
    -- One forced transaction, for the id that is due: the outcome carries that id and the hash of the
    -- bytes that L1 accepted and is borne out. A rejected one has a reason, derived from the bytes and
    -- the terminal state, whose commitment the outcome carries.
    pub record IsForced (id : ℕ) (forced : ForcedTransactionV5) : Type 0 where
      pub forced_id : forced.forced_id ≡ id
      pub outcome : forced.outcome.admission_id ≡ id
      pub hash : forced.outcome.transaction_hash ≡ keccak.keccak256 forced.raw_transaction
      pub rejected :
          forced.outcome.status ≡ 2
          → (reason : ℕ) × (forced_rejection_reason_v5 context forced.raw_transaction
                (room_chain_id_v5 input.journal.deployment_domain input.journal.room_id)
                terminal
              ≡ some reason)
            × (forced.outcome.reason_hash
                ≡ forced_rejection_reason_hash_v5 (keccak.keccak256 forced.raw_transaction) reason)
      pub processed :
          IsProcessed executed
            (keccak.keccak256 forced.raw_transaction)
            forced.outcome.status
            forced.outcome.l2_block_number
            forced.outcome.transaction_index
            forced.outcome.reason_hash

    validate_forced-IsForced :
        (id : ℕ) (forced : ForcedTransactionV5)
        → validate_forced context input executed terminal id forced ≡ ok tt
        → IsForced id forced
    unfolding validate_forced validate_rejection
    validate_forced-IsForced id forced h = record {
      forced_id = ground arith;
      outcome = ground arith;
      hash = ground arith;
      rejected = λ e.
          elim (Option-cases (
            forced_rejection_reason_v5 context forced.raw_transaction
              (room_chain_id_v5 input.journal.deployment_domain input.journal.room_id) terminal)) [
                | inl absent ↦ absurd (ground arith)
                | inr (reason, derived) ↦ (reason, derived, ground arith)
              ];
      processed =
          validate_processed_outcome_v5-IsProcessed executed
            (keccak.keccak256 forced.raw_transaction) forced.outcome.status
            forced.outcome.l2_block_number forced.outcome.transaction_index
            forced.outcome.reason_hash (ground arith);
    }

    -- The forced transactions carry the ids behind `id`, one after the other.
    abbrev pub AreForced : ℕ → List ForcedTransactionV5 → Type 0
    AreForced id [] = Unit
    AreForced id (forced ∷ rest) = IsForced (id + 1) forced × AreForced (id + 1) rest

    pub validate_forced_transactions-AreForced :
        (offset : ℕ) (all : List ForcedTransactionV5)
        → validate_forced_transactions context input executed terminal offset all ≡ ok tt
        → (id : ℕ) → id ≡ input.journal.forced_cursor_before + offset
        → AreForced id all
    unfolding validate_forced_transactions
    validate_forced_transactions-AreForced offset [] h id e = tt
    validate_forced_transactions-AreForced offset (forced ∷ rest) h id e = (
      validate_forced-IsForced (id + 1) forced (
          subst (λ (n : ℕ). validate_forced context input executed terminal n forced ≡ ok tt)
            (next_id input.journal.forced_cursor_before offset id e) (ground arith)),
      validate_forced_transactions-AreForced (offset + 1) rest (ground arith) (id + 1)
          (omega arith),
    )

    -- A reason was derived, so one of the three tests fails.
    pub unexecutable :
        (id : ℕ) (all : List ForcedTransactionV5)
        → AreForced id all
        → All
            (λ (forced : ForcedTransactionV5).
              forced.outcome.status ≡ 2
              → ¬ IsExecutable context forced.raw_transaction
                  (room_chain_id_v5 input.journal.deployment_domain input.journal.room_id)
                  terminal)
            all
    unexecutable id [] h = tt
    unexecutable id (forced ∷ rest) h = (
      (λ status executable.
          let (reason, derived, committed) = h.0.rejected status in
          let nothing =
            (forced_rejection_reason_v5-none context forced.raw_transaction
                (room_chain_id_v5 input.journal.deployment_domain input.journal.room_id) terminal).1
              executable in
          absurd (ground (arith, derived, nothing))),
      unexecutable (id + 1) rest h.1,
    )
