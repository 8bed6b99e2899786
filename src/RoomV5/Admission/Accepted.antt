-- ===== src/RoomV5/Admission/Accepted.antt =====
-- What the admission data of an accepted batch establishes.
use zkdeal_prover.Prelude.{◌+◌, ◌≡◌, List, [], length, All, arith, ok}
use zkdeal_prover.StfTypes.Abi.{Keccak}
use zkdeal_prover.StfTypes.Domain.{room_chain_id_v5}
use zkdeal_prover.StfTypes.V5.{ForcedTransactionV5, BatchInputV5}
use zkdeal_prover.State.{StateMap}
use zkdeal_prover.RoomV5.Executed.{ExecutedBlock}
use zkdeal_prover.RoomV5.Admission.{
  AdmissionContext, validate_operator_data, validate_admissions_v5,
}
use zkdeal_prover.RoomV5.Admission.Records.{
  IsExecutable, AreAdmitted, AreForced, validate_admission_records-AreAdmitted,
  validate_forced_transactions-AreForced, unexecutable,
}

module _ ⦃keccak : Keccak⦄ (input : BatchInputV5) (executed : List ExecutedBlock)
    (context : AdmissionContext) (terminal : StateMap)
    (valid : validate_admissions_v5 context input executed terminal ≡ ok tt) where
  -- The admission and the forced cursor of an accepted batch move by the number of records that it
  -- carries, and a unanimous room carries none.
  pub validate_admissions_v5-cursors :
      (input.journal.admission_cursor_after
        ≡ input.journal.admission_cursor_before + length input.admissions)
      × (input.journal.forced_cursor_after
          ≡ input.journal.forced_cursor_before + length input.forced_transactions)
      × (input.journal.authorization_mode ≡ 0
          → (input.admissions ≡ [])
            × (input.forced_transactions ≡ [])
            × (input.canonical_batch_data ≡ []))
  unfolding validate_admissions_v5
  validate_admissions_v5-cursors = (ground arith, ground arith, (λ mode. ground arith))

  module _ (mode : input.journal.authorization_mode ≡ 1) where
    operator_data_valid : validate_operator_data context input executed terminal ≡ ok tt
    unfolding validate_admissions_v5
    operator_data_valid = ground arith

    -- In a validity-only room every admission of an accepted batch is in order: its receipt and its
    -- outcome carry the id that is due and one transaction hash, the receipt reaches to this batch
    -- and to its deadline, an unfunded one charges no fee, a fee out of a deposit that the batch
    -- crosses fits in it and the deposit is no refund and has the content that was signed for, and
    -- the outcome is the one of the execution; no transaction of the executed blocks has the hash of
    -- one that counts as rejected.
    pub validate_admissions_v5-admits :
        AreAdmitted input executed input.journal.admission_cursor_before input.admissions
    unfolding validate_operator_data
    validate_admissions_v5-admits =
        validate_admission_records-AreAdmitted input executed 0 input.admissions
          (ground (arith, operator_data_valid)) input.journal.admission_cursor_before (omega arith)

    -- In a validity-only room every forced transaction of an accepted batch is in order: its outcome
    -- carries the id that is due and the hash of its bytes, and is the one of the execution; a
    -- rejected one has a reason that its bytes and the terminal state give, and carries the
    -- commitment to that reason.
    pub validate_admissions_v5-forces :
        AreForced input executed context terminal input.journal.forced_cursor_before
          input.forced_transactions
    unfolding validate_operator_data
    validate_admissions_v5-forces =
        validate_forced_transactions-AreForced input executed context terminal 0
          input.forced_transactions (ground (arith, operator_data_valid))
          input.journal.forced_cursor_before (omega arith)

    -- In a validity-only room an accepted batch censors no forced transaction: none that counts as
    -- rejected decodes for the room's chain, passes the policy, and has a sender with its nonce and
    -- its value in the terminal state.
    pub validate_admissions_v5-uncensored :
        All
          (λ (forced : ForcedTransactionV5).
            forced.outcome.status ≡ 2
            → ¬ IsExecutable context forced.raw_transaction
                (room_chain_id_v5 input.journal.deployment_domain input.journal.room_id)
                terminal)
          input.forced_transactions
    validate_admissions_v5-uncensored =
        unexecutable input executed context terminal input.journal.forced_cursor_before
          input.forced_transactions validate_admissions_v5-forces
