-- ===== src/RoomV5/Batch/Transition.antt =====
-- The transition that an accepted batch proves.
use mathlib.Core.Path.{subst}
use zkdeal_prover.Prelude.{
  ℕ, ◌+◌, ◌-◌, ◌≡◌, ◌≢◌, refl, sym, ap, ◌∙◌, true, not, none, some, List, [], ◌∷◌, is_empty, length,
  All, arith, ok, Result-cases, inl, inr,
}
use zkdeal_prover.Prelude.Map.{lookup, amount_at}
use zkdeal_prover.StfTypes.Scalars.{Address, B256, U256}
use zkdeal_prover.StfTypes.Abi.{Keccak}
use zkdeal_prover.StfTypes.Domain.{room_chain_id_v5}
use zkdeal_prover.StfTypes.V5.{BatchBlockV5, BatchInputV5, BatchJournalV5, ForcedTransactionV5}
use zkdeal_prover.State.{StateMap}
use zkdeal_prover.State.Canonical.{IsCanonical}
use zkdeal_prover.Compact.{verify_compact_state_v4}
use zkdeal_prover.Compact.Accepted.{verify_compact_state_v4-IsCanonical}
use zkdeal_prover.Policy.{is_writable}
use zkdeal_prover.Policy.Enforce.{storage_of, storage_at, initial_storage, validate_post_state}
use zkdeal_prover.Policy.Enforce.Frame.{IsPinned, validate_post_state-frames}
use zkdeal_prover.Policy.FromV5.Certified.{from_v5-Checks}
use zkdeal_prover.Block.{Machine, state_root_in_mode}
use zkdeal_prover.RoomV5.Import.{participant_state_v5}
use zkdeal_prover.RoomV5.Admission.{validate_admissions_v5}
use zkdeal_prover.RoomV5.Admission.Records.{IsExecutable}
use zkdeal_prover.RoomV5.Admission.Accepted.{validate_admissions_v5-uncensored}
use zkdeal_prover.RoomV5.Batch.{
  Opening, is_count_invalid, validate_identity, open_state, admission_context, close_batch,
  execute_batch_v5,
}
use zkdeal_prover.RoomV5.Batch.Blocks.{Progress}
use zkdeal_prover.RoomV5.Batch.Chain.{last_root, AreRoomBlocks, execute_blocks-AreRoomBlocks}
use zkdeal_prover.RoomV5.Batch.Run.{AreRun, execute_blocks-AreRun}
use zkdeal_prover.RoomV5.Executed.{ExecutedBlock}
use zkdeal_prover.RoomV5.Import.{verify_and_apply_import_v5}
use zkdeal_prover.RoomV5.Liabilities.{apply_deposit_credits_v5}
use zkdeal_prover.RoomV5.Batch.Accepted.{
  IsOpened, open_batch-IsOpened, IsRun, execute_batch_v5-IsRun,
}

last_root_any :
    (root other : B256) (blocks : List BatchBlockV5)
    → length blocks ≢ 0
    → last_root root blocks ≡ last_root other blocks
last_root_any root other [] h = absurd (h refl)
last_root_any root other (block ∷ blocks) h = refl

module _ ⦃keccak : Keccak⦄ (machine : Machine) (input : BatchInputV5) where
  open_state-rooted :
      (state : StateMap)
      → open_state machine input ≡ ok state
      → (verify_compact_state_v4 machine.trie input.compact_state ≡ ok state)
        × (state_root_in_mode machine state input.policy.state_commitment
            ≡ ok input.journal.pre_state_root)
  unfolding open_state
  open_state-rooted state h =
      elim (Result-cases (verify_compact_state_v4 machine.trie input.compact_state)) [
        | inr (refusal, failed) ↦ absurd (ground arith)
        | inl (opened, verified) ↦
            elim (Result-cases (state_root_in_mode machine opened input.policy.state_commitment)) [
              | inr (refusal, failed) ↦ absurd (ground arith)
              | inl (root, rooted) ↦ elim (Result-cases (participant_state_v5 input opened)) [
                | inr (refusal, failed) ↦ absurd (ground arith)
                | inl (participants, registry) ↦
                    let same : opened ≡ state = ground arith in
                    let names : root ≡ input.journal.pre_state_root = ground arith in
                    subst
                      (λ (s : StateMap).
                        (verify_compact_state_v4 machine.trie input.compact_state ≡ ok s)
                        × (state_root_in_mode machine s input.policy.state_commitment
                            ≡ ok input.journal.pre_state_root))
                      same (verified, rooted ∙ ap (λ (r : B256). ok r) names)
              ]
            ]
      ]

  -- The number of blocks, and the range that the journal names.
  validate_identity-range :
      validate_identity input ≡ ok tt
      → (length input.blocks ≢ 0)
        × (input.journal.end_l2_block ≡ input.journal.start_l2_block + (length input.blocks - 1))
  unfolding validate_identity is_count_invalid
  validate_identity-range h = ground arith

  close_batch-checks :
      (opening : Opening) (terminal : Progress)
      → close_batch machine input opening terminal ≡ ok tt
      → (validate_post_state opening.policy (initial_storage opening.state.accounts) terminal.state
          ≡ ok tt)
        × (terminal.root ≡ input.journal.post_state_root)
        × (validate_admissions_v5
              (admission_context machine opening.policy)
              input
              terminal.executed
              terminal.state
            ≡ ok tt)
  unfolding close_batch
  close_batch-checks opening terminal h =
      elim (Result-cases (participant_state_v5 input terminal.state)) [
        | inr (refusal, failed) ↦ absurd (ground arith)
        | inl (participants, registry) ↦
            (ground (arith, registry), ground (arith, registry), ground (arith, registry))
      ]

  module _ (journal : BatchJournalV5) (accepted : execute_batch_v5 machine input ≡ ok journal) where
    pub execute_batch_v5-proves :
        (opening : Opening) × (opens : IsOpened machine input opening) × (executed : List
          ExecutedBlock)
        × (terminal : StateMap) × (verify_compact_state_v4 machine.trie input.compact_state
            ≡ ok opens.opened)
        × IsCanonical opens.opened
        × (state_root_in_mode machine opens.opened input.policy.state_commitment
            ≡ ok input.journal.pre_state_root)
        × (verify_and_apply_import_v5 machine.trie input opens.opened ≡ ok opens.imported)
        × (apply_deposit_credits_v5 input opens.imported ≡ ok opens.credited)
        × (opening.state.accounts ≡ opens.credited.accounts)
        × AreRun machine input opening.policy input.blocks opening.decoded opening.state executed
            terminal
        × (state_root_in_mode machine terminal input.policy.state_commitment
            ≡ ok input.journal.post_state_root)
        × (last_root input.journal.pre_state_root input.blocks ≡ input.journal.post_state_root)
        × AreRoomBlocks input input.journal.start_l2_block none input.blocks
        × (input.journal.end_l2_block + 1 ≡ input.journal.start_l2_block + length input.blocks)
    execute_batch_v5-proves =
        let (opening, terminal, run) = execute_batch_v5-IsRun machine input journal accepted in
        let opens = open_batch-IsOpened machine input opening run.begins in
        let rooted = open_state-rooted opens.opened opens.opens in
        let closed = close_batch-checks opening terminal run.closes in
        let range = validate_identity-range run.identity in
        let chain =
          execute_blocks-AreRoomBlocks machine input opening.policy 0 input.blocks opening.decoded
            (record {
              state = opening.state;
              root = run.root;
              previous_timestamp = none;
              executed = [];
            })
            terminal run.runs run.rooted in
        let blocks_run =
          execute_blocks-AreRun machine input opening.policy 0 input.blocks opening.decoded
            (record {
              state = opening.state;
              root = run.root;
              previous_timestamp = none;
              executed = [];
            })
            terminal run.runs in
        let start : input.journal.start_l2_block + 0 ≡ input.journal.start_l2_block = omega arith in
        (
          opening,
          opens,
          blocks_run.0,
          terminal.state,
          rooted.0,
          verify_compact_state_v4-IsCanonical machine.trie input.compact_state opens.opened
              rooted.0,
          rooted.1,
          opens.imports,
          opens.credits,
          opens.accounts,
          blocks_run.2,
          chain.2 ∙ ap (λ (r : B256). ok r) closed.1,
          last_root_any input.journal.pre_state_root run.root input.blocks range.0
              ∙ sym chain.1
              ∙ closed.1,
          subst (λ (n : ℕ). AreRoomBlocks input n none input.blocks) start chain.0,
          omega (arith, range.0, range.1),
        )

    -- The blocks of an accepted batch keep to the certified policy: in the terminal state every pinned
    -- address has the code that is pinned for it, and a storage word that differs from the one before
    -- the first block lies in a writable namespace of its contract.
    pub execute_batch_v5-frames :
        (opening : Opening) × (terminal : Progress) × IsRun machine input opening terminal
        × ((a : Address) (hash : B256)
            → lookup a opening.policy.code_hashes ≡ some hash
            → IsPinned terminal.state a hash)
        × ((a : Address) (s : U256)
            → amount_at s (storage_at (lookup a (initial_storage opening.state.accounts)))
              ≢ amount_at s (storage_of (lookup a terminal.state.accounts))
            → is_writable opening.policy.storage_namespaces a s ≡ true)
    execute_batch_v5-frames =
        let (opening, terminal, run) = execute_batch_v5-IsRun machine input journal accepted in
        let opens = open_batch-IsOpened machine input opening run.begins in
        let checks =
          from_v5-Checks input.policy input.journal.policy_hash opens.authenticated.1 opens.credited
            (not (is_empty input.roster_changes)) opening.policy opens.policy in
        let frames =
          validate_post_state-frames opening.policy (initial_storage opening.state.accounts)
            terminal.state checks.1 (close_batch-checks opening terminal run.closes).0 in
        (opening, terminal, run, frames.0, frames.1)

    -- In a validity-only room an accepted batch censors no forced transaction: none that counts as
    -- rejected decodes for the room's chain, passes the policy, and has a sender with its nonce and
    -- its value in the state that the batch ends in.
    pub execute_batch_v5-uncensored :
        input.journal.authorization_mode ≡ 1
        → (opening : Opening) × (terminal : Progress) × IsRun machine input opening terminal
          × All
              (λ (forced : ForcedTransactionV5).
                forced.outcome.status ≡ 2
                → ¬ IsExecutable
                    (admission_context machine opening.policy)
                    forced.raw_transaction
                    (room_chain_id_v5 input.journal.deployment_domain input.journal.room_id)
                    terminal.state)
              input.forced_transactions
    execute_batch_v5-uncensored mode =
        let (opening, terminal, run) = execute_batch_v5-IsRun machine input journal accepted in
        (
          opening,
          terminal,
          run,
          validate_admissions_v5-uncensored input terminal.executed
              (admission_context machine opening.policy) terminal.state
              (close_batch-checks opening terminal run.closes).2 mode,
        )
