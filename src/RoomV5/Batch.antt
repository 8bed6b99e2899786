-- ===== src/RoomV5/Batch.antt =====
-- One batch of a room: zkvm/crates/stf-core/src/room_v5/mod.rs. The report of the proof work is left out.
pub mod Blocks
mod Tests
pub mod Chain
pub mod Run
pub mod Accepted
pub mod Transition
use zkdeal_prover.Prelude.{
  ℕ, ◌+◌, ◌-◌, Bool, true, false, not, ◌&&◌, ◌||◌, Option, none, some, List, [], ◌∷◌, ltb, ◌==◌,
  ◌!=◌, if◌then◌else◌, is_empty, length, replicate, set_insert, Result, ok, err, map_err, ◌>>=◌,
  ◌>>◌, reject_if, ok_or,
}
use zkdeal_prover.Words.{checked_add_u64, from_be_bytes}
use zkdeal_prover.StfTypes.Scalars.{Address, B256, Bytes}
use zkdeal_prover.StfTypes.Limits.{batch_journal_version_v6, max_batch_witness_bytes_v4}
use zkdeal_prover.StfTypes.Abi.{Keccak}
use zkdeal_prover.StfTypes.BatchData.{batch_block_data_hash_v5}
use zkdeal_prover.StfTypes.Domain.{room_chain_id_v5}
use zkdeal_prover.StfTypes.V5.{
  BatchBlockV5, BatchJournalV5, BatchInputV5, ExecutionPolicyV5, ExitBindingV5,
}
use zkdeal_prover.StfTypes.V5.ColdTemplate.{
  ColdTemplateInputV5, cold_template_id_v5, cold_template_statement_v6,
}
use zkdeal_prover.State.{StateMap}
use zkdeal_prover.State.Install.{install_prepared_runtime_code}
use zkdeal_prover.Compact.{verify_compact_state_v4}
use zkdeal_prover.Policy.{ExecutionPolicyV4}
use zkdeal_prover.Policy.Enforce.{initial_storage, validate_post_state}
use zkdeal_prover.Policy.FromV5.{from_v5}
use zkdeal_prover.TxEnv.{TxEnv, tx_env_from_raw}
use zkdeal_prover.Block.{Machine, state_root_in_mode}
use zkdeal_prover.StfError.{
  StfError, pre_root_mismatch, tx_decode, compact_witness, certified_policy, prepared_code_refused,
  long_lived_room,
}
use zkdeal_prover.RoomV5.Refusal.{
  Refusal, template_identity_invalid, template_state_incomplete, batch_identity_invalid,
  cold_template_differs, block_count_invalid, block_range_overflow, block_range_differs,
  incomplete_prestate, opening_registry_differs, no_signed_caller, terminal_state_differs,
  closing_registry_differs,
}
use zkdeal_prover.RoomV5.Liabilities.{apply_deposit_credits_v5, validate_liabilities_v5}
use zkdeal_prover.RoomV5.Roster.{validate_roster_transition_v5}
use zkdeal_prover.RoomV5.Import.{ParticipantState, participant_state_v5, verify_and_apply_import_v5}
use zkdeal_prover.RoomV5.Exit.{exit_record_count_v5}
use zkdeal_prover.RoomV5.Exit.Allocation.{validate_exit_v5}
use zkdeal_prover.RoomV5.Admission.{
  AdmissionContext, forced_rejection_reason_v5, validate_admissions_v5,
}
use Blocks.{Progress, execute_blocks}

-- The public fields that a batch must set.
unfoldable pub is_identity_invalid : BatchJournalV5 → Bool
is_identity_invalid journal =
    journal.protocol_version != batch_journal_version_v6
    || journal.deployment_domain == 0
    || journal.room_id == 0
    || ltb 1 journal.authorization_mode
    || journal.cold_template_id == 0
    || journal.proof_program_id == 0
    || journal.proof_system_version == 0
    || journal.policy_hash == 0
    || journal.batch_index == 0
    || journal.l1_inclusion_deadline == 0

unfoldable pub is_count_invalid : BatchInputV5 → Bool
is_count_invalid input =
    length input.blocks == 0
    || ltb input.policy.max_blocks_per_batch (length input.blocks)
    || length input.blocks == 1 && not input.journal.close
    || ltb max_batch_witness_bytes_v4 input.encoded_witness_bytes

-- The comparison of a registry with four public fields.
unfoldable pub is_registry : ParticipantState → B256 → ℕ → ℕ → ℕ → Bool
is_registry participants root epoch count capacity =
    participants.root == root
    && participants.epoch == epoch
    && participants.count == count
    && participants.capacity == capacity

-- The cursor of the exit queue, in a validity-only room with an exit binding.
unfoldable pub pre_exit_cursor : BatchJournalV5 → Option ExitBindingV5 → StateMap → Result Refusal ℕ
pre_exit_cursor journal none state = ok 0
pre_exit_cursor journal (some binding) state =
    if journal.authorization_mode == 1 then exit_record_count_v5 binding state else ok 0

module _ ⦃keccak : Keccak⦄ where
  -- The checks on the public fields alone.
  unfoldable pub validate_identity : BatchInputV5 → Result StfError (Unit {0})
  unfolding is_identity_invalid is_count_invalid
  validate_identity input = do
    let journal = input.journal
    reject_if (is_identity_invalid journal) (long_lived_room batch_identity_invalid)
    reject_if
        (journal.batch_index == 1
          && cold_template_id_v5 journal.pre_state_root journal.policy_hash
              journal.proof_system_version
            != journal.cold_template_id)
        (long_lived_room cold_template_differs)
    reject_if (is_count_invalid input) (long_lived_room block_count_invalid)
    end' ←
        ok_or (checked_add_u64 journal.start_l2_block (length input.blocks - 1))
          (long_lived_room block_range_overflow)
    reject_if (journal.end_l2_block != end') (long_lived_room block_range_differs)

  -- The identity of a template.
  unfoldable pub is_template_invalid : ColdTemplateInputV5 → B256 → Bool
  is_template_invalid input genesis_data_hash =
      input.initial_state_root == 0
      || input.policy_hash == 0
      || input.proof_program_id == 0
      || input.proof_system_version == 0
      || genesis_data_hash == 0
      || cold_template_id_v5 input.initial_state_root input.policy_hash input.proof_system_version
        != input.template_id

-- What a batch has when its first block starts: the state with the imports, the deposits and the
-- prepared code; the policy that is resolved against it; the decoded transactions; and the cursor of
-- the exit queue.
pub record Opening : Type 0 where
  pub state : StateMap
  pub policy : ExecutionPolicyV4
  pub decoded : List (List TxEnv)
  pub pre_exit_count : ℕ

module _ ⦃keccak : Keccak⦄ (machine : Machine) where
  -- The loop over the transactions of a block, with the callers so far.
  unfoldable pub decode_txs :
      ℕ → List Bytes → List Address → Result StfError (List TxEnv × List Address)
  decode_txs chain_id [] callers = ok ([], callers)
  decode_txs chain_id (raw ∷ raw_txs) callers = do
    tx_env ← map_err tx_decode (tx_env_from_raw machine.envelopes raw chain_id)
    rest ← decode_txs chain_id raw_txs (set_insert tx_env.caller callers)
    ok (tx_env ∷ rest.0, rest.1)

  unfoldable pub decode_blocks :
      List BatchBlockV5 → List Address → Result StfError (List (List TxEnv) × List Address)
  unfolding decode_txs
  decode_blocks [] callers = ok ([], callers)
  decode_blocks (block ∷ blocks) callers = do
    decoded ← decode_txs block.env.chain_id block.raw_txs callers
    rest ← decode_blocks blocks decoded.1
    ok (decoded.0 ∷ rest.0, rest.1)

  -- In a validity-only room every transaction is decoded here, and its caller may act.
  unfoldable pub authenticate :
      BatchInputV5 → List Address → Result StfError (List (List TxEnv) × List Address)
  unfolding decode_blocks
  authenticate input callers =
      if input.journal.authorization_mode != 1 then ok ([], callers) else do
        decoded ← decode_blocks input.blocks callers
        reject_if (is_empty decoded.1) (long_lived_room no_signed_caller)
        ok decoded

  -- The complete state that the witness gives, with the root that is expected.
  unfoldable pub open_state : BatchInputV5 → Result StfError StateMap
  unfolding is_registry
  open_state input = do
    let journal = input.journal
    reject_if (input.compact_state.canonical_state_root != 0) (long_lived_room incomplete_prestate)
    state ← map_err compact_witness (verify_compact_state_v4 machine.trie input.compact_state)
    opening_root ← state_root_in_mode machine state input.policy.state_commitment
    reject_if (opening_root != journal.pre_state_root)
        (pre_root_mismatch journal.pre_state_root opening_root)
    participants ← map_err long_lived_room (participant_state_v5 input state)
    reject_if
        (not (
          is_registry participants journal.pre_participant_root journal.pre_participant_epoch
            journal.pre_participant_count journal.participant_capacity))
        (long_lived_room opening_registry_differs)
    ok state

  unfoldable pub open_batch : BatchInputV5 → Result StfError Opening
  unfolding open_state pre_exit_cursor authenticate
  open_batch input = do
    callers ← map_err long_lived_room (validate_roster_transition_v5 input)
    map_err long_lived_room (validate_liabilities_v5 input)
    opened ← open_state input
    imported ← map_err long_lived_room (verify_and_apply_import_v5 machine.trie input opened)
    pre_exit_count ←
        map_err long_lived_room (pre_exit_cursor input.journal input.policy.exit imported)
    credited ← map_err long_lived_room (apply_deposit_credits_v5 input imported)
    authenticated ← authenticate input callers
    policy ← map_err certified_policy (
        from_v5 input.policy input.journal.policy_hash authenticated.1 credited
          (not (is_empty input.roster_changes)))
    prepared ←
        map_err prepared_code_refused
          (install_prepared_runtime_code machine.bytecodes credited policy.code_hashes)
    ok (record {
      state = prepared.0;
      policy = policy;
      decoded = authenticated.0;
      pre_exit_count = pre_exit_count;
    })

  abbrev admission_context : ExecutionPolicyV4 → AdmissionContext
  admission_context policy = record {
    policy = policy;
    envelopes = machine.envelopes;
    rlp = machine.rlp;
    is_precompile = machine.is_precompile;
  }

  -- The checks on the terminal state.
  unfoldable pub close_batch : BatchInputV5 → Opening → Progress → Result StfError (Unit {0})
  unfolding is_registry
  close_batch input opening progress = do
    let journal = input.journal
    let terminal = progress.state
    map_err certified_policy
        (validate_post_state opening.policy (initial_storage opening.state.accounts) terminal)
    reject_if
        (progress.root != journal.post_state_root
          || batch_block_data_hash_v5 machine.rlp input.blocks journal.pre_state_root
            != journal.batch_data_hash)
        (long_lived_room terminal_state_differs)
    participants ← map_err long_lived_room (participant_state_v5 input terminal)
    reject_if
        (not (
          is_registry participants journal.post_participant_root journal.post_participant_epoch
            journal.post_participant_count journal.participant_capacity))
        (long_lived_room closing_registry_differs)
    map_err long_lived_room
        (validate_admissions_v5 (admission_context opening.policy) input progress.executed terminal)
    map_err long_lived_room (validate_exit_v5 input opening.pre_exit_count terminal)

  unfoldable pub execute_batch_v5 : BatchInputV5 → Result StfError BatchJournalV5
  unfolding validate_identity open_batch close_batch
  execute_batch_v5 input = do
    validate_identity input
    opening ← open_batch input
    root ← state_root_in_mode machine opening.state input.policy.state_commitment
    terminal ←
        execute_blocks machine input opening.policy 0 input.blocks opening.decoded
          (record { state = opening.state; root = root; previous_timestamp = none; executed = [] })
    close_batch input opening terminal
    ok input.journal

  -- The registration of a template; its policy is resolved for one synthetic member, the address of
  -- twenty bytes 1.
  unfoldable pub execute_cold_template_v5 : ColdTemplateInputV5 → B256 → Result StfError B256
  unfolding is_template_invalid
  execute_cold_template_v5 input genesis_data_hash = do
    reject_if (is_template_invalid input genesis_data_hash)
        (long_lived_room template_identity_invalid)
    reject_if (input.compact_state.canonical_state_root != 0)
        (long_lived_room template_state_incomplete)
    state ← map_err compact_witness (verify_compact_state_v4 machine.trie input.compact_state)
    initial_root ← state_root_in_mode machine state input.policy.state_commitment
    reject_if (initial_root != input.initial_state_root)
        (pre_root_mismatch input.initial_state_root initial_root)
    map_err certified_policy (
        from_v5 input.policy input.policy_hash (from_be_bytes 0 (replicate 20 1) ∷ []) state false
        >>= λ resolved. ok tt)
    ok (cold_template_statement_v6 input genesis_data_hash)

  -- The reason why a forced transaction could not be part of a batch, for the composer of one.
  unfoldable pub derive_forced_rejection_reason_v5 :
      Bytes
      → B256
      → ℕ
      → ExecutionPolicyV5
      → B256
      → List Address
      → StateMap
      → Result StfError (Option ℕ)
  derive_forced_rejection_reason_v5 raw deployment_domain room_id policy policy_hash active_members
        terminal =
      do
        resolved ←
            map_err certified_policy (from_v5 policy policy_hash active_members terminal false)
        ok (
            forced_rejection_reason_v5 (admission_context resolved) raw
              (room_chain_id_v5 deployment_domain room_id) terminal)
