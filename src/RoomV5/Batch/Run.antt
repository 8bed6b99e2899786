-- ===== src/RoomV5/Batch/Run.antt =====
-- The blocks of a batch run one after the other: each on the state that the one before ends in.
use zkdeal_prover.Prelude.{
  ℕ, ◌+◌, ◌≡◌, ◌≤◌, ap, sym, ◌∙◌, false, Option, some, List, [], ◌∷◌, ◌++◌, arith, ok, Result-cases,
  inl, inr,
}
use mathlib.Core.Path.{subst}
use mathlib.Core.List.{append_assoc, append-nil}
use zkdeal_prover.StfTypes.Scalars.{B256}
use zkdeal_prover.StfTypes.Abi.{Keccak}
use zkdeal_prover.StfTypes.V5.{BatchBlockV5, BatchInputV5}
use zkdeal_prover.State.{StateMap}
use zkdeal_prover.Policy.{ExecutionPolicyV4}
use zkdeal_prover.TxEnv.{TxEnv}
use zkdeal_prover.Block.{Machine, BlockOutcome, state_root_in_mode, execute_block_on_state}
use zkdeal_prover.Block.Executed.{Executed, AreTransactions}
use zkdeal_prover.Block.Accepted.{execute_block_on_state-Executed}
use zkdeal_prover.RoomV5.Executed.{TransactionOutcome, ExecutedBlock}
use zkdeal_prover.RoomV5.Batch.Blocks.{
  Progress, first_decoded, rest_decoded, single, execute_batch_block, execute_blocks,
}

module _ ⦃keccak : Keccak⦄ (machine : Machine) (input : BatchInputV5)
    (policy : ExecutionPolicyV4) where
  -- The blocks take a state to another and report outcomes. Each is a run of its transactions, under
  -- the policy and in its own environment, on the accounts that the block before it ends in; it stays
  -- within its gas, and ends in a state with the root that the block expects.
  pub data AreRun
      : List BatchBlockV5
        → List (List TxEnv)
        → StateMap
        → List ExecutedBlock
        → StateMap
        → Type 0 where
    ended : (decoded : List (List TxEnv)) (state : StateMap) → AreRun [] decoded state [] state
    run :
        (block : BatchBlockV5) (blocks : List BatchBlockV5) (decoded : List (List TxEnv))
        (state start : StateMap) (txs : List TxEnv) (outcomes : List TransactionOutcome)
        (next : StateMap) (gas : ℕ) (executed : List ExecutedBlock) (terminal : StateMap)
        → start.accounts ≡ state.accounts
        → AreTransactions machine policy block.env (first_decoded decoded) block.raw_txs txs
        → Executed machine policy block.env block.raw_txs txs start 0 outcomes next gas
        → gas ≤ block.env.gas_limit
        → state_root_in_mode machine next input.policy.state_commitment
          ≡ ok block.expected_post_state_root
        → AreRun blocks (rest_decoded decoded) next executed terminal
        → AreRun
            (block ∷ blocks)
            decoded
            state
            (record { number = block.block_number; transactions = outcomes } ∷ executed)
            terminal

  record IsRound (offset : ℕ) (block : BatchBlockV5) (decoded : Option (List TxEnv))
      (before after : Progress) : Type 0 where
    outcome : BlockOutcome
    ran :
        execute_block_on_state machine
          (single input before.root block)
          before.state
          (some policy)
          false
          input.policy.state_commitment
          decoded
        ≡ ok outcome
    state : outcome.post_state ≡ after.state
    root : outcome.journal.post_state_root ≡ block.expected_post_state_root
    executed :
        after.executed
        ≡ before.executed
          ++ (record { number = block.block_number; transactions = outcome.transactions } ∷ [])

  execute_batch_block-IsRound :
      (offset : ℕ) (block : BatchBlockV5) (decoded : Option (List TxEnv)) (before after : Progress)
      → execute_batch_block machine input policy offset block decoded before ≡ ok after
      → IsRound offset block decoded before after
  unfolding execute_batch_block
  execute_batch_block-IsRound offset block decoded before after h =
      elim (Result-cases (
        execute_block_on_state machine (single input before.root block) before.state (some policy)
          false input.policy.state_commitment decoded)) [
            | inr (refusal, failed) ↦ absurd (ground arith)
            | inl (outcome, ran) ↦ record {
              outcome = outcome;
              ran = ran;
              state = ground arith;
              root = ground arith;
              executed = ground arith;
            }
          ]

  -- The whole loop.
  pub execute_blocks-AreRun :
      (offset : ℕ) (blocks : List BatchBlockV5) (decoded : List (List TxEnv))
      (before after : Progress)
      → execute_blocks machine input policy offset blocks decoded before ≡ ok after
      → (executed : List ExecutedBlock) × (after.executed ≡ before.executed ++ executed)
        × AreRun blocks decoded before.state executed after.state
  unfolding execute_blocks
  execute_blocks-AreRun offset [] decoded before after h =
      let same : before ≡ after = ground arith in
      (
        [],
        ap (λ (p : Progress). p.executed) (sym same) ∙ sym (append-nil before.executed),
        subst (λ (p : Progress). AreRun [] decoded before.state [] p.state) same
            (ended decoded before.state),
      )
  execute_blocks-AreRun offset (block ∷ blocks) decoded before after h =
      elim (Result-cases
        (execute_batch_block machine input policy offset block (first_decoded decoded) before)) [
          | inr (refusal, failed) ↦ absurd (ground arith)
          | inl (next, went) ↦
              let one =
                execute_batch_block-IsRound offset block (first_decoded decoded) before next went in
              let (start, txs, accounts, verified, taken, ran, root, prev, gas) =
                execute_block_on_state-Executed machine (single input before.root block)
                  before.state (some policy) false input.policy.state_commitment
                  (first_decoded decoded) one.outcome one.ran in
              let (executed, listed, rest) =
                execute_blocks-AreRun (offset + 1) blocks (rest_decoded decoded) next after
                  (ground arith) in
              let first : ExecutedBlock = record {
                number = block.block_number;
                transactions = one.outcome.transactions;
              } in
              (
                first ∷ executed,
                listed
                    ∙ ap (λ (list : List ExecutedBlock). list ++ executed) one.executed
                    ∙ append_assoc before.executed (first ∷ []) executed,
                run block blocks decoded before.state start txs one.outcome.transactions
                    one.outcome.post_state one.outcome.gas_used executed after.state accounts taken
                    ran gas (root ∙ ap (λ (r : B256). ok r) one.root)
                    (subst
                      (λ (s : StateMap).
                        AreRun blocks (rest_decoded decoded) s executed after.state)
                      (sym one.state) rest),
              )
        ]
