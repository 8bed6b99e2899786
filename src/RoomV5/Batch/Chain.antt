-- ===== src/RoomV5/Batch/Chain.antt =====
-- The blocks of a batch form a chain: their numbers, timestamps and environments, and their roots.
use mathlib.Core.Path.{subst}
use zkdeal_prover.Prelude.{
  ℕ, ◌+◌, ◌^◌, ◌≡◌, ◌≤◌, ◌<◌, sym, ap, ◌∙◌, false, Option, some, List, [], ◌∷◌, ◌++◌, ltb,
  is_some_and, length, arith, ok, Result-cases, inl, inr,
}
use zkdeal_prover.StfTypes.Scalars.{B256}
use zkdeal_prover.StfTypes.Abi.{Keccak}
use zkdeal_prover.StfTypes.Domain.{room_chain_id_v5}
use zkdeal_prover.StfTypes.V5.{BatchBlockV5, BatchInputV5}
use zkdeal_prover.State.{StateMap}
use zkdeal_prover.Policy.{ExecutionPolicyV4}
use zkdeal_prover.TxEnv.{TxEnv}
use zkdeal_prover.Block.{Machine, state_root_in_mode, execute_block_on_state}
use zkdeal_prover.Block.Accepted.{execute_block_on_state-Steps}
use zkdeal_prover.RoomV5.Batch.Blocks.{
  Progress, first_decoded, rest_decoded, single, is_environment_invalid, execute_batch_block,
  execute_blocks,
}

-- The root that a list of blocks ends in, from a root on.
abbrev pub last_root : B256 → List BatchBlockV5 → B256
last_root root [] = root
last_root root (block ∷ blocks) = last_root block.expected_post_state_root blocks

module _ ⦃keccak : Keccak⦄ (input : BatchInputV5) where
  -- The block has the number, the room's chain id, the gas limit of the policy and at most its number
  -- of transactions, and no coinbase, base fee, randomness, difficulty or blob gas.
  abbrev pub IsRoomBlock : ℕ → BatchBlockV5 → Type 0
  IsRoomBlock number block =
      (block.block_number ≡ number)
      × (block.env.number ≡ number)
      × (block.env.chain_id
          ≡ room_chain_id_v5 input.journal.deployment_domain input.journal.room_id)
      × (block.env.gas_limit ≡ input.policy.max_gas_per_block)
      × (length block.raw_txs ≤ input.policy.max_transactions_per_block)
      × (block.env.coinbase ≡ 0)
      × (block.env.base_fee ≡ 0)
      × (block.env.prev_randao ≡ 0)
      × (block.env.difficulty ≡ 0)
      × (block.env.excess_blob_gas ≡ 0)

  -- The blocks are numbered from `number` on, and no timestamp precedes the one before it.
  abbrev pub AreRoomBlocks : ℕ → Option ℕ → List BatchBlockV5 → Type 0
  AreRoomBlocks number previous [] = Unit
  AreRoomBlocks number previous (block ∷ blocks) =
      IsRoomBlock number block
      × (is_some_and previous (λ before. ltb block.env.timestamp before) ≡ false)
      × AreRoomBlocks (number + 1) (some block.env.timestamp) blocks

  IsRoomBlock-valid :
      (number : ℕ) (block : BatchBlockV5)
      → is_environment_invalid input number block ≡ false
      → IsRoomBlock number block
  unfolding is_environment_invalid
  IsRoomBlock-valid number block h = ground arith

module _ ⦃keccak : Keccak⦄ (machine : Machine) (input : BatchInputV5) where
  -- One round: the block is one of the room, it runs on the state so far, and its roots join.
  execute_batch_block-step :
      (policy : ExecutionPolicyV4) (offset : ℕ) (block : BatchBlockV5)
      (decoded : Option (List TxEnv)) (before after : Progress)
      → execute_batch_block machine input policy offset block decoded before ≡ ok after
      → (input.journal.start_l2_block + offset < 2 ^ 64)
        × (is_environment_invalid input (input.journal.start_l2_block + offset) block ≡ false)
        × (is_some_and before.previous_timestamp (λ previous. ltb block.env.timestamp previous)
            ≡ false)
        × (after.previous_timestamp ≡ some block.env.timestamp)
        × (after.root ≡ block.expected_post_state_root)
        × (state_root_in_mode machine after.state input.policy.state_commitment ≡ ok after.root)
  unfolding execute_batch_block
  execute_batch_block-step policy offset block decoded before after h =
      elim (Result-cases (
        execute_block_on_state machine (single input before.root block) before.state (some policy)
          false input.policy.state_commitment decoded)) [
            | inr (refusal, failed) ↦ absurd (ground arith)
            | inl (outcome, ran) ↦
                let (
                  installed,
                  opened,
                  (done, txs, taken, steps, state', transactions', gas, root, prev),
                ) =
                  execute_block_on_state-Steps machine (single input before.root block) before.state
                    (some policy) false input.policy.state_commitment decoded outcome ran in
                let rooted : state_root_in_mode machine outcome.post_state
                      input.policy.state_commitment
                    ≡ ok outcome.journal.post_state_root =
                  ap (λ (s : StateMap). state_root_in_mode machine s input.policy.state_commitment)
                    state'
                  ∙ root in
                let after' : record {
                  state = outcome.post_state;
                  root = outcome.journal.post_state_root;
                  previous_timestamp = some block.env.timestamp;
                  executed =
                      before.executed
                      ++ (record {
                        number = block.block_number;
                        transactions = outcome.transactions;
                      }
                          ∷ []);
                }
                    ≡ after =
                  ground arith in
                (
                  ground arith,
                  ground arith,
                  ground arith,
                  ground arith,
                  ground arith,
                  subst
                      (λ (p : Progress).
                        state_root_in_mode machine p.state input.policy.state_commitment
                        ≡ ok p.root)
                      after' rooted,
                )
          ]

  -- The whole loop: the blocks are those of the room, in order, and the roots chain from the first
  -- to the last.
  pub execute_blocks-AreRoomBlocks :
      (policy : ExecutionPolicyV4) (offset : ℕ) (blocks : List BatchBlockV5)
      (decoded : List (List TxEnv)) (before after : Progress)
      → execute_blocks machine input policy offset blocks decoded before ≡ ok after
      → state_root_in_mode machine before.state input.policy.state_commitment ≡ ok before.root
      → AreRoomBlocks input (input.journal.start_l2_block + offset) before.previous_timestamp blocks
        × (after.root ≡ last_root before.root blocks)
        × (state_root_in_mode machine after.state input.policy.state_commitment ≡ ok after.root)
  unfolding execute_blocks
  execute_blocks-AreRoomBlocks policy offset [] decoded before after h rooted =
      let same : before ≡ after = ground arith in
      (
        tt,
        ap (λ (p : Progress). p.root) (sym same),
        subst
            (λ (p : Progress).
              state_root_in_mode machine p.state input.policy.state_commitment ≡ ok p.root)
            same rooted,
      )
  execute_blocks-AreRoomBlocks policy offset (block ∷ blocks) decoded before after h rooted =
      elim (Result-cases
        (execute_batch_block machine input policy offset block (first_decoded decoded) before)) [
          | inr (refusal, failed) ↦ absurd (ground arith)
          | inl (next, ran) ↦
              let one =
                execute_batch_block-step policy offset block (first_decoded decoded) before next
                  ran in
              let rest =
                execute_blocks-AreRoomBlocks policy (offset + 1) blocks (rest_decoded decoded) next
                  after (ground arith) one.5 in
              let number : input.journal.start_l2_block + (offset + 1)
                  ≡ input.journal.start_l2_block + offset + 1 =
                omega arith in
              let later : AreRoomBlocks input (input.journal.start_l2_block + offset + 1)
                  (some block.env.timestamp) blocks =
                subst
                  (λ (t : Option ℕ).
                    AreRoomBlocks input (input.journal.start_l2_block + offset + 1) t blocks)
                  one.3
                  (subst (λ (n : ℕ). AreRoomBlocks input n next.previous_timestamp blocks) number
                    rest.0) in
              (
                (
                  IsRoomBlock-valid input (input.journal.start_l2_block + offset) block one.1,
                  one.2,
                  later,
                ),
                rest.1 ∙ ap (λ (r : B256). last_root r blocks) one.4,
                rest.2,
              )
        ]
