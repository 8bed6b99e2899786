-- ===== src/RoomV5/Batch/Blocks.antt =====
-- The loop over the blocks of a batch: zkvm/crates/stf-core/src/room_v5/mod.rs.
use zkdeal_prover.Prelude.{
  ℕ, ◌+◌, Bool, false, ◌||◌, Option, none, some, List, [], ◌∷◌, ◌++◌, ltb, ◌!=◌, is_some_and,
  length, Result, ok, ◌>>=◌, ◌>>◌, reject_if, ok_or,
}
use zkdeal_prover.Words.{checked_add_u64}
use zkdeal_prover.StfTypes.Scalars.{B256}
use zkdeal_prover.StfTypes.Abi.{Keccak}
use zkdeal_prover.StfTypes.Block.{StfInput}
use zkdeal_prover.StfTypes.Domain.{room_chain_id_v5}
use zkdeal_prover.StfTypes.V5.{BatchBlockV5, BatchInputV5}
use zkdeal_prover.State.{StateMap}
use zkdeal_prover.Policy.{ExecutionPolicyV4}
use zkdeal_prover.TxEnv.{TxEnv}
use zkdeal_prover.Block.{Machine, execute_block_on_state}
use zkdeal_prover.RoomV5.Executed.{ExecutedBlock}
use zkdeal_prover.RoomV5.Refusal.{
  block_height_overflow, timestamp_precedes, environment_differs, intermediate_root_differs,
}
use zkdeal_prover.StfError.{StfError, long_lived_room}

-- What the loop carries from block to block.
pub record Progress : Type 0 where
  pub state : StateMap
  pub root : B256
  pub previous_timestamp : Option ℕ
  pub executed : List ExecutedBlock

-- `decoded_blocks.get_mut(offset).and_then(Option::take)`, the entries coming in order.
abbrev pub first_decoded : List (List TxEnv) → Option (List TxEnv)
first_decoded [] = none
first_decoded (decoded ∷ rest) = some decoded

abbrev pub rest_decoded : List (List TxEnv) → List (List TxEnv)
rest_decoded [] = []
rest_decoded (decoded ∷ rest) = rest

-- The environment that a block must have, given its number.
unfoldable pub is_environment_invalid : ⦃keccak : Keccak⦄ → BatchInputV5 → ℕ → BatchBlockV5 → Bool
is_environment_invalid input expected_number block =
    block.block_number != expected_number
    || block.env.number != expected_number
    || block.env.chain_id != room_chain_id_v5 input.journal.deployment_domain input.journal.room_id
    || block.env.gas_limit != input.policy.max_gas_per_block
    || ltb input.policy.max_transactions_per_block (length block.raw_txs)
    || block.env.coinbase != 0
    || block.env.base_fee != 0
    || block.env.prev_randao != 0
    || block.env.difficulty != 0
    || block.env.excess_blob_gas != 0

-- The input of the block executor.
abbrev pub single : BatchInputV5 → B256 → BatchBlockV5 → StfInput
single input root block = record {
  room_id = input.journal.room_id;
  block_number = block.block_number;
  prev_state_root = root;
  state = [];
  raw_txs = block.raw_txs;
  env = block.env;
  block_hashes = block.block_hashes;
}

module _ ⦃keccak : Keccak⦄ (machine : Machine) (input : BatchInputV5) where
  -- One round of the loop.
  unfoldable pub execute_batch_block :
      ExecutionPolicyV4
      → ℕ
      → BatchBlockV5
      → Option (List TxEnv)
      → Progress
      → Result StfError Progress
  unfolding is_environment_invalid
  execute_batch_block policy offset block decoded progress = do
    expected_number ←
        ok_or (checked_add_u64 input.journal.start_l2_block offset)
          (long_lived_room block_height_overflow)
    reject_if
        (is_some_and progress.previous_timestamp (λ previous. ltb block.env.timestamp previous))
        (long_lived_room timestamp_precedes)
    reject_if (is_environment_invalid input expected_number block)
        (long_lived_room environment_differs)
    outcome ←
        execute_block_on_state machine (single input progress.root block) progress.state
          (some policy) false input.policy.state_commitment decoded
    reject_if (outcome.journal.post_state_root != block.expected_post_state_root)
        (long_lived_room intermediate_root_differs)
    ok (record {
      state = outcome.post_state;
      root = outcome.journal.post_state_root;
      previous_timestamp = some block.env.timestamp;
      executed =
          progress.executed
          ++ (record { number = block.block_number; transactions = outcome.transactions } ∷ []);
    })

  unfoldable pub execute_blocks :
      ExecutionPolicyV4
      → ℕ
      → List BatchBlockV5
      → List (List TxEnv)
      → Progress
      → Result StfError Progress
  unfolding execute_batch_block
  execute_blocks policy offset [] decoded progress = ok progress
  execute_blocks policy offset (block ∷ blocks) decoded progress = do
    next ← execute_batch_block policy offset block (first_decoded decoded) progress
    execute_blocks policy (offset + 1) blocks (rest_decoded decoded) next
