-- ===== src/Block.antt =====
-- The execution of one block: zkvm/crates/stf-core/src/block.rs. The counters of its proof-work report
-- are left out.
pub mod Executed
pub mod Accepted
mod Tests
use zkdeal_prover.Prelude.{
  ℕ, ◌+◌, ◌^◌, ◌-◌, Bool, true, false, not, ◌&&◌, Option, none, some, List, [], ◌∷◌, ◌++◌, map, ltb,
  ◌==◌, ◌!=◌, if◌then◌else◌, is_some_and, length, Result, ok, err, map_err, ◌>>=◌, ◌>>◌, reject_if,
  ok_or,
}
use zkdeal_prover.Words.{checked_add_u64}
use zkdeal_prover.StfTypes.Scalars.{Address, B256, Bytes}
use zkdeal_prover.StfTypes.Limits.{journal_version}
use zkdeal_prover.StfTypes.Abi.{Keccak}
use zkdeal_prover.StfTypes.Block.{
  BlockEnvV1, HistoricalBlockHash, StfInput, StfJournal, block_env_hash,
}
use zkdeal_prover.StfTypes.BatchData.{Rlp, rlp_list}
use zkdeal_prover.Trie.{Trie}
use zkdeal_prover.State.{StateMap, StfDbError}
use zkdeal_prover.State.Install.{Bytecodes, from_input, install_block_hashes}
use zkdeal_prover.State.Commit.{Account, commit}
use zkdeal_prover.State.Roots.{room_state_root_v5}
use zkdeal_prover.TxEnv.{Envelopes, TxEnv, tx_env_from_raw}
use zkdeal_prover.Policy.{PolicyRefusal, ExecutionPolicyV4, legacy_unrestricted}
use zkdeal_prover.Policy.Calls.{Precompiles, validate_transaction_entry}
use zkdeal_prover.RoomV5.Refusal.{unknown_state_commitment}
use zkdeal_prover.RoomV5.Executed.{TransactionOutcome}
use zkdeal_prover.StfError.{
  StfError, pre_root_mismatch, predecoded_length, predecoded_exhausted, tx_refused, tx_execution,
  access_outside, block_hash_history, block_gas_limit, certified_policy, long_lived_room,
}

-- What revm hands back of one transaction: the changes that it commits, whether the transaction
-- succeeded, the gas, and the violation that the inspector of the policy latched on the way.
pub record TxResult : Type 0 where
  pub changes : List (Address × Account)
  pub is_success : Bool
  pub gas_used : ℕ
  pub violation : Option PolicyRefusal

-- revm, set up for Osaka with the inspector of a policy: it runs a transaction in a block environment
-- on a state that it reads, or refuses it. Nothing is assumed of it.
pub record Evm : Type 0 where
  pub transact : ExecutionPolicyV4 → BlockEnvV1 → StateMap → TxEnv → Option TxResult

-- The packages that an execution calls.
pub record Machine : Type 0 where
  pub evm : Evm
  pub trie : Trie
  pub rlp : Rlp
  pub envelopes : Envelopes
  pub is_precompile : Precompiles
  pub bytecodes : Bytecodes

-- Where the loop over the transactions stands.
pub record Running : Type 0 where
  pub state : StateMap
  pub gas_used : ℕ
  pub transactions : List TransactionOutcome

pub record BlockOutcome : Type 0 where
  pub journal : StfJournal
  pub gas_used : ℕ
  pub post_state : StateMap
  pub transactions : List TransactionOutcome

-- The gas of one more transaction, within the budget of the block.
unfoldable pub add_gas : ℕ → ℕ → ℕ → Result StfError ℕ
add_gas limit used more = do
  total ← ok_or (checked_add_u64 used more) (block_gas_limit (2 ^ 64 - 1) limit)
  reject_if (ltb limit total) (block_gas_limit total limit)
  ok total

-- `if let Some(error) = latched { return Err(..) }`
abbrev pub reject_latched : {E : Type 0} → Option E → (E → StfError) → Result StfError (Unit {0})
reject_latched none wrap = ok tt
reject_latched (some error) wrap = err (wrap error)

abbrev pub inspector_policy : Option ExecutionPolicyV4 → ExecutionPolicyV4
inspector_policy none = legacy_unrestricted
inspector_policy (some policy) = policy

unfoldable pub install_input_block_hashes : StateMap → StfInput → Result StfError StateMap
install_input_block_hashes state input =
    map_err block_hash_history (install_block_hashes state input.env.number input.block_hashes)

module _ ⦃keccak : Keccak⦄ (machine : Machine) where
  unfoldable pub tx_commitment_raw : List Bytes → B256
  tx_commitment_raw raw_txs = keccak.keccak256 (
      rlp_list machine.rlp
        (map (λ (raw : Bytes). machine.rlp.encode_b256 (keccak.keccak256 raw)) raw_txs))

  unfoldable pub state_root_in_mode : StateMap → ℕ → Result StfError B256
  state_root_in_mode state mode =
      ok_or (room_state_root_v5 machine.trie state mode) (long_lived_room unknown_state_commitment)

  -- One round of the loop, for a decoded transaction.
  unfoldable pub execute_transaction :
      ExecutionPolicyV4 → BlockEnvV1 → Bytes → TxEnv → Running → Result StfError Running
  unfolding add_gas
  execute_transaction policy env raw tx_env running = do
    map_err certified_policy (
        validate_transaction_entry machine.is_precompile policy tx_env.caller tx_env.kind
          tx_env.call_data)
    result ← ok_or (machine.evm.transact policy env running.state tx_env) tx_execution
    let state = commit running.state result.changes
    reject_latched result.violation certified_policy
    reject_latched state.access_violation access_outside
    gas_used ← add_gas env.gas_limit running.gas_used result.gas_used
    ok (record {
      state = state;
      gas_used = gas_used;
      transactions =
          running.transactions
          ++ (record {
            transaction_hash = keccak.keccak256 raw;
            status = if result.is_success then 0 else 1;
          }
              ∷ []);
    })

  -- The loop over the raw transactions, which decodes each.
  unfoldable pub execute_raw :
      ExecutionPolicyV4 → BlockEnvV1 → List Bytes → Running → Result StfError Running
  unfolding execute_transaction
  execute_raw policy env [] running = ok running
  execute_raw policy env (raw ∷ raw_txs) running = do
    tx_env ← map_err tx_refused (tx_env_from_raw machine.envelopes raw env.chain_id)
    next ← execute_transaction policy env raw tx_env running
    execute_raw policy env raw_txs next

  -- The loop over the raw transactions, with those that were decoded before.
  unfoldable pub execute_decoded :
      ExecutionPolicyV4 → BlockEnvV1 → List Bytes → List TxEnv → Running → Result StfError Running
  unfolding execute_transaction
  execute_decoded policy env [] decoded running = ok running
  execute_decoded policy env (raw ∷ raw_txs) [] running = err predecoded_exhausted
  execute_decoded policy env (raw ∷ raw_txs) (tx_env ∷ decoded) running = do
    next ← execute_transaction policy env raw tx_env running
    execute_decoded policy env raw_txs decoded next

  unfoldable pub execute_transactions :
      ExecutionPolicyV4
      → BlockEnvV1
      → List Bytes
      → Option (List TxEnv)
      → Running
      → Result StfError Running
  unfolding execute_raw execute_decoded
  execute_transactions policy env raw_txs none running = execute_raw policy env raw_txs running
  execute_transactions policy env raw_txs (some decoded) running =
      execute_decoded policy env raw_txs decoded running

  -- The root that the state must have, when it is to be verified.
  unfoldable pub check_root : Bool → B256 → StateMap → ℕ → Result StfError (Unit {0})
  unfolding state_root_in_mode
  check_root false expected state mode = ok tt
  check_root true expected state mode = do
    computed ← state_root_in_mode state mode
    reject_if (computed != expected) (pre_root_mismatch expected computed)

  -- The opcode gadgets, which are not to change any result, are part of the machine.
  unfoldable pub execute_block_on_state :
      StfInput
      → StateMap
      → Option ExecutionPolicyV4
      → Bool
      → ℕ
      → Option (List TxEnv)
      → Result StfError BlockOutcome
  unfolding state_root_in_mode execute_transactions check_root tx_commitment_raw
      install_input_block_hashes
  execute_block_on_state input state policy verify_pre_state_root state_commitment decoded_txs = do
    reject_if
        (is_some_and decoded_txs (λ (decoded : List TxEnv). length decoded != length input.raw_txs))
        predecoded_length
    installed ← install_input_block_hashes state input
    check_root verify_pre_state_root input.prev_state_root installed state_commitment
    done ←
        execute_transactions (inspector_policy policy) input.env input.raw_txs decoded_txs
          (record { state = installed; gas_used = 0; transactions = [] })
    post_state_root ← state_root_in_mode done.state state_commitment
    ok (record {
      journal = record {
        v = journal_version;
        room_id = input.room_id;
        block_number = input.block_number;
        prev_state_root = input.prev_state_root;
        post_state_root = post_state_root;
        tx_commitment = tx_commitment_raw input.raw_txs;
        env_hash = block_env_hash input.env;
      };
      gas_used = done.gas_used;
      post_state = done.state;
      transactions = done.transactions;
    })

  -- One block on its own, under no certified policy.
  unfoldable pub execute_block_full_v5_commitment : StfInput → ℕ → Result StfError BlockOutcome
  unfolding execute_block_on_state install_input_block_hashes
  execute_block_full_v5_commitment input state_commitment = do
    state ← install_input_block_hashes (from_input input.state) input
    execute_block_on_state input state none true state_commitment none

  unfoldable pub execute_block_full : StfInput → Result StfError BlockOutcome
  unfolding execute_block_full_v5_commitment
  execute_block_full input = execute_block_full_v5_commitment input 0

  unfoldable pub execute_block : StfInput → Result StfError StfJournal
  unfolding execute_block_full
  execute_block input = do outcome ← execute_block_full input; ok outcome.journal
