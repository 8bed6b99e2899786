-- ===== src/Block/Tests.antt =====
-- A block with one transaction that pays a wei from account 21 to account 50, and the theorem at it.
use zkdeal_prover.Prelude.{ℕ, List, ◌≡◌, ◌≤◌, refl, true, false, none, some, [], ◌∷◌, leb, ok, err}
use zkdeal_prover.StfTypes.Abi.Sample.{sample_keccak}
use zkdeal_prover.StfTypes.V5.Evaluate.{evaluate}
use zkdeal_prover.StfTypes.Block.{StfInput, block_env_hash}
use zkdeal_prover.StfTypes.BatchData.{rlp_list}
use zkdeal_prover.Trie.{sample_trie}
use zkdeal_prover.State.{StateMap, same_bytes, code_hash}
use zkdeal_prover.State.Install.{collect_history, install_block_hashes}
use zkdeal_prover.State.Commit.{
  Account, latch_storage, latch_account, merge_storage, merge_code, merge_account, keep_account,
  commit_account, commit,
}
use zkdeal_prover.State.Canonical.{IsCanonical}
use zkdeal_prover.State.Roots.{room_state_root_v5, state_root, storage_root, trie_account}
use zkdeal_prover.TxEnv.{TxEnvelope, TxEnv, tx_env_from_raw, is_blob_or_set_code, validate_envelope}
use zkdeal_prover.Policy.Calls.{validate_transaction_entry}
use zkdeal_prover.StfError.{block_gas_limit}
use zkdeal_prover.Block.{
  Machine, BlockOutcome, inspector_policy, add_gas, tx_commitment_raw, state_root_in_mode,
  execute_transaction, execute_raw, execute_transactions, check_root, install_input_block_hashes,
  execute_block_on_state,
}
use zkdeal_prover.Block.Executed.{Executed, AreTransactions}
use zkdeal_prover.Block.Accepted.{execute_block_on_state-accepted}

abbrev envelope : TxEnvelope
envelope = record {
  tx_type = 2;
  nonce = 4;
  gas_limit = 21000;
  max_fee_per_gas = 0;
  max_priority_fee_per_gas = none;
  access_list = none;
  signature = [];
  chain_id = some 3;
  kind = some 50;
  value = 1;
  input = [];
}

abbrev info : ℕ → ℕ → Account
info nonce balance = record {
  is_touched = true;
  is_selfdestructed = false;
  is_created = false;
  info = record {
    nonce = nonce;
    balance = balance;
    code_hash = sample_keccak.keccak256 [];
    code = none;
  };
  storage = [];
}

abbrev machine : Machine
machine = record {
  evm = record {
    transact = λ policy env state tx. some (record {
      changes = (50, info 0 1) ∷ (21, info 5 9) ∷ [];
      is_success = true;
      gas_used = 21000;
      violation = none;
    });
  };
  trie = sample_trie;
  rlp = record {
    encode_u64 = λ n. n ∷ [];
    encode_u256 = λ n. n ∷ [];
    encode_address = λ n. n ∷ [];
    encode_b256 = λ n. n ∷ [];
    encode_bytes = λ bytes. bytes;
    list_header = λ n. n ∷ [];
  };
  envelopes = record {
    decode_2718 = λ raw. elim raw [ [] ↦ none | byte ∷ bytes ↦ some (envelope, bytes) ];
    recover_signer = λ envelope'. some 21;
  };
  is_precompile = λ address. leb address 17;
  bytecodes = record { is_accepted = λ code. true; is_legacy = λ code. true };
}

abbrev state : StateMap
state = record {
  accounts = (21, record { nonce = 4; balance = 10; code = []; storage = [] }) ∷ [];
  block_hashes = [];
  access_accounts = none;
  access_storage = none;
  access_violation = none;
  prepared_code = [];
  prepared_code_addresses = [];
}

abbrev input : ℕ → StfInput
input gas_limit = record {
  room_id = 7;
  block_number = 9;
  prev_state_root = 101;
  state = [];
  raw_txs = (11 ∷ []) ∷ [];
  env = record {
    number = 9;
    timestamp = 1000;
    gas_limit = gas_limit;
    coinbase = 0;
    base_fee = 0;
    prev_randao = 0;
    difficulty = 0;
    excess_blob_gas = 0;
    chain_id = 3;
  };
  block_hashes = record { number = 8; hash = 77 } ∷ [];
}

abbrev outcome : BlockOutcome
outcome = record {
  journal = record {
    v = 2;
    room_id = 7;
    block_number = 9;
    prev_state_root = 101;
    post_state_root = 102;
    tx_commitment = tx_commitment_raw machine ((11 ∷ []) ∷ []);
    env_hash = block_env_hash (input 21000).env;
  };
  gas_used = 21000;
  post_state = record state {
    accounts =
        (21, record { nonce = 5; balance = 9; code = []; storage = [] })
        ∷ (50, record { nonce = 0; balance = 1; code = []; storage = [] })
        ∷ [];
    block_hashes = (8, 77) ∷ [];
  };
  transactions = record { transaction_hash = sample_keccak.keccak256 (11 ∷ []); status = 0 } ∷ [];
}

block_valid : execute_block_on_state machine (input 21000) state none true 0 none ≡ ok outcome
unfolding execute_block_on_state check_root install_input_block_hashes execute_transactions
    execute_raw execute_transaction add_gas state_root_in_mode room_state_root_v5 state_root
    trie_account storage_root install_block_hashes collect_history code_hash same_bytes commit
    commit_account keep_account merge_account merge_code merge_storage latch_account latch_storage
    tx_env_from_raw is_blob_or_set_code validate_envelope validate_transaction_entry
    tx_commitment_raw rlp_list evaluate
block_valid = refl

-- A unit of gas less, and the block is over its limit.
gas_refused :
    execute_block_on_state machine (input 20999) state none true 0 none
    ≡ err (block_gas_limit 21000 20999)
unfolding execute_block_on_state check_root install_input_block_hashes execute_transactions
    execute_raw execute_transaction add_gas state_root_in_mode room_state_root_v5 state_root
    trie_account storage_root install_block_hashes collect_history code_hash same_bytes commit
    commit_account keep_account merge_account merge_code merge_storage latch_account latch_storage
    tx_env_from_raw is_blob_or_set_code validate_envelope validate_transaction_entry
    tx_commitment_raw rlp_list evaluate
gas_refused = refl

execute_block_on_state-accepted_example :
    (start : StateMap) × (txs : List TxEnv) × (start.accounts ≡ state.accounts)
    × (true ≡ true → state_root_in_mode machine start 0 ≡ ok (input 21000).prev_state_root)
    × AreTransactions machine
        (inspector_policy none)
        (input 21000).env
        none
        (input 21000).raw_txs
        txs
    × Executed machine
        (inspector_policy none)
        (input 21000).env
        (input 21000).raw_txs
        txs
        start
        0
        outcome.transactions
        outcome.post_state
        21000
    × IsCanonical outcome.post_state
    × (state_root_in_mode machine outcome.post_state 0 ≡ ok 102)
    × (outcome.journal.prev_state_root ≡ (input 21000).prev_state_root)
    × (◌≤◌ 21000 21000)
execute_block_on_state-accepted_example =
    execute_block_on_state-accepted machine (input 21000) state none true 0 none outcome block_valid
      ((tt, tt), ((refl, tt, tt), tt))
