-- ===== src/StfTypes/Block.antt =====
-- One block's types and commitment, from zkvm/crates/stf-types/src/block.rs.
use zkdeal_prover.Prelude.{ℕ, List, ◌++◌}
use zkdeal_prover.Words.{be_bytes}
use zkdeal_prover.StfTypes.Scalars.{Address, B256, U256, Bytes}
use zkdeal_prover.StfTypes.Abi.{Keccak, b256_bytes}

pub record AccountState : Type 0 where
  pub nonce : ℕ
  pub balance : U256
  pub code : Bytes
  pub storage : List (U256 × U256)

pub record BlockEnvV1 : Type 0 where
  pub number : ℕ
  pub timestamp : ℕ
  pub gas_limit : ℕ
  pub coinbase : Address
  pub base_fee : U256
  pub prev_randao : B256
  pub difficulty : U256
  pub excess_blob_gas : ℕ
  pub chain_id : ℕ

pub record HistoricalBlockHash : Type 0 where
  pub number : ℕ
  pub hash : B256

pub record StfInput : Type 0 where
  pub room_id : ℕ
  pub block_number : ℕ
  pub prev_state_root : B256
  pub state : List (Address × AccountState)
  pub raw_txs : List Bytes
  pub env : BlockEnvV1
  pub block_hashes : List HistoricalBlockHash

pub record StfJournal : Type 0 where
  pub v : ℕ
  pub room_id : ℕ
  pub block_number : ℕ
  pub prev_state_root : B256
  pub post_state_root : B256
  pub tx_commitment : B256
  pub env_hash : B256

-- The 156 bytes of an environment.
unfoldable pub encode_env : BlockEnvV1 → Bytes
encode_env env =
    be_bytes 8 env.number
    ++ (be_bytes 8 env.timestamp
        ++ (be_bytes 8 env.gas_limit
            ++ (be_bytes 20 env.coinbase
                ++ (be_bytes 32 env.base_fee
                    ++ (b256_bytes env.prev_randao
                        ++ (be_bytes 32 env.difficulty
                            ++ (be_bytes 8 env.excess_blob_gas ++ be_bytes 8 env.chain_id)))))))

unfoldable pub block_env_hash : ⦃keccak : Keccak⦄ → BlockEnvV1 → B256
unfolding encode_env
block_env_hash ⦃keccak⦄ env = keccak.keccak256 (encode_env env)
