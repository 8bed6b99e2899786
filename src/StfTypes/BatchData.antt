-- ===== src/StfTypes/BatchData.antt =====
-- The canonical calldata of a batch: zkvm/crates/stf-types/src/batch_data.rs.
use zkdeal_prover.Prelude.{ℕ, List, [], ◌∷◌, ◌++◌, length}
use zkdeal_prover.StfTypes.Scalars.{Address, B256, U256, Bytes}
use zkdeal_prover.StfTypes.Abi.{Keccak, concat_words}
use zkdeal_prover.StfTypes.Block.{BlockEnvV1, HistoricalBlockHash}
use zkdeal_prover.StfTypes.V5.Witness.{BatchBlockV5}

-- The encoders of alloy-rlp that the function calls, one for each type it encodes, and the header of
-- a list with a payload of some length. Nothing is assumed of them.
pub record Rlp : Type 0 where
  pub encode_u64 : ℕ → Bytes
  pub encode_u256 : U256 → Bytes
  pub encode_address : Address → Bytes
  pub encode_b256 : B256 → Bytes
  pub encode_bytes : Bytes → Bytes
  pub list_header : ℕ → Bytes

module _ (rlp : Rlp) where
  -- `list(items)`: the header and the items in a row.
  unfoldable pub rlp_list : List Bytes → Bytes
  rlp_list items = let payload = concat_words items in rlp.list_header (length payload) ++ payload

  unfoldable pub encode_txs : List Bytes → List Bytes
  encode_txs [] = []
  encode_txs (tx ∷ txs) = rlp.encode_bytes tx ∷ encode_txs txs

  unfoldable pub encode_history : List HistoricalBlockHash → List Bytes
  unfolding rlp_list
  encode_history [] = []
  encode_history (item ∷ items) =
      rlp_list (rlp.encode_u64 item.number ∷ rlp.encode_b256 item.hash ∷ []) ∷ encode_history items

  unfoldable pub encode_environment : BlockEnvV1 → Bytes
  unfolding rlp_list
  encode_environment env = rlp_list (
      rlp.encode_u64 env.number
      ∷ rlp.encode_u64 env.timestamp
      ∷ rlp.encode_u64 env.gas_limit
      ∷ rlp.encode_address env.coinbase
      ∷ rlp.encode_u256 env.base_fee
      ∷ rlp.encode_b256 env.prev_randao
      ∷ rlp.encode_u256 env.difficulty
      ∷ rlp.encode_u64 env.excess_blob_gas
      ∷ rlp.encode_u64 env.chain_id
      ∷ [])

  -- The blocks in order; each carries the state root that the one before it ends in.
  unfoldable pub encode_blocks : B256 → List BatchBlockV5 → List Bytes
  unfolding encode_environment encode_history encode_txs rlp_list
  encode_blocks parent [] = []
  encode_blocks parent (block ∷ blocks) =
      rlp_list (
        rlp.encode_u64 block.block_number
        ∷ encode_environment block.env
        ∷ rlp.encode_b256 parent
        ∷ rlp.encode_b256 block.expected_post_state_root
        ∷ rlp_list (encode_history block.block_hashes)
        ∷ rlp_list (encode_txs block.raw_txs)
        ∷ [])
      ∷ encode_blocks block.expected_post_state_root blocks

  unfoldable pub canonical_batch_data_v5 : List BatchBlockV5 → B256 → Bytes
  unfolding encode_blocks rlp_list
  canonical_batch_data_v5 blocks pre_state_root =
      rlp_list (rlp.encode_u64 5 ∷ rlp_list (encode_blocks pre_state_root blocks) ∷ [])

  unfoldable pub batch_block_data_hash_v5 : ⦃keccak : Keccak⦄ → List BatchBlockV5 → B256 → B256
  batch_block_data_hash_v5 ⦃keccak⦄ blocks pre_state_root =
      keccak.keccak256 (canonical_batch_data_v5 blocks pre_state_root)
