-- ===== src/State/Roots.antt =====
-- The two state commitments of zkvm/crates/stf-core/src/db/roots.rs, and the choice between them of
-- stf-core/src/block.rs.
pub mod Total
use zkdeal_prover.Prelude.{
  ℕ, zero, suc, not, Option, none, some, List, [], ◌∷◌, ◌++◌, map, ◌==◌, ◌!=◌, if◌then◌else◌,
  is_empty, length, keep_if, replicate, ◌-◌,
}
use zkdeal_prover.Prelude.Map.{Map}
use zkdeal_prover.Words.{be_bytes, next_power_of_two}
use zkdeal_prover.StfTypes.Scalars.{Address, B256, U256, Bytes}
use zkdeal_prover.StfTypes.Abi.{Keccak, b256_bytes, abi_address_word_v5, abi_u64_word_v5}
use zkdeal_prover.StfTypes.Levels.{fold_levels}
use zkdeal_prover.Trie.{TrieAccount, Trie}
use zkdeal_prover.State.{AccountRecord, StateMap, is_empty_account, code_hash}
use zkdeal_prover.State.Read.{validated_prepared_code, served_hash}

-- The bytes of "zkdeal/sparse-storage-leaf/v5".
abbrev pub sparse_storage_leaf_tag : Bytes
sparse_storage_leaf_tag =
    122 ∷ 107 ∷ 100 ∷ 101 ∷ 97 ∷ 108 ∷ 47 ∷ 115 ∷ 112 ∷ 97 ∷ 114 ∷ 115 ∷ 101 ∷ 45 ∷ 115 ∷ 116 ∷ 111
    ∷ 114 ∷ 97 ∷ 103 ∷ 101 ∷ 45 ∷ 108 ∷ 101 ∷ 97 ∷ 102 ∷ 47 ∷ 118 ∷ 53 ∷ []

-- The bytes of "zkdeal/sparse-storage-tree/v5".
abbrev pub sparse_storage_tree_tag : Bytes
sparse_storage_tree_tag =
    122 ∷ 107 ∷ 100 ∷ 101 ∷ 97 ∷ 108 ∷ 47 ∷ 115 ∷ 112 ∷ 97 ∷ 114 ∷ 115 ∷ 101 ∷ 45 ∷ 115 ∷ 116 ∷ 111
    ∷ 114 ∷ 97 ∷ 103 ∷ 101 ∷ 45 ∷ 116 ∷ 114 ∷ 101 ∷ 101 ∷ 47 ∷ 118 ∷ 53 ∷ []

-- The bytes of "zkdeal/sparse-account-leaf/v5".
abbrev pub sparse_account_leaf_tag : Bytes
sparse_account_leaf_tag =
    122 ∷ 107 ∷ 100 ∷ 101 ∷ 97 ∷ 108 ∷ 47 ∷ 115 ∷ 112 ∷ 97 ∷ 114 ∷ 115 ∷ 101 ∷ 45 ∷ 97 ∷ 99 ∷ 99
    ∷ 111 ∷ 117 ∷ 110 ∷ 116 ∷ 45 ∷ 108 ∷ 101 ∷ 97 ∷ 102 ∷ 47 ∷ 118 ∷ 53 ∷ []

-- The bytes of "zkdeal/sparse-account-tree/v5".
abbrev pub sparse_account_tree_tag : Bytes
sparse_account_tree_tag =
    122 ∷ 107 ∷ 100 ∷ 101 ∷ 97 ∷ 108 ∷ 47 ∷ 115 ∷ 112 ∷ 97 ∷ 114 ∷ 115 ∷ 101 ∷ 45 ∷ 97 ∷ 99 ∷ 99
    ∷ 111 ∷ 117 ∷ 110 ∷ 116 ∷ 45 ∷ 116 ∷ 114 ∷ 101 ∷ 101 ∷ 47 ∷ 118 ∷ 53 ∷ []

-- `.filter(|(_, value)| !value.is_zero())`
abbrev pub stored_words : Map U256 → Map U256
stored_words storage = keep_if (λ (entry : U256 × U256). entry.1 != 0) storage

-- `.filter(|(_, account)| !account.is_empty())`
abbrev pub stored_accounts : Map AccountRecord → Map AccountRecord
stored_accounts accounts =
    keep_if (λ (entry : Address × AccountRecord). not (is_empty_account entry.1)) accounts

module _ ⦃keccak : Keccak⦄ where
  unfoldable pub sparse_node : Bytes → B256 → B256 → B256
  sparse_node tag left right =
      keccak.keccak256 (b256_bytes (keccak.keccak256 tag) ++ (b256_bytes left ++ b256_bytes right))

  -- An empty tree has one zero leaf; another is filled up to a power of two.
  unfoldable pub padded : List B256 → List B256
  padded leaves =
      if is_empty leaves
      then 0 ∷ []
      else leaves ++ replicate (next_power_of_two (length leaves) - length leaves) 0

  -- The root commits to the number of leaves too. A `none` stands for a panic, and never comes.
  unfoldable pub tree_root : Bytes → List B256 → Option B256
  unfolding padded sparse_node
  tree_root tag leaves =
      elim (fold_levels (sparse_node tag) (length (padded leaves)) (padded leaves)) [
        | none ↦ none
        | some root ↦
            some (keccak.keccak256 (tag ++ (be_bytes 8 (length leaves) ++ b256_bytes root)))
      ]

  unfoldable pub sparse_storage_leaves : Map U256 → List B256
  sparse_storage_leaves storage =
      map
        (λ (entry : U256 × U256). keccak.keccak256 (
          b256_bytes (keccak.keccak256 sparse_storage_leaf_tag)
          ++ (be_bytes 32 entry.0 ++ be_bytes 32 entry.1)))
        (stored_words storage)

  unfoldable pub sparse_account_leaf : Address → AccountRecord → Option B256
  unfolding sparse_storage_leaves tree_root
  sparse_account_leaf address account =
      elim (tree_root sparse_storage_tree_tag (sparse_storage_leaves account.storage)) [
        | none ↦ none
        | some storage_root ↦ some (
            keccak.keccak256 (
              b256_bytes (keccak.keccak256 sparse_account_leaf_tag)
              ++ (abi_address_word_v5 address
                  ++ (abi_u64_word_v5 account.nonce
                      ++ (be_bytes 32 account.balance
                          ++ (b256_bytes (code_hash account) ++ b256_bytes storage_root))))))
      ]

  unfoldable pub sparse_account_leaves : Map AccountRecord → Option (List B256)
  unfolding sparse_account_leaf
  sparse_account_leaves [] = some []
  sparse_account_leaves ((address, account) ∷ accounts) =
      let rest = sparse_account_leaves accounts in
      elim (sparse_account_leaf address account) [
        | none ↦ none
        | some leaf ↦ elim rest [ none ↦ none | some leaves ↦ some (leaf ∷ leaves) ]
      ]

  unfoldable pub sparse_state_root_v5 : StateMap → Option B256
  unfolding sparse_account_leaves tree_root
  sparse_state_root_v5 state = elim (sparse_account_leaves (stored_accounts state.accounts)) [
    | none ↦ none
    | some leaves ↦ tree_root sparse_account_tree_tag leaves
  ]

  module _ (trie : Trie) where
    unfoldable pub storage_root : AccountRecord → B256
    storage_root account =
        if is_empty account.storage
        then trie.empty_root_hash
        else trie.storage_root_unhashed (stored_words account.storage)

    unfoldable pub trie_account : StateMap → Address → AccountRecord → TrieAccount
    unfolding storage_root served_hash
    trie_account state address account = record {
      nonce = account.nonce;
      balance = account.balance;
      storage_root = storage_root account;
      code_hash = served_hash (validated_prepared_code state address account) account;
    }

    unfoldable pub state_root : StateMap → B256
    unfolding trie_account
    state_root state = trie.state_root_unhashed (
        map (λ (entry : Address × AccountRecord). (entry.0, trie_account state entry.0 entry.1))
          (stored_accounts state.accounts))

    -- The root in the mode that the policy names; `none` is an unknown mode.
    unfoldable pub room_state_root_v5 : StateMap → ℕ → Option B256
    unfolding state_root sparse_state_root_v5
    room_state_root_v5 state mode =
        if mode == 0
        then some (state_root state)
        else if mode == 1
        then sparse_state_root_v5 state
        else none
