-- ===== src/State/Roots/Total.antt =====
-- The sparse state root is total: its trees fold to a single root.
use zkdeal_prover.Prelude.{
  Option-cases, Bool-cases, inl, inr, ℕ, ◌-◌, ◌^◌, ◌≤◌, ◌≡◌, refl, Bool, some, List, [], ◌∷◌, ◌++◌,
  ◌!=◌, arith, length, keep_if, replicate, length-append, length-replicate, length-map,
}
use zkdeal_prover.Prelude.Map.{Map}
use zkdeal_prover.Words.{next_power_of_two, be_bytes}
use zkdeal_prover.Words.Powers.{next_power_of_two_lem}
use zkdeal_prover.StfTypes.Levels.{pow_above, fold_levels-some}
use zkdeal_prover.StfTypes.Scalars.{Address, B256, U256, Bytes}
use zkdeal_prover.StfTypes.Abi.{Keccak, b256_bytes}
use zkdeal_prover.State.{AccountRecord, StateMap, is_empty_account}
use zkdeal_prover.State.Roots.{
  sparse_storage_leaf_tag, sparse_storage_tree_tag, sparse_account_tree_tag, stored_words,
  stored_accounts, sparse_node, padded, tree_root, sparse_storage_leaves, sparse_account_leaf,
  sparse_account_leaves, sparse_state_root_v5,
}

-- The storage of each account and the accounts themselves are few enough to round up on 64 bits.
abbrev pub IsBounded : Map AccountRecord → Type 0
IsBounded [] = Unit
IsBounded ((address, account) ∷ accounts) = (length account.storage ≤ 2 ^ 63) × IsBounded accounts

length-keep_if {ℓ} :
    {A : Type ℓ} (xs : List A) (test : A → Bool) → length (keep_if test xs) ≤ length xs
length-keep_if [] test = omega arith
length-keep_if (x ∷ xs) test = ground (arith, length-keep_if xs test)

module _ ⦃keccak : Keccak⦄ where
  padded_lem :
      (leaves : List B256) → length leaves ≤ 2 ^ 63 → (k : ℕ) × (length (padded leaves) ≡ 2 ^ k)
  unfolding padded
  padded_lem [] h = (0, refl)
  padded_lem (leaf ∷ leaves) h =
      let n = length (leaf ∷ leaves) in
      let (k, e, reached, tight) = next_power_of_two_lem n (omega arith) h in
      (
        k,
        omega (
          arith,
          length-append (leaf ∷ leaves) (replicate (next_power_of_two n - n) 0),
          length-replicate {A = ℕ} (next_power_of_two n - n) 0,
          e,
          reached,
        ),
      )

  tree_root-some :
      (tag : Bytes) (leaves : List B256)
      → length leaves ≤ 2 ^ 63
      → (root : B256) × (tree_root tag leaves ≡ some root)
  unfolding tree_root
  tree_root-some tag leaves h =
      let (k, e) = padded_lem leaves h in
      let (root, folded) =
        fold_levels-some (sparse_node tag) k (length (padded leaves)) (padded leaves) e
          (omega (arith, pow_above k, e)) in
      elim (Option-cases (tree_root tag leaves)) [
        | inl absent ↦ absurd (ground (arith, folded, absent))
        | inr found ↦ found
      ]

  few_leaves : (storage : Map U256) → length (sparse_storage_leaves storage) ≤ length storage
  unfolding sparse_storage_leaves
  few_leaves storage = omega (
    arith,
    length-map (stored_words storage) (λ (entry : U256 × U256). keccak.keccak256 (
        b256_bytes (keccak.keccak256 sparse_storage_leaf_tag)
        ++ (be_bytes 32 entry.0 ++ be_bytes 32 entry.1))),
    length-keep_if storage (λ (entry : U256 × U256). entry.1 != 0),
  )

  sparse_account_leaf-some :
      (address : Address) (account : AccountRecord)
      → length account.storage ≤ 2 ^ 63
      → (leaf : B256) × (sparse_account_leaf address account ≡ some leaf)
  unfolding sparse_account_leaf
  sparse_account_leaf-some address account h =
      let (root, folded) =
        tree_root-some sparse_storage_tree_tag (sparse_storage_leaves account.storage)
          (omega (arith, h, few_leaves account.storage)) in
      elim (Option-cases (sparse_account_leaf address account)) [
        | inl absent ↦ absurd (ground (arith, folded, absent))
        | inr found ↦ found
      ]

  sparse_account_leaves-some :
      (accounts : Map AccountRecord)
      → IsBounded accounts
      → (leaves : List B256) × (sparse_account_leaves (stored_accounts accounts) ≡ some leaves)
        × (length leaves ≤ length accounts)
  unfolding sparse_account_leaves
  sparse_account_leaves-some [] h = ([], refl, omega arith)
  sparse_account_leaves-some ((address, account) ∷ accounts) h =
      let (leaves, done, few) = sparse_account_leaves-some accounts h.1 in
      let (leaf, hashed) = sparse_account_leaf-some address account h.0 in
      elim (Bool-cases (is_empty_account account)) [
        | inl empty ↦ (leaves, ground (arith, empty, done), omega (arith, few))
        | inr kept ↦ (leaf ∷ leaves, ground (arith, kept, done, hashed), omega (arith, few))
      ]

  -- Every state has a sparse root: the trees of its storage and of its accounts fold to one leaf, when
  -- neither has more than 2^63 leaves.
  pub sparse_state_root_v5-some :
      (state : StateMap)
      → IsBounded state.accounts
      → length state.accounts ≤ 2 ^ 63
      → (root : B256) × (sparse_state_root_v5 state ≡ some root)
  unfolding sparse_state_root_v5
  sparse_state_root_v5-some state h few =
      let (leaves, done, fewer) = sparse_account_leaves-some state.accounts h in
      let (root, folded) =
        tree_root-some sparse_account_tree_tag leaves (omega (arith, few, fewer)) in
      elim (Option-cases (sparse_state_root_v5 state)) [
        | inl absent ↦ absurd (ground (arith, done, folded, absent))
        | inr found ↦ found
      ]
