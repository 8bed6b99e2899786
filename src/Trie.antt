-- ===== src/Trie.antt =====
-- What the program calls of alloy-trie and alloy-rlp on account leaves: a parameter of the model.
use zkdeal_prover.Prelude.{ℕ, Bool, Option, List, not, is_empty, ◌∷◌, [], length, ◌+◌}
use zkdeal_prover.StfTypes.Scalars.{Address, B256, U256, Bytes}

-- The fields of alloy-trie's account leaf.
pub record TrieAccount : Type 0 where
  pub nonce : ℕ
  pub balance : U256
  pub storage_root : B256
  pub code_hash : B256

-- The encodings of an account leaf and of a word, the nibbles of a key, the test of a Merkle-Patricia
-- proof against a root, the roots of an empty trie, of the words of an account and of the accounts of
-- a state. Nothing is assumed of them.
pub record Trie : Type 0 where
  pub encode_account : TrieAccount → Bytes
  pub encode_word : U256 → Bytes
  pub unpack : B256 → Bytes
  pub verify_proof : B256 → Bytes → Option Bytes → List Bytes → Bool
  pub empty_root_hash : B256
  pub storage_root_unhashed : List (U256 × U256) → B256
  pub state_root_unhashed : List (Address × TrieAccount) → B256

-- A trie for tests, for which every proof with a node is one, and a root counts its leaves.
abbrev pub sample_trie : Trie
sample_trie = record {
  encode_account = λ account. account.nonce ∷ [];
  encode_word = λ value. value ∷ [];
  unpack = λ key. key ∷ [];
  verify_proof = λ root key expected proof. not (is_empty proof);
  empty_root_hash = 1;
  storage_root_unhashed = λ words. 2 + length words;
  state_root_unhashed = λ accounts. 100 + length accounts;
}
