-- ===== src/State/Read.antt =====
-- What the EVM reads of the state: `Database` for `StateMap` in zkvm/crates/stf-core/src/db/evm.rs.
-- The access counters that each read bumps are left out.
use zkdeal_prover.Prelude.{
  ℕ, Bool, not, Option, none, some, [], ◌∷◌, ◌==◌, ◌&&◌, if◌then◌else◌, contains, is_some_and,
  is_empty, Result, ok, ◌>>◌, reject_if,
}
use zkdeal_prover.Prelude.Map.{Map, lookup}
use zkdeal_prover.StfTypes.Scalars.{Address, B256, U256, Bytes}
use zkdeal_prover.StfTypes.Abi.{Keccak}
use zkdeal_prover.State.{
  AccountRecord, StfDbError, undeclared_account, undeclared_storage, StateMap, outside_envelope,
  word_at, stored_word, code_hash, same_bytes,
}

-- revm's AccountInfo; the bytecode stands for its original bytes.
pub record AccountInfo : Type 0 where
  pub balance : U256
  pub nonce : ℕ
  pub code_hash : B256
  pub code : Option Bytes

-- `.is_some_and(|allowed| !allowed.contains(&address))`
abbrev pub is_undeclared : StateMap → Address → Bool
is_undeclared state address =
    is_some_and state.access_accounts (λ allowed. not (contains address allowed))

-- The bytecode that is cached under the hash of the account, when it is made of the account's bytes.
unfoldable pub prepared_under : StateMap → AccountRecord → B256 → Option (B256 × Bytes)
prepared_under state account hash = elim (lookup hash state.prepared_code) [
  | none ↦ none
  | some bytecode ↦ if same_bytes bytecode account.code then some (hash, bytecode) else none
]

unfoldable pub validated_prepared_code : StateMap → Address → AccountRecord → Option (B256 × Bytes)
unfolding prepared_under
validated_prepared_code state address account =
    elim (lookup address state.prepared_code_addresses) [
      | none ↦ none
      | some hash ↦ prepared_under state account hash
    ]

module _ ⦃keccak : Keccak⦄ where
  -- The hash and the code that are served for an account.
  unfoldable pub served_hash : Option (B256 × Bytes) → AccountRecord → B256
  served_hash none account = code_hash account
  served_hash (some prepared) account = prepared.0

  unfoldable pub served_code : Option (B256 × Bytes) → AccountRecord → Bytes
  served_code none account = account.code
  served_code (some prepared) account = prepared.1

  unfoldable pub info_of : StateMap → Address → AccountRecord → AccountInfo
  unfolding served_hash served_code
  info_of state address account =
      let prepared = validated_prepared_code state address account in
      record {
        balance = account.balance;
        nonce = account.nonce;
        code_hash = served_hash prepared account;
        code = some (served_code prepared account);
      }

  unfoldable pub basic : StateMap → Address → Result StfDbError (Option AccountInfo)
  unfolding info_of
  basic state address = do
    reject_if (is_undeclared state address) (undeclared_account address)
    ok (elim (lookup address state.accounts) [
      | none ↦ none
      | some account ↦ some (info_of state address account)
    ])

  -- The loop over the accounts for code with the hash; no code is the default bytecode.
  unfoldable pub find_code : Map AccountRecord → B256 → Bytes
  find_code [] hash = []
  find_code ((address, account) ∷ accounts) hash =
      if not (is_empty account.code) && code_hash account == hash
      then account.code
      else find_code accounts hash

  unfoldable pub code_by_hash : StateMap → B256 → Result StfDbError Bytes
  unfolding find_code
  code_by_hash state hash = ok (elim (lookup hash state.prepared_code) [
    | none ↦ find_code state.accounts hash
    | some code ↦ code
  ])

unfoldable pub storage : StateMap → Address → U256 → Result StfDbError U256
storage state address index = do
  reject_if (outside_envelope state address index) (undeclared_storage address index)
  ok (stored_word (lookup address state.accounts) index)

unfoldable pub block_hash : StateMap → ℕ → Result StfDbError B256
block_hash state number = ok (word_at (lookup number state.block_hashes))
