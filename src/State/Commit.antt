-- ===== src/State/Commit.antt =====
-- What the EVM writes to the state: `DatabaseCommit` for `StateMap` in
-- zkvm/crates/stf-core/src/db/evm.rs. The access counters are left out.
pub mod Order
pub mod Envelope
use zkdeal_prover.Prelude.{
  ℕ, Bool, true, false, not, Option, none, some, List, [], ◌∷◌, ◌==◌, ◌!=◌, if◌then◌else◌, contains,
  is_some_and, is_empty,
}
use zkdeal_prover.Prelude.Map.{Map, lookup, insert, remove}
use zkdeal_prover.StfTypes.Scalars.{Address, B256, U256, Bytes}
use zkdeal_prover.StfTypes.Abi.{Keccak}
use zkdeal_prover.State.{
  AccountRecord, StfDbError, undeclared_account, undeclared_storage, StateMap, outside_envelope,
  account_or_default, is_empty_account, code_hash,
}
use zkdeal_prover.State.Read.{AccountInfo, is_undeclared}

-- revm's Account: its status flags, the new values, and the present value of each slot it holds.
pub record Account : Type 0 where
  pub is_touched : Bool
  pub is_selfdestructed : Bool
  pub is_created : Bool
  pub info : AccountInfo
  pub storage : List (U256 × U256)

-- `access_violation.get_or_insert(..)`
abbrev pub latch : Bool → StfDbError → Option StfDbError → Option StfDbError
latch false error violation = violation
latch true error (some first) = some first
latch true error none = some error

-- The loop over the keys of a change.
unfoldable pub latch_storage :
    StateMap → Address → List (U256 × U256) → Option StfDbError → Option StfDbError
latch_storage state address [] violation = violation
latch_storage state address ((slot, value) ∷ words) violation =
    latch_storage state address words
      (latch (outside_envelope state address slot) (undeclared_storage address slot) violation)

unfoldable pub latch_account : StateMap → Address → Account → Option StfDbError
unfolding latch_storage
latch_account state address account =
    latch_storage state address account.storage
      (latch (is_undeclared state address) (undeclared_account address) state.access_violation)

-- The loop over the slots that are written.
unfoldable pub merge_storage : List (U256 × U256) → Map U256 → Map U256
merge_storage [] storage = storage
merge_storage ((slot, value) ∷ words) storage =
    merge_storage words (if value == 0 then remove slot storage else insert slot value storage)

module _ ⦃keccak : Keccak⦄ where
  -- The code of the record: new code that is not empty, else none when the hash says so.
  unfoldable pub merge_code : AccountInfo → Bytes → Bytes
  merge_code info code =
      let kept = if info.code_hash == keccak.keccak256 [] then [] else code in
      elim info.code [ none ↦ kept | some new ↦ if is_empty new then kept else new ]

  unfoldable pub merge_account : Account → AccountRecord → AccountRecord
  unfolding merge_storage merge_code
  merge_account account before = record {
    nonce = account.info.nonce;
    balance = account.info.balance;
    code = merge_code account.info before.code;
    storage = merge_storage account.storage (if account.is_created then [] else before.storage);
  }

  -- The account is gone.
  unfoldable pub drop_account : StateMap → Address → Option StfDbError → StateMap
  drop_account state address violation = record state {
    accounts = remove address state.accounts;
    access_violation = violation;
    prepared_code_addresses = remove address state.prepared_code_addresses;
  }

  -- The account is written; a prepared address whose code changed is forgotten.
  unfoldable pub keep_account : StateMap → Address → Option StfDbError → AccountRecord → StateMap
  keep_account state address violation merged = record state {
    accounts = insert address merged state.accounts;
    access_violation = violation;
    prepared_code_addresses =
        if is_some_and (lookup address state.prepared_code_addresses)
          (λ expected. code_hash merged != expected)
        then remove address state.prepared_code_addresses
        else state.prepared_code_addresses;
  }

  -- One round of the loop.
  unfoldable pub commit_account : StateMap → Address → Account → StateMap
  unfolding latch_account merge_account drop_account keep_account
  commit_account state address account =
      let violation = latch_account state address account in
      let merged = merge_account account (account_or_default (lookup address state.accounts)) in
      if not account.is_touched
      then state
      else if account.is_selfdestructed
      then drop_account state address violation
      else if is_empty_account merged
      then drop_account state address violation
      else keep_account state address violation merged

  -- The changes come out of a hash map, so their order is any one, and no address comes twice.
  unfoldable pub commit : StateMap → List (Address × Account) → StateMap
  unfolding commit_account
  commit state [] = state
  commit state ((address, account) ∷ changes) =
      commit (commit_account state address account) changes
