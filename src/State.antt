-- ===== src/State.antt =====
-- The room-local state of zkvm/crates/stf-core/src/db: its records, with the operations of mod.rs in
-- Install, the reads and the commit of evm.rs in Read and Commit, the roots of roots.rs in Roots. Of
-- `StateMap` only the access counters are left out, which are telemetry.
pub mod Install
pub mod Read
pub mod Commit
pub mod Prepared
pub mod Roots
mod Tests
pub mod Canonical
use zkdeal_prover.Prelude.{
  ℕ, Bool, true, false, ◌&&◌, not, Option, none, some, List, [], ◌∷◌, ◌==◌, if◌then◌else◌, contains,
  is_empty, is_some_and,
}
use zkdeal_prover.Prelude.Map.{Map, lookup}
use zkdeal_prover.StfTypes.Scalars.{Address, B256, U256, Bytes}
use zkdeal_prover.StfTypes.Abi.{Keccak}

pub record AccountRecord : Type 0 where
  pub nonce : ℕ
  pub balance : U256
  pub code : Bytes
  pub storage : Map U256

-- `AccountRecord::default()`
abbrev pub default_account : AccountRecord
default_account = record { nonce = 0; balance = 0; code = []; storage = [] }

pub data StfDbError : Type 0 where
  undeclared_account : Address → StfDbError
  undeclared_storage : Address → U256 → StfDbError

pub record StateMap : Type 0 where
  pub accounts : Map AccountRecord
  pub block_hashes : Map B256
  pub access_accounts : Option (List Address)
  pub access_storage : Option (Map (List U256))
  pub access_violation : Option StfDbError
  -- revm's analysed bytecode stands for the bytes that it was made of.
  pub prepared_code : Map Bytes
  pub prepared_code_addresses : Map B256

-- The test by which a declared storage envelope refuses an access: the envelope exists, and lacks
-- the account or the slot.
abbrev pub outside_envelope : StateMap → Address → U256 → Bool
outside_envelope state address slot =
    is_some_and state.access_storage
      (λ allowed. not (is_some_and (lookup address allowed) (λ slots. contains slot slots)))

-- `accounts.get(&address).and_then(|account| account.storage.get(&slot)).unwrap_or_default()`
abbrev pub word_at : Option U256 → U256
word_at none = 0
word_at (some word) = word

abbrev pub stored_word : Option AccountRecord → U256 → U256
stored_word none slot = 0
stored_word (some account) slot = word_at (lookup slot account.storage)

-- `accounts.entry(address).or_default()` reads the account, or the empty one.
abbrev pub account_or_default : Option AccountRecord → AccountRecord
account_or_default none = default_account
account_or_default (some account) = account

-- `==` on bytes.
unfoldable pub same_bytes : Bytes → Bytes → Bool
same_bytes [] [] = true
same_bytes [] (b ∷ bs) = false
same_bytes (a ∷ as') [] = false
same_bytes (a ∷ as') (b ∷ bs) = a == b && same_bytes as' bs

-- `AccountRecord::is_empty`
abbrev pub is_empty_account : AccountRecord → Bool
is_empty_account account =
    account.nonce == 0 && account.balance == 0 && is_empty account.code && is_empty account.storage

-- `AccountRecord::code_hash`; KECCAK_EMPTY is the digest of no bytes.
unfoldable pub code_hash : ⦃keccak : Keccak⦄ → AccountRecord → B256
code_hash ⦃keccak⦄ account =
    if is_empty account.code then keccak.keccak256 [] else keccak.keccak256 account.code
