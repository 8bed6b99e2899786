-- ===== src/Compact.antt =====
-- Authentication of the compact state witness: zkvm/crates/stf-core/src/compact.rs. A `usize` is taken
-- to be 64 bits wide.
pub mod Accepted
mod Tests
use zkdeal_prover.Prelude.{
  ℕ, Bool, true, false, not, ◌&&◌, ◌||◌, Option, none, some, List, [], ◌∷◌, ◌++◌, ltb, leb, ◌==◌,
  ◌!=◌, if◌then◌else◌, is_some_and, is_empty, length, any, set_insert, Result, ok, err, ◌>>=◌, ◌>>◌,
  reject_if, ok_or,
}
use zkdeal_prover.Prelude.Map.{Map, insert}
use zkdeal_prover.Words.{checked_add_u64, be_bytes}
use zkdeal_prover.StfTypes.Scalars.{Address, B256, U256, Bytes}
use zkdeal_prover.StfTypes.Limits.{
  max_compact_accounts_v4, max_compact_code_bytes_v4, max_compact_proof_nodes_v4,
  max_compact_storage_slots_v4,
}
use zkdeal_prover.StfTypes.Abi.{Keccak}
use zkdeal_prover.StfTypes.Compact.{
  CompactStorageWitnessV4, CompactAccountWitnessV4, CompactStateWitnessV4,
}
use zkdeal_prover.Trie.{TrieAccount, Trie}
use zkdeal_prover.State.{AccountRecord, StateMap}
use zkdeal_prover.State.Install.{from_compact}

pub data CompactRefusal : Type 0 where
  too_many_accounts accounts_unsorted code_bytes_overflow storage_count_overflow : CompactRefusal
  proof_count_overflow envelope_exceeded proof_node_too_large proofs_smuggled : CompactRefusal
  empty_account_present excluded_account_not_empty account_proof_invalid slots_unsorted :
      CompactRefusal
  storage_proof_invalid : CompactRefusal

-- What the loop over the accounts carries.
pub record Progress : Type 0 where
  pub records : Map AccountRecord
  pub allowed_accounts : List Address
  pub allowed_storage : Map (List U256)
  pub storage_count : ℕ
  pub proof_count : ℕ
  pub code_bytes : ℕ
  pub previous_address : Option Address

-- The sum over the proofs of the slots, from `sum` on.
unfoldable pub count_proofs : ℕ → List CompactStorageWitnessV4 → Option ℕ
count_proofs sum [] = some sum
count_proofs sum (slot ∷ slots) = elim (checked_add_u64 sum (length slot.proof)) [
  | none ↦ none
  | some next ↦ count_proofs next slots
]

unfoldable pub count_account_proofs : ℕ → CompactAccountWitnessV4 → Option ℕ
unfolding count_proofs
count_account_proofs count account = elim (checked_add_u64 count (length account.account_proof)) [
  | none ↦ none
  | some next ↦ count_proofs next account.storage
]

abbrev pub has_large_node : List Bytes → Bool
has_large_node proof = any (λ (node : Bytes). ltb 1024 (length node)) proof

-- Whether the account or one of its slots has a proof.
abbrev pub has_proofs : CompactAccountWitnessV4 → Bool
has_proofs account =
    not (is_empty account.account_proof)
    || any (λ (slot : CompactStorageWitnessV4). not (is_empty slot.proof)) account.storage

-- The counters of the loop, for one more account.
unfoldable pub count_account : CompactAccountWitnessV4 → Progress → Result CompactRefusal Progress
unfolding count_account_proofs
count_account account progress = do
  code_bytes ← ok_or (checked_add_u64 progress.code_bytes (length account.code)) code_bytes_overflow
  storage_count ←
      ok_or (checked_add_u64 progress.storage_count (length account.storage)) storage_count_overflow
  proof_count ← ok_or (count_account_proofs progress.proof_count account) proof_count_overflow
  reject_if
      (ltb max_compact_storage_slots_v4 storage_count
        || ltb max_compact_proof_nodes_v4 proof_count
        || ltb max_compact_code_bytes_v4 code_bytes)
      envelope_exceeded
  ok (record progress {
    storage_count = storage_count;
    proof_count = proof_count;
    code_bytes = code_bytes;
    previous_address = some account.address;
  })

-- What the slots of an account come to: all of them, and the words that are not zero.
pub record Slots : Type 0 where
  pub slots : List U256
  pub storage : Map U256

-- What an account adds to the state and to its envelope.
unfoldable pub add_account : CompactAccountWitnessV4 → Slots → Progress → Progress
add_account account collected progress = record progress {
  records =
      if account.exists
      then insert account.address
          (record {
            nonce = account.nonce;
            balance = account.balance;
            code = account.code;
            storage = collected.storage;
          })
          progress.records
      else progress.records;
  allowed_accounts = set_insert account.address progress.allowed_accounts;
  allowed_storage = insert account.address collected.slots progress.allowed_storage;
}

module _ ⦃keccak : Keccak⦄ (trie : Trie) where
  -- The leaf that an account must have, none for an excluded one.
  unfoldable pub account_value : CompactAccountWitnessV4 → Result CompactRefusal (Option Bytes)
  account_value account =
      if account.exists
      then (do
        reject_if (account.nonce == 0 && account.balance == 0 && is_empty account.code)
            empty_account_present
        ok (
            some (
              trie.encode_account (record {
                nonce = account.nonce;
                balance = account.balance;
                storage_root = account.canonical_storage_root;
                code_hash =
                    if is_empty account.code
                    then keccak.keccak256 []
                    else keccak.keccak256 account.code;
              }))))
      else do
        reject_if
            (account.nonce != 0
              || account.balance != 0
              || not (is_empty account.code)
              || not (is_empty account.storage)
              || account.canonical_storage_root != trie.empty_root_hash)
            excluded_account_not_empty
        ok none

  -- The leaf that a slot must have.
  abbrev pub slot_value : CompactStorageWitnessV4 → Option Bytes
  slot_value slot = if slot.value == 0 then none else some (trie.encode_word slot.value)

  unfoldable pub is_slot_proved : B256 → CompactStorageWitnessV4 → Bool
  is_slot_proved root slot =
      trie.verify_proof root (trie.unpack (keccak.keccak256 (be_bytes 32 slot.slot)))
        (slot_value slot) slot.proof

  -- The loop over the slots of an account, with the slot before.
  unfoldable pub collect_slots :
      Bool → B256 → List CompactStorageWitnessV4 → Option U256 → Slots → Result CompactRefusal Slots
  unfolding is_slot_proved
  collect_slots canonical root [] previous collected = ok collected
  collect_slots canonical root (slot ∷ slots) previous collected = do
    reject_if (is_some_and previous (λ before. leb slot.slot before)) slots_unsorted
    reject_if (canonical && not (is_slot_proved root slot)) storage_proof_invalid
    collect_slots canonical root slots (some slot.slot) (record {
      slots = set_insert slot.slot collected.slots;
      storage =
          if slot.value == 0
          then collected.storage
          else insert slot.slot slot.value collected.storage;
    })

  unfoldable pub is_account_proved : B256 → CompactAccountWitnessV4 → Option Bytes → Bool
  is_account_proved root account value =
      trie.verify_proof root (trie.unpack (keccak.keccak256 (be_bytes 20 account.address))) value
        account.account_proof

  -- One round of the loop over the accounts; `root` is the canonical root, or zero.
  unfoldable pub verify_account :
      B256 → CompactAccountWitnessV4 → Progress → Result CompactRefusal Progress
  unfolding count_account account_value collect_slots is_account_proved add_account
  verify_account root account progress = do
    reject_if (is_some_and progress.previous_address (λ before. leb account.address before))
        accounts_unsorted
    counted ← count_account account progress
    reject_if
        (has_large_node account.account_proof
          || any (λ (slot : CompactStorageWitnessV4). has_large_node slot.proof) account.storage)
        proof_node_too_large
    reject_if (root == 0 && has_proofs account) proofs_smuggled
    value ← account_value account
    reject_if (root != 0 && not (is_account_proved root account value)) account_proof_invalid
    collected ←
        collect_slots (root != 0) account.canonical_storage_root account.storage none
          (record { slots = []; storage = [] })
    ok (add_account account collected counted)

  unfoldable pub verify_accounts :
      B256 → List CompactAccountWitnessV4 → Progress → Result CompactRefusal Progress
  unfolding verify_account
  verify_accounts root [] progress = ok progress
  verify_accounts root (account ∷ accounts) progress = do
    next ← verify_account root account progress
    verify_accounts root accounts next

  unfoldable pub verify_compact_state_v4 : CompactStateWitnessV4 → Result CompactRefusal StateMap
  unfolding verify_accounts
  verify_compact_state_v4 witness = do
    reject_if (ltb max_compact_accounts_v4 (length witness.accounts)) too_many_accounts
    done ← verify_accounts witness.canonical_state_root witness.accounts (record {
      records = [];
      allowed_accounts = [];
      allowed_storage = [];
      storage_count = 0;
      proof_count = 0;
      code_bytes = 0;
      previous_address = none;
    })
    ok (from_compact done.records done.allowed_accounts done.allowed_storage)
