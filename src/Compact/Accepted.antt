-- ===== src/Compact/Accepted.antt =====
-- What an accepted witness gives: a canonical state.
use mathlib.Core.Path.{subst}
use zkdeal_prover.Prelude.{
  set_insert, ◌≡◌, Bool, true, false, Option, none, some, List, [], ◌∷◌, ◌==◌, ◌!=◌, arith, ok,
  Bool-cases, Result-cases, inl, inr,
}
use zkdeal_prover.Prelude.Map.{Map, insert, IsAscending, insert-IsAscending}
use zkdeal_prover.StfTypes.Scalars.{B256, U256, Bytes}
use zkdeal_prover.StfTypes.Abi.{Keccak}
use zkdeal_prover.StfTypes.Compact.{
  CompactStorageWitnessV4, CompactAccountWitnessV4, CompactStateWitnessV4,
}
use zkdeal_prover.Trie.{Trie}
use zkdeal_prover.State.{AccountRecord, StateMap, is_empty_account}
use zkdeal_prover.State.Install.{from_compact}
use zkdeal_prover.State.Canonical.{
  IsNonZero, AreCanonical, IsCanonical, insert-IsNonZero, insert-AreCanonical,
}
use zkdeal_prover.Compact.{
  Progress, Slots, count_account, account_value, collect_slots, add_account, verify_account,
  verify_accounts, verify_compact_state_v4,
}

abbrev IsOrdered : Progress → Type 0
IsOrdered progress = IsAscending progress.records × AreCanonical progress.records

module _ ⦃keccak : Keccak⦄ (trie : Trie) where
  collect_slots-IsNonZero :
      (canonical : Bool) (root : B256) (slots : List CompactStorageWitnessV4)
      (previous : Option U256) (before after : Slots)
      → collect_slots trie canonical root slots previous before ≡ ok after
      → IsAscending before.storage
      → IsNonZero before.storage
      → IsAscending after.storage × IsNonZero after.storage
  unfolding collect_slots
  collect_slots-IsNonZero canonical root [] previous before after h a n =
      let same : before ≡ after = ground arith in
      subst (λ (s : Slots). IsAscending s.storage × IsNonZero s.storage) same (a, n)
  collect_slots-IsNonZero canonical root (slot ∷ slots) previous before after h a n =
      elim (Bool-cases (slot.value == 0)) [
        | inl empty ↦
            collect_slots-IsNonZero canonical root slots (some slot.slot)
              (record { slots = set_insert slot.slot before.slots; storage = before.storage }) after
              (ground arith) a n
        | inr full ↦
            collect_slots-IsNonZero canonical root slots (some slot.slot)
              (record {
                slots = set_insert slot.slot before.slots;
                storage = insert slot.slot slot.value before.storage;
              })
              after (ground arith) (insert-IsAscending slot.slot slot.value before.storage a)
              (insert-IsNonZero slot.slot slot.value before.storage (ground arith) n)
      ]

  -- An account that exists and is taken is not empty.
  account_value-is_empty :
      (account : CompactAccountWitnessV4) (storage : Map U256) (value : Option Bytes)
      → account_value trie account ≡ ok value
      → account.exists ≡ true
      → is_empty_account (record {
        nonce = account.nonce;
        balance = account.balance;
        code = account.code;
        storage = storage;
      })
        ≡ false
  unfolding account_value
  account_value-is_empty account storage value h e = ground arith

  add_account-IsOrdered :
      (account : CompactAccountWitnessV4) (collected : Slots) (progress : Progress)
      (value : Option Bytes)
      → account_value trie account ≡ ok value
      → IsAscending collected.storage
      → IsNonZero collected.storage
      → IsOrdered progress
      → IsOrdered (add_account account collected progress)
  unfolding add_account
  add_account-IsOrdered account collected progress value h a n o =
      elim (Bool-cases account.exists) [
        | inr absent ↦ rw absent o
        | inl present ↦
            let added : AccountRecord = record {
              nonce = account.nonce;
              balance = account.balance;
              code = account.code;
              storage = collected.storage;
            } in
            rw present (
              insert-IsAscending account.address added progress.records o.0,
              insert-AreCanonical account.address added progress.records
                  (account_value-is_empty account collected.storage value h present, a, n) o.1,
            )
      ]

  verify_account-IsOrdered :
      (root : B256) (account : CompactAccountWitnessV4) (before after : Progress)
      → verify_account trie root account before ≡ ok after
      → IsOrdered before
      → IsOrdered after
  unfolding verify_account count_account
  verify_account-IsOrdered root account before after h o =
      elim (Result-cases (count_account account before)) [
        | inr (refusal, failed) ↦ absurd (ground arith)
        | inl (counted, done) ↦ elim (Result-cases (account_value trie account)) [
          | inr (refusal, failed) ↦ absurd (ground arith)
          | inl (value, leaf) ↦
              elim (Result-cases (
                collect_slots trie (root != 0) account.canonical_storage_root account.storage none
                  (record { slots = []; storage = [] }))) [
                    | inr (refusal, failed) ↦ absurd (ground arith)
                    | inl (collected, words) ↦
                        let ordered =
                          collect_slots-IsNonZero (root != 0) account.canonical_storage_root
                            account.storage none (record { slots = []; storage = [] }) collected
                            words tt tt in
                        let same : add_account account collected counted ≡ after = ground arith in
                        let kept : before.records ≡ counted.records = ground arith in
                        subst IsOrdered same (
                          add_account-IsOrdered account collected counted value leaf ordered.0
                            ordered.1
                            (subst (λ (m : Map AccountRecord). IsAscending m × AreCanonical m) kept
                              o))
                  ]
        ]
      ]

  verify_accounts-IsOrdered :
      (root : B256) (accounts : List CompactAccountWitnessV4) (before after : Progress)
      → verify_accounts trie root accounts before ≡ ok after
      → IsOrdered before
      → IsOrdered after
  unfolding verify_accounts
  verify_accounts-IsOrdered root [] before after h o =
      let same : before ≡ after = ground arith in subst IsOrdered same o
  verify_accounts-IsOrdered root (account ∷ accounts) before after h o =
      elim (Result-cases (verify_account trie root account before)) [
        | inr (refusal, failed) ↦ absurd (ground arith)
        | inl (next, done) ↦
            verify_accounts-IsOrdered root accounts next after (ground arith)
              (verify_account-IsOrdered root account before next done o)
      ]

  -- A witness that is accepted gives a canonical state: its addresses ascend, none of its accounts is
  -- empty, and each storage map has ascending slots and no zero word.
  pub verify_compact_state_v4-IsCanonical :
      (witness : CompactStateWitnessV4) (state : StateMap)
      → verify_compact_state_v4 trie witness ≡ ok state
      → IsCanonical state
  unfolding verify_compact_state_v4 from_compact
  verify_compact_state_v4-IsCanonical witness state h =
      let start : Progress = record {
        records = [];
        allowed_accounts = [];
        allowed_storage = [];
        storage_count = 0;
        proof_count = 0;
        code_bytes = 0;
        previous_address = none;
      } in
      elim (Result-cases
        (verify_accounts trie witness.canonical_state_root witness.accounts start)) [
          | inr (refusal, failed) ↦ absurd (ground arith)
          | inl (done, ran) ↦
              let same : done.records ≡ state.accounts = ground arith in
              subst (λ (m : Map AccountRecord). IsAscending m × AreCanonical m) same
                (verify_accounts-IsOrdered witness.canonical_state_root witness.accounts start done
                  ran (tt, tt))
        ]
