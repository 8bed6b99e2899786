-- ===== src/State/Canonical.antt =====
-- Canonical states, those that a state root commits to: every commit of the EVM keeps them canonical.
pub mod RoundTrip
use mathlib.Core.Path.{subst}
use zkdeal_prover.Prelude.{
  ℕ, ◌≡◌, ◌≢◌, ◌<◌, refl, Bool, true, false, not, ◌&&◌, Option, none, some, List, [], ◌∷◌, ltb,
  ◌==◌, ◌!=◌, if◌then◌else◌, arith, is_empty, is_some_and, Bool-cases, inl, inr, Option-cases,
}
use zkdeal_prover.Prelude.Map.{
  Map, lookup, insert, remove, IsAscending, insert-IsAscending, remove-IsAscending,
}
use zkdeal_prover.StfTypes.Scalars.{Address, U256}
use zkdeal_prover.StfTypes.Abi.{Keccak}
use zkdeal_prover.State.{
  AccountRecord, StfDbError, StateMap, default_account, account_or_default, is_empty_account,
}
use zkdeal_prover.State.Commit.{
  Account, latch_account, merge_storage, merge_account, drop_account, keep_account, commit_account,
  commit,
}

-- No word of the map is zero.
abbrev pub IsNonZero : Map U256 → Type 0
IsNonZero [] = Unit
IsNonZero ((slot, value) ∷ storage) = (value ≢ 0) × IsNonZero storage

abbrev pub IsCanonicalAccount : AccountRecord → Type 0
IsCanonicalAccount account =
    (is_empty_account account ≡ false) × IsAscending account.storage × IsNonZero account.storage

abbrev pub AreCanonical : Map AccountRecord → Type 0
AreCanonical [] = Unit
AreCanonical ((address, account) ∷ accounts) = IsCanonicalAccount account × AreCanonical accounts

-- The addresses ascend, no account is empty, and each storage map has ascending slots and no zero word.
abbrev pub IsCanonical : StateMap → Type 0
IsCanonical state = IsAscending state.accounts × AreCanonical state.accounts

pub insert-IsNonZero :
    (slot value : ℕ) (storage : Map U256)
    → value ≢ 0
    → IsNonZero storage
    → IsNonZero (insert slot value storage)
unfolding insert
insert-IsNonZero slot value [] v h = (v, tt)
insert-IsNonZero slot value ((k, w) ∷ storage) v h =
    ground (arith, insert-IsNonZero slot value storage v h.1)

remove-IsNonZero :
    (slot : ℕ) (storage : Map U256) → IsNonZero storage → IsNonZero (remove slot storage)
unfolding remove
remove-IsNonZero slot [] h = tt
remove-IsNonZero slot ((k, w) ∷ storage) h = ground (arith, remove-IsNonZero slot storage h.1)

pub insert-AreCanonical :
    (a : Address) (account : AccountRecord) (accounts : Map AccountRecord)
    → IsCanonicalAccount account
    → AreCanonical accounts
    → AreCanonical (insert a account accounts)
unfolding insert
insert-AreCanonical a account [] c h = (c, tt)
insert-AreCanonical a account ((k, other) ∷ accounts) c h = elim (Bool-cases (ltb a k)) [
  | inl below ↦ rw below (c, h)
  | inr above ↦ elim (Bool-cases (k == a)) [
    | inl same ↦ rw (above, same) (c, h.1)
    | inr other ↦ rw (above, other) (h.0, insert-AreCanonical a account accounts c h.1)
  ]
]

remove-AreCanonical :
    (a : Address) (accounts : Map AccountRecord)
    → AreCanonical accounts
    → AreCanonical (remove a accounts)
unfolding remove
remove-AreCanonical a [] h = tt
remove-AreCanonical a ((k, other) ∷ accounts) h = elim (Bool-cases (k == a)) [
  | inl same ↦ rw same h.1
  | inr other' ↦ rw other' (h.0, remove-AreCanonical a accounts h.1)
]

lookup-AreCanonical :
    (a : Address) (account : AccountRecord) (accounts : Map AccountRecord)
    → AreCanonical accounts
    → lookup a accounts ≡ some account
    → IsAscending account.storage × IsNonZero account.storage
unfolding lookup
lookup-AreCanonical a account [] h e = cc
lookup-AreCanonical a account ((k, other) ∷ accounts) h e = elim (Bool-cases (k == a)) [
  | inl same ↦
      let found : other ≡ account = ground arith in
      subst (λ (r : AccountRecord). IsAscending r.storage × IsNonZero r.storage) found
        (h.0.1, h.0.2)
  | inr other' ↦ lookup-AreCanonical a account accounts h.1 (ground arith)
]

-- What a merge writes, it writes in order and without zeros.
merge_storage-IsAscending :
    (words : List (U256 × U256)) (storage : Map U256)
    → IsAscending storage
    → IsNonZero storage
    → IsAscending (merge_storage words storage) × IsNonZero (merge_storage words storage)
unfolding merge_storage
merge_storage-IsAscending [] storage a n = (a, n)
merge_storage-IsAscending ((slot, value) ∷ words) storage a n = elim (Bool-cases (value == 0)) [
  | inl zero' ↦ rw zero' (
      merge_storage-IsAscending words (remove slot storage) (remove-IsAscending slot storage a)
        (remove-IsNonZero slot storage n))
  | inr other ↦ rw other (
      merge_storage-IsAscending words (insert slot value storage)
        (insert-IsAscending slot value storage a)
        (insert-IsNonZero slot value storage (ground arith) n))
]

-- The storage that a change is merged into.
merge_base :
    (a : Address) (state : StateMap) (created : Bool)
    → AreCanonical state.accounts
    → let before = account_or_default (lookup a state.accounts) in
      let base = if created then [] else before.storage in IsAscending base × IsNonZero base
merge_base a state true h = (tt, tt)
merge_base a state false h = elim (Option-cases (lookup a state.accounts)) [
  | inl absent ↦ rw absent (tt, tt)
  | inr (account, found) ↦ rw found (lookup-AreCanonical a account state.accounts h found)
]

module _ ⦃keccak : Keccak⦄ where
  merged-IsCanonicalAccount :
      (a : Address) (account : Account) (state : StateMap)
      → AreCanonical state.accounts
      → let merged = merge_account account (account_or_default (lookup a state.accounts)) in
        is_empty_account merged ≡ false → IsCanonicalAccount merged
  unfolding merge_account
  merged-IsCanonicalAccount a account state h kept =
      let base = merge_base a state account.is_created h in
      let storage =
        merge_storage-IsAscending account.storage
          (if account.is_created
            then []
            else (account_or_default (lookup a state.accounts)).storage)
          base.0 base.1 in
      (kept, storage.0, storage.1)

  -- Both ways to delete.
  drop_account-IsCanonical :
      (a : Address) (violation : Option StfDbError) (state : StateMap)
      → IsCanonical state
      → IsCanonical (drop_account state a violation)
  unfolding drop_account
  drop_account-IsCanonical a violation state h =
      (remove-IsAscending a state.accounts h.0, remove-AreCanonical a state.accounts h.1)

  pub commit_account-IsCanonical :
      (a : Address) (account : Account) (state : StateMap)
      → IsCanonical state
      → IsCanonical (commit_account state a account)
  unfolding commit_account keep_account
  commit_account-IsCanonical a account state h =
      let merged = merge_account account (account_or_default (lookup a state.accounts)) in
      elim (Bool-cases account.is_touched) [
        | inr untouched ↦ rw untouched h
        | inl touched ↦ elim (Bool-cases account.is_selfdestructed) [
          | inl gone ↦
              rw (touched, gone)
                (drop_account-IsCanonical a (latch_account state a account) state h)
          | inr alive ↦ elim (Bool-cases (is_empty_account merged)) [
            | inl empty ↦
                rw (touched, alive, empty)
                  (drop_account-IsCanonical a (latch_account state a account) state h)
            | inr kept ↦
                rw (touched, alive, kept)
                  (
                    insert-IsAscending a merged state.accounts h.0,
                    insert-AreCanonical a merged state.accounts
                        (merged-IsCanonicalAccount a account state h.1 kept) h.1,
                  )
          ]
        ]
      ]

  -- Whatever the EVM commits, a canonical state stays canonical: the addresses ascend, no account is
  -- empty, and each storage map has ascending slots and no zero word.
  pub commit-IsCanonical :
      (state : StateMap) (changes : List (Address × Account))
      → IsCanonical state
      → IsCanonical (commit state changes)
  unfolding commit
  commit-IsCanonical state [] h = h
  commit-IsCanonical state ((a, account) ∷ changes) h =
      commit-IsCanonical (commit_account state a account) changes
        (commit_account-IsCanonical a account state h)
