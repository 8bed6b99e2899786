-- ===== src/Policy/FromV5/Unchanged.antt =====
-- What the post-state test of a resolved policy lets through.
use zkdeal_prover.Prelude.{
  ℕ, All, some, false, Bool-cases, Option-cases, inl, inr, ◌≡◌, refl, List, [], ◌∷◌, ◌++◌, arith,
  collect_set, ok,
}
use zkdeal_prover.Prelude.Map.{Map, lookup, amount_at}
use zkdeal_prover.StfTypes.Scalars.{Address, B256, U256}
use zkdeal_prover.StfTypes.Abi.{Keccak}
use zkdeal_prover.StfTypes.V5.{ExecutionPolicyV5}
use zkdeal_prover.State.{StateMap, AccountRecord, code_hash}
use zkdeal_prover.Policy.{StorageNamespace, ExecutionPolicyV4, is_writable}
use zkdeal_prover.Policy.Enforce.{
  keys, storage_of, storage_at, initial_storage, validate_slots, validate_storage, validate_pinned,
  validate_guards, validate_membership_state_guards, validate_post_state,
}
use zkdeal_prover.Policy.FromV5.{from_v5}
use zkdeal_prover.Policy.FromV5.Certified.{from_v5-validate_pinned, from_v5-Checks}

storage_at-initial_storage :
    (a : Address) (accounts : Map AccountRecord)
    → storage_at (lookup a (initial_storage accounts)) ≡ storage_of (lookup a accounts)
unfolding lookup
storage_at-initial_storage a [] = refl
storage_at-initial_storage a ((address, account) ∷ accounts) =
    ground (arith, storage_at-initial_storage a accounts)

-- No word outside the writable namespaces differs.
abbrev pub IsFramed : List StorageNamespace → StateMap → StateMap → Type 0
IsFramed namespaces state post =
    (a : Address) (s : U256)
    → is_writable namespaces a s ≡ false
    → amount_at s (storage_of (lookup a state.accounts))
      ≡ amount_at s (storage_of (lookup a post.accounts))

-- An account that is there keeps its code.
abbrev pub IsCodeKept : StateMap → StateMap → Address → Type 0
IsCodeKept state post a =
    (account : AccountRecord)
    → lookup a state.accounts ≡ some account
    → (later : AccountRecord) × (lookup a post.accounts ≡ some later) × (later.code ≡ account.code)

validate_slots-framed :
    (namespaces : List StorageNamespace) (address : Address) (before after : Map U256)
    (slots : List U256)
    → ((s : U256)
        → is_writable namespaces address s ≡ false
        → amount_at s before ≡ amount_at s after)
    → validate_slots namespaces address before after slots ≡ ok tt
unfolding validate_slots
validate_slots-framed namespaces address before after [] kept = refl
validate_slots-framed namespaces address before after (slot ∷ slots) kept =
    let rest = validate_slots-framed namespaces address before after slots kept in
    elim (Bool-cases (is_writable namespaces address slot)) [
      | inl writable ↦ ground (arith, writable, rest)
      | inr fixed ↦ ground (arith, kept slot fixed, rest)
    ]

validate_storage-framed :
    (namespaces : List StorageNamespace) (state post : StateMap) (addresses : List Address)
    → IsFramed namespaces state post
    → validate_storage namespaces (initial_storage state.accounts) post addresses ≡ ok tt
unfolding validate_storage
validate_storage-framed namespaces state post [] framed = refl
validate_storage-framed namespaces state post (address ∷ addresses) framed =
    let before = storage_of (lookup address state.accounts) in
    let after = storage_of (lookup address post.accounts) in
    rw (storage_at-initial_storage address state.accounts) (
      ground (
        arith,
        validate_slots-framed namespaces address before after
            (collect_set (keys before ++ keys after)) (framed address),
        validate_storage-framed namespaces state post addresses framed,
      ))

module _ ⦃keccak : Keccak⦄ where
  validate_pinned-kept :
      (code_hashes : Map B256) (state post : StateMap)
      → validate_pinned code_hashes state ≡ ok tt
      → All (λ (entry : ℕ × B256). IsCodeKept state post entry.0) code_hashes
      → validate_pinned code_hashes post ≡ ok tt
  unfolding validate_pinned code_hash
  validate_pinned-kept [] state post h kept = refl
  validate_pinned-kept ((address, expected) ∷ code_hashes) state post h kept =
      elim (Option-cases (lookup address state.accounts)) [
        | inl absent ↦ absurd (ground arith)
        | inr (account, found) ↦
            let (later, there, same) = kept.0 account found in
            let rest = validate_pinned-kept code_hashes state post (ground arith) kept.1 in
            ground (arith, there, same, rest)
      ]

-- A policy that is resolved against a state accepts every terminal state in which each pinned account
-- has the code that it had there, and each word outside the writable namespaces is the one from there,
-- when the members of the room do not change.
pub from_v5-validate_post_state :
    ⦃keccak : Keccak⦄ (policy : ExecutionPolicyV5) (expected_hash : B256)
    (active_members : List Address) (state post : StateMap) (resolved : ExecutionPolicyV4)
    → from_v5 policy expected_hash active_members state false ≡ ok resolved
    → All (λ (entry : ℕ × B256). IsCodeKept state post entry.0) resolved.code_hashes
    → IsFramed resolved.storage_namespaces state post
    → validate_post_state resolved (initial_storage state.accounts) post ≡ ok tt
unfolding validate_post_state validate_membership_state_guards validate_guards
from_v5-validate_post_state policy expected_hash active_members state post resolved accepted kept
      framed =
    let c = from_v5-Checks policy expected_hash active_members state false resolved accepted in
    let pinned =
      from_v5-validate_pinned policy expected_hash active_members state false resolved accepted in
    let code = validate_pinned-kept resolved.code_hashes state post pinned kept in
    let stored =
      validate_storage-framed resolved.storage_namespaces state post
        (collect_set (keys (initial_storage state.accounts) ++ keys post.accounts)) framed in
    ground (arith, code, stored, c.1, c.8)
