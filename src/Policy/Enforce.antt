-- ===== src/Policy/Enforce.antt =====
-- What the terminal state may look like: `validate_membership_state_guards` and `validate_post_state`
-- of zkvm/crates/stf-core/src/policy/enforce.rs.
pub mod Frame
use zkdeal_prover.Prelude.{
  ℕ, ◌/◌, ◌%◌, ◌^◌, Bool, true, false, not, ◌&&◌, Option, none, some, List, [], ◌∷◌, ◌++◌, map,
  ◌==◌, ◌!=◌, if◌then◌else◌, is_empty, contains, collect_set, Result, ok, err, ◌>>=◌, ◌>>◌,
  reject_if, ok_or,
}
use zkdeal_prover.Prelude.Map.{Map, lookup, amount_at}
use zkdeal_prover.StfTypes.Scalars.{Address, B256, U256}
use zkdeal_prover.StfTypes.Abi.{Keccak}
use zkdeal_prover.State.{StateMap, AccountRecord, code_hash, word_at, stored_word}
use zkdeal_prover.Policy.{
  PolicyRefusal, guard_contract_absent, membership_change_forbidden, pinned_account_disappeared,
  pinned_code_changed, storage_read_only, StorageNamespace, MembershipStateGuard, ExecutionPolicyV4,
  is_writable,
}

-- The field of a packed word that a guard reads.
unfoldable pub guarded_value : MembershipStateGuard → U256 → U256
guarded_value guard packed =
    let shifted = packed / 2 ^ guard.bit_offset in
    if guard.bit_width == 256 then shifted else shifted % 2 ^ guard.bit_width

unfoldable pub validate_guards :
    List MembershipStateGuard → StateMap → Result PolicyRefusal (Unit {0})
unfolding guarded_value
validate_guards [] state = ok tt
validate_guards (guard ∷ guards) state = do
  account ← ok_or (lookup guard.contract state.accounts) guard_contract_absent
  let value = guarded_value guard (word_at (lookup guard.storage_slot account.storage))
  reject_if (not (contains value guard.allowed_values)) membership_change_forbidden
  validate_guards guards state

unfoldable pub validate_membership_state_guards :
    ExecutionPolicyV4 → StateMap → Result PolicyRefusal (Unit {0})
validate_membership_state_guards policy state =
    if not policy.membership_changed
    then ok tt
    else validate_guards policy.membership_state_guards state

-- `keys()`, ascending as the map is.
abbrev pub keys {ℓ} : {V : Type ℓ} → Map V → List ℕ
keys m = map (λ (entry : _ × _). entry.0) m

-- The storage of every account: `initial_storage` of `execute_batch_v5_with_report`.
abbrev pub initial_storage : Map AccountRecord → Map (Map U256)
initial_storage accounts = map (λ (entry : ℕ × AccountRecord). (entry.0, entry.1.storage)) accounts

-- The storage of an account that may be missing.
abbrev pub storage_of : Option AccountRecord → Map U256
storage_of none = []
storage_of (some account) = account.storage

abbrev pub storage_at : Option (Map U256) → Map U256
storage_at none = []
storage_at (some storage) = storage

-- The loop over the slots that an address has before or after.
unfoldable pub validate_slots :
    List StorageNamespace
    → Address
    → Map U256
    → Map U256
    → List U256
    → Result PolicyRefusal (Unit {0})
validate_slots namespaces address before after [] = ok tt
validate_slots namespaces address before after (slot ∷ slots) = do
  reject_if
      (amount_at slot before != amount_at slot after && not (is_writable namespaces address slot))
      storage_read_only
  validate_slots namespaces address before after slots

-- The loop over the addresses that have storage before or an account after.
unfoldable pub validate_storage :
    List StorageNamespace
    → Map (Map U256)
    → StateMap
    → List Address
    → Result PolicyRefusal (Unit {0})
unfolding validate_slots
validate_storage namespaces pre_storage post [] = ok tt
validate_storage namespaces pre_storage post (address ∷ addresses) = do
  let before = storage_at (lookup address pre_storage)
  let after = storage_of (lookup address post.accounts)
  validate_slots namespaces address before after (collect_set (keys before ++ keys after))
  validate_storage namespaces pre_storage post addresses

module _ ⦃keccak : Keccak⦄ where
  -- The loop over the pinned code.
  unfoldable pub validate_pinned : Map B256 → StateMap → Result PolicyRefusal (Unit {0})
  unfolding code_hash
  validate_pinned [] post = ok tt
  validate_pinned ((address, expected_hash) ∷ code_hashes) post = do
    account ← ok_or (lookup address post.accounts) pinned_account_disappeared
    reject_if (code_hash account != expected_hash) pinned_code_changed
    validate_pinned code_hashes post

  unfoldable pub validate_post_state :
      ExecutionPolicyV4 → Map (Map U256) → StateMap → Result PolicyRefusal (Unit {0})
  unfolding validate_pinned validate_storage validate_membership_state_guards
  validate_post_state policy pre_storage post = if not policy.certified then ok tt else do
    validate_pinned policy.code_hashes post
    validate_storage policy.storage_namespaces pre_storage post
        (collect_set (keys pre_storage ++ keys post.accounts))
    validate_membership_state_guards policy post
