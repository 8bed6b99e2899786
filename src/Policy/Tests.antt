-- ===== src/Policy/Tests.antt =====
-- A room with a registry and an exit queue, its certified policy, and the theorems at them.
use zkdeal_prover.Prelude.{
  ◌^◌, ◌≡◌, refl, true, false, some, [], ◌∷◌, contains, collect_set, set_insert, All, is_empty, ok,
  err,
}
use zkdeal_prover.Prelude.Map.{lookup}
use zkdeal_prover.StfTypes.Scalars.{Address, B256, U256}
use zkdeal_prover.StfTypes.Abi.Sample.{sample_keccak}
use zkdeal_prover.StfTypes.V5.{CertifiedImportBindingV5}
use zkdeal_prover.StfTypes.V5.PolicyHash.{
  encode_all, encode_list, encode_code, encode_call, encode_namespace, encode_import,
  encode_registry, encode_exit_asset, encode_exit, encode_policy, execution_policy_hash_v5,
}
use zkdeal_prover.StfTypes.V5.Evaluate.{evaluate}
use zkdeal_prover.State.{StateMap, AccountRecord, code_hash}
use zkdeal_prover.Policy.{storage_read_only, slot_has_prefix, is_covered, is_writable}
use zkdeal_prover.Policy.Enforce.{
  keys, initial_storage, validate_slots, validate_storage, validate_pinned,
  validate_membership_state_guards, validate_post_state,
}
use zkdeal_prover.Policy.FromV5.{
  is_envelope_invalid, pin_code, reject_uncommitted, collect_kinds, resolve_call, resolve_calls,
  resolve_namespaces, validate_covered_slots, validate_covered, validate_imports,
  validate_registry_slots, validate_registry, from_v5,
}
use zkdeal_prover.Policy.FromV5.Exit.{
  validate_exit_asset, validate_exit_assets, validate_queue, validate_exit_binding,
}
use zkdeal_prover.Policy.FromV5.Certified.{from_v5-certifies}
use zkdeal_prover.Policy.FromV5.Unchanged.{from_v5-validate_post_state}
use zkdeal_prover.Policy.Sample.{sample_policy_v5, sample_room, sample_resolved}

abbrev expected_hash : B256
expected_hash = execution_policy_hash_v5 sample_policy_v5

resolved_room :
    from_v5 sample_policy_v5 expected_hash (21 ∷ []) sample_room false ≡ ok sample_resolved
unfolding from_v5 is_envelope_invalid pin_code reject_uncommitted resolve_calls resolve_call
    collect_kinds resolve_namespaces validate_covered validate_covered_slots validate_imports
    validate_registry validate_registry_slots validate_exit_binding validate_queue
    validate_exit_assets validate_exit_asset is_covered is_writable slot_has_prefix code_hash
    execution_policy_hash_v5 encode_policy encode_all encode_list encode_code encode_call
    encode_namespace encode_import encode_registry encode_exit_asset encode_exit collect_set
    set_insert evaluate
resolved_room = refl

-- The room after slot 9 of contract 50 is written; the word 8 at `slot` of contract 51 too.
abbrev room_after : U256 → StateMap
room_after slot = record sample_room {
  accounts =
      (21, record { nonce = 5; balance = 10; code = []; storage = [] })
      ∷ (
        50,
        record {
          nonce = 1;
          balance = 0;
          code = 1 ∷ 2 ∷ [];
          storage = (1, 100) ∷ (2, 5) ∷ (3, 1) ∷ (4, 128) ∷ (9, 3) ∷ [];
        },
      )
      ∷ (51, record { nonce = 1; balance = 0; code = 3 ∷ []; storage = (slot, 8) ∷ [] })
      ∷ [];
}

written_room :
    validate_post_state sample_resolved (initial_storage sample_room.accounts) (room_after 0)
    ≡ ok tt
unfolding validate_post_state validate_storage validate_slots validate_pinned
    validate_membership_state_guards code_hash is_writable slot_has_prefix collect_set set_insert
    evaluate
written_room = refl

-- Of contract 51 only the slots below 2^128 may be written.
read_only_refused :
    validate_post_state sample_resolved
      (initial_storage sample_room.accounts)
      (room_after (2 ^ 200))
    ≡ err storage_read_only
unfolding validate_post_state validate_storage validate_slots validate_pinned
    validate_membership_state_guards code_hash is_writable slot_has_prefix collect_set set_insert
    evaluate
read_only_refused = refl

from_v5-certifies_example :
    (execution_policy_hash_v5 sample_policy_v5 ≡ expected_hash)
    × ((a : Address) (account : AccountRecord)
        → lookup a sample_room.accounts ≡ some account
        → is_empty account.code ≡ false
        → lookup a sample_resolved.code_hashes ≡ some (code_hash account))
    × ((a : Address) (account : AccountRecord)
        → lookup a sample_room.accounts ≡ some account
        → (s : U256) → contains s (keys account.storage) ≡ true
        → is_covered sample_resolved.storage_namespaces a s ≡ true)
    × All
        (λ (binding : CertifiedImportBindingV5).
          is_writable sample_resolved.storage_namespaces binding.room_contract binding.room_slot
          ≡ true)
        sample_policy_v5.imports
    × (sample_resolved.allow_contract_creation ≡ false)
    × (sample_resolved.allow_self_destruct ≡ false)
from_v5-certifies_example =
    from_v5-certifies sample_policy_v5 expected_hash (21 ∷ []) sample_room false sample_resolved
      resolved_room

from_v5-validate_post_state_example :
    validate_post_state sample_resolved (initial_storage sample_room.accounts) sample_room ≡ ok tt
from_v5-validate_post_state_example =
    from_v5-validate_post_state sample_policy_v5 expected_hash (21 ∷ []) sample_room sample_room
      sample_resolved resolved_room
      ((λ account found. (account, found, refl)), ((λ account found. (account, found, refl)), tt))
      (λ a s fixed. refl)
