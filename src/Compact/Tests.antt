-- ===== src/Compact/Tests.antt =====
-- A witness of an owner and a contract under a canonical root, and the theorem at it.
use zkdeal_prover.Prelude.{ℕ, ◌≡◌, refl, true, false, none, some, [], ◌∷◌, set_insert, ok, err}
use zkdeal_prover.StfTypes.Abi.Sample.{sample_keccak}
use zkdeal_prover.StfTypes.V5.Evaluate.{evaluate}
use zkdeal_prover.StfTypes.Compact.{CompactStateWitnessV4}
use zkdeal_prover.Trie.{sample_trie}
use zkdeal_prover.State.{StateMap}
use zkdeal_prover.State.Install.{from_compact}
use zkdeal_prover.State.Canonical.{IsCanonical}
use zkdeal_prover.Compact.{
  empty_account_present, count_proofs, count_account_proofs, count_account, is_slot_proved,
  account_value, collect_slots, is_account_proved, add_account, verify_account, verify_accounts,
  verify_compact_state_v4,
}
use zkdeal_prover.Compact.Accepted.{verify_compact_state_v4-IsCanonical}

-- Account 21 with this nonce; contract 50 with a word and an absent one; account 60 is excluded.
abbrev witness : ℕ → CompactStateWitnessV4
witness nonce = record {
  canonical_state_root = 5;
  accounts =
      record {
        address = 21;
        exists = true;
        nonce = nonce;
        balance = 0;
        code = [];
        canonical_storage_root = 1;
        account_proof = (1 ∷ []) ∷ [];
        storage = [];
      }
      ∷ record {
        address = 50;
        exists = true;
        nonce = 1;
        balance = 0;
        code = 3 ∷ [];
        canonical_storage_root = 2;
        account_proof = (1 ∷ []) ∷ [];
        storage =
            record { slot = 4; value = 0; proof = (2 ∷ []) ∷ [] }
            ∷ record { slot = 9; value = 7; proof = (2 ∷ []) ∷ [] }
            ∷ [];
      }
      ∷ record {
        address = 60;
        exists = false;
        nonce = 0;
        balance = 0;
        code = [];
        canonical_storage_root = 1;
        account_proof = (1 ∷ []) ∷ [];
        storage = [];
      }
      ∷ [];
}

abbrev opened : StateMap
opened = record {
  accounts =
      (21, record { nonce = 3; balance = 0; code = []; storage = [] })
      ∷ (50, record { nonce = 1; balance = 0; code = 3 ∷ []; storage = (9, 7) ∷ [] })
      ∷ [];
  block_hashes = [];
  access_accounts = some (21 ∷ 50 ∷ 60 ∷ []);
  access_storage = some ((21, []) ∷ (50, 4 ∷ 9 ∷ []) ∷ (60, []) ∷ []);
  access_violation = none;
  prepared_code = [];
  prepared_code_addresses = [];
}

witness_valid : verify_compact_state_v4 sample_trie (witness 3) ≡ ok opened
unfolding verify_compact_state_v4 verify_accounts verify_account add_account collect_slots
    account_value count_account count_account_proofs count_proofs is_account_proved is_slot_proved
    from_compact set_insert evaluate
witness_valid = refl

-- An account with nothing in it has no leaf, and may not be present.
empty_refused : verify_compact_state_v4 sample_trie (witness 0) ≡ err empty_account_present
unfolding verify_compact_state_v4 verify_accounts verify_account add_account collect_slots
    account_value count_account count_account_proofs count_proofs is_account_proved is_slot_proved
    from_compact set_insert evaluate
empty_refused = refl

verify_compact_state_v4-IsCanonical_example : IsCanonical opened
verify_compact_state_v4-IsCanonical_example =
    verify_compact_state_v4-IsCanonical sample_trie (witness 3) opened witness_valid
