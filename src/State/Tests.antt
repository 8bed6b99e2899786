-- ===== src/State/Tests.antt =====
-- Concrete states and changes, and the theorems of the state at them.
use zkdeal_prover.Prelude.{ℕ, ◌≡◌, refl, arith, true, false, none, some, List, [], ◌∷◌, ok}
use zkdeal_prover.Prelude.Map.{Map, lookup}
use zkdeal_prover.StfTypes.Scalars.{Address, B256, U256}
use zkdeal_prover.StfTypes.Abi.Sample.{sample_keccak}
use zkdeal_prover.StfTypes.V5.Evaluate.{evaluate}
use zkdeal_prover.State.{StateMap, undeclared_storage, code_hash}
use zkdeal_prover.State.Install.{
  Bytecodes, PreparedCodeCacheReport, from_input, to_input_state, prepare_code, scan_from,
  install_prepared_runtime_code, clear_prepared_runtime_code,
}
use zkdeal_prover.State.Read.{basic}
use zkdeal_prover.State.Commit.{
  Account, latch_storage, latch_account, merge_storage, merge_code, merge_account, drop_account,
  keep_account, commit_account, commit,
}
use zkdeal_prover.State.Commit.Order.{AreDistinct, commit-order}
use zkdeal_prover.State.Commit.Envelope.{AreDeclared, commit-AreDeclared}
use zkdeal_prover.State.Canonical.{IsCanonical, commit-IsCanonical}
use zkdeal_prover.State.Canonical.RoundTrip.{from_input-to_input_state}
use zkdeal_prover.State.Prepared.{install-basic}
use zkdeal_prover.State.Roots.{sparse_state_root_v5}
use zkdeal_prover.State.Roots.Total.{sparse_state_root_v5-some}

-- An owner, a contract with two words, and an envelope that declares the contract's slots 1 to 3.
abbrev state : StateMap
state = record {
  accounts =
      (21, record { nonce = 4; balance = 10; code = []; storage = [] })
      ∷ (
        50,
        record { nonce = 1; balance = 0; code = 96 ∷ 86 ∷ 0 ∷ []; storage = (1, 7) ∷ (2, 8) ∷ [] },
      )
      ∷ [];
  block_hashes = [];
  access_accounts = some (21 ∷ 50 ∷ []);
  access_storage = some ((21, []) ∷ (50, 1 ∷ 2 ∷ 3 ∷ []) ∷ []);
  access_violation = none;
  prepared_code = [];
  prepared_code_addresses = [];
}

abbrev changed : ℕ → U256 → List ℕ → List (U256 × U256) → Account
changed nonce balance code words = record {
  is_touched = true;
  is_selfdestructed = false;
  is_created = false;
  info = record {
    balance = balance;
    nonce = nonce;
    code_hash = sample_keccak.keccak256 code;
    code = some code;
  };
  storage = words;
}

-- The owner is emptied, and the contract clears slot 1 and writes slot 3.
abbrev owner_gone : Account
owner_gone = changed 0 0 [] []

abbrev contract_written : Account
contract_written = changed 1 0 (96 ∷ 86 ∷ 0 ∷ []) ((1, 0) ∷ (3, 9) ∷ [])

abbrev changes : List (Address × Account)
changes = (21, owner_gone) ∷ (50, contract_written) ∷ []

abbrev changes_again : List (Address × Account)
changes_again = (50, contract_written) ∷ (21, owner_gone) ∷ []

committed_accounts :
    (commit state changes).accounts
    ≡ (
      50,
      record { nonce = 1; balance = 0; code = 96 ∷ 86 ∷ 0 ∷ []; storage = (2, 8) ∷ (3, 9) ∷ [] },
    )
      ∷ []
unfolding commit commit_account drop_account keep_account merge_account merge_code merge_storage
    latch_account latch_storage evaluate
committed_accounts = refl

committed_inside : (commit state changes).access_violation ≡ none
unfolding commit commit_account drop_account keep_account merge_account merge_code merge_storage
    latch_account latch_storage evaluate
committed_inside = refl

-- A write to slot 4 is latched.
committed_outside :
    (commit state ((50, changed 1 0 [] ((4, 1) ∷ [])) ∷ [])).access_violation
    ≡ some (undeclared_storage 50 4)
unfolding commit commit_account drop_account keep_account merge_account merge_code merge_storage
    latch_account latch_storage evaluate
committed_outside = refl

state-IsCanonical : IsCanonical state
state-IsCanonical = (
  ((omega arith, tt), (tt, tt)),
  ((refl, tt, tt), ((refl, ((omega arith, tt), (tt, tt)), (omega arith, (omega arith, tt))), tt)),
)

commit-IsCanonical_example : IsCanonical (commit state changes)
commit-IsCanonical_example = commit-IsCanonical state changes state-IsCanonical

distinct : AreDistinct changes
unfolding lookup
distinct = (refl, (refl, tt))

distinct_again : AreDistinct changes_again
unfolding lookup
distinct_again = (refl, (refl, tt))

same_changes : (a : Address) → lookup a changes ≡ lookup a changes_again
unfolding lookup
same_changes a = ground arith

commit-order_example : (commit state changes).accounts ≡ (commit state changes_again).accounts
commit-order_example =
    commit-order state changes changes_again state-IsCanonical distinct distinct_again same_changes

commit-AreDeclared_example : (state.access_violation ≡ none) × AreDeclared state changes
commit-AreDeclared_example = commit-AreDeclared state changes committed_inside

from_input-to_input_state_example : (from_input (to_input_state state)).accounts ≡ state.accounts
from_input-to_input_state_example = from_input-to_input_state state state-IsCanonical

abbrev bytecodes : Bytecodes
bytecodes = record { is_accepted = λ code. true; is_legacy = λ code. true }

abbrev frozen : Map B256
frozen = (50, sample_keccak.keccak256 (96 ∷ 86 ∷ 0 ∷ [])) ∷ []

abbrev prepared : StateMap × PreparedCodeCacheReport
prepared = (
  record state {
    prepared_code = (sample_keccak.keccak256 (96 ∷ 86 ∷ 0 ∷ []), 96 ∷ 86 ∷ 0 ∷ []) ∷ [];
    prepared_code_addresses = frozen;
  },
  record {
    requested_contracts = 1;
    cached_contracts = 1;
    dynamic_interpreter_contracts = 0;
    fallback_contracts = 0;
  },
)

-- The byte 86 behind a PUSH1 is data, so the code counts as static.
prepared_valid : install_prepared_runtime_code bytecodes state frozen ≡ ok prepared
unfolding install_prepared_runtime_code prepare_code scan_from code_hash evaluate
prepared_valid = refl

install-basic_example :
    basic (commit prepared.0 changes) 50
    ≡ basic (clear_prepared_runtime_code (commit prepared.0 changes)) 50
install-basic_example = install-basic bytecodes state frozen prepared prepared_valid changes 50

sparse_state_root_v5-some_example : (root : B256) × (sparse_state_root_v5 state ≡ some root)
sparse_state_root_v5-some_example =
    sparse_state_root_v5-some state (omega arith, (omega arith, tt)) (omega arith)
