-- ===== src/State/Install.antt =====
-- How a state map is built and prepared: zkvm/crates/stf-core/src/db/mod.rs.
use zkdeal_prover.Prelude.{
  ℕ, zero, suc, ◌-◌, ◌+◌, contains, Bool, true, false, not, ◌||◌, ◌&&◌, Option, none, some, List,
  [], ◌∷◌, ltb, leb, ◌==◌, ◌!=◌, if◌then◌else◌, is_some_and, is_empty, length, Result, ok, ◌>>=◌,
  ◌>>◌, reject_if, ok_or,
}
use zkdeal_prover.Prelude.Map.{Map, lookup, insert}
use zkdeal_prover.StfTypes.Scalars.{Address, B256, U256, Bytes}
use zkdeal_prover.StfTypes.Abi.{Keccak}
use zkdeal_prover.StfTypes.Block.{AccountState, HistoricalBlockHash}
use zkdeal_prover.State.{AccountRecord, StateMap, is_empty_account, code_hash}

pub data InstallRefusal : Type 0 where
  history_too_long entry_outside_window history_unordered : InstallRefusal
  prepared_account_absent prepared_code_mismatch : InstallRefusal

-- `.iter().filter(..).collect()` of a list of words into a map.
unfoldable pub collect_storage : List (U256 × U256) → Map U256 → Map U256
collect_storage [] storage = storage
collect_storage ((slot, value) ∷ words) storage =
    let kept = collect_storage words storage in
    let written = collect_storage words (insert slot value storage) in
    if value == 0 then kept else written

abbrev pub record_of : AccountState → AccountRecord
record_of account = record {
  nonce = account.nonce;
  balance = account.balance;
  code = account.code;
  storage = collect_storage account.storage [];
}

unfoldable pub collect_accounts :
    List (Address × AccountState) → Map AccountRecord → Map AccountRecord
collect_accounts [] accounts = accounts
collect_accounts ((address, account) ∷ rest) accounts =
    collect_accounts rest (insert address (record_of account) accounts)

unfoldable pub from_input : List (Address × AccountState) → StateMap
unfolding collect_accounts
from_input state = record {
  accounts = collect_accounts state [];
  block_hashes = [];
  access_accounts = none;
  access_storage = none;
  access_violation = none;
  prepared_code = [];
  prepared_code_addresses = [];
}

unfoldable pub from_compact : Map AccountRecord → List Address → Map (List U256) → StateMap
from_compact accounts access_accounts access_storage = record {
  accounts = accounts;
  block_hashes = [];
  access_accounts = some access_accounts;
  access_storage = some access_storage;
  access_violation = none;
  prepared_code = [];
  prepared_code_addresses = [];
}

-- The loop over the history, with the number before and the hashes so far. The window starts at
-- `current_number.saturating_sub(256)`.
unfoldable pub collect_history :
    ℕ → List HistoricalBlockHash → Option ℕ → Map B256 → Result InstallRefusal (Map B256)
collect_history current_number [] previous hashes = ok hashes
collect_history current_number (entry ∷ history) previous hashes = do
  reject_if (ltb entry.number (current_number - 256) || leb current_number entry.number)
      entry_outside_window
  reject_if (is_some_and previous (λ prior. leb entry.number prior)) history_unordered
  collect_history current_number history (some entry.number) (insert entry.number entry.hash hashes)

unfoldable pub install_block_hashes :
    StateMap → ℕ → List HistoricalBlockHash → Result InstallRefusal StateMap
unfolding collect_history
install_block_hashes state current_number history = do
  reject_if (ltb 256 (length history)) history_too_long
  hashes ← collect_history current_number history none []
  ok (record state { block_hashes = hashes })

-- An account as the trie has it.
abbrev pub state_of : AccountRecord → AccountState
state_of account = record {
  nonce = account.nonce;
  balance = account.balance;
  code = account.code;
  storage = account.storage;
}

unfoldable pub to_input_accounts : Map AccountRecord → List (Address × AccountState)
to_input_accounts [] = []
to_input_accounts ((address, account) ∷ accounts) =
    let rest = to_input_accounts accounts in
    if is_empty_account account then rest else (address, state_of account) ∷ rest

unfoldable pub to_input_state : StateMap → List (Address × AccountState)
unfolding to_input_accounts
to_input_state state = to_input_accounts state.accounts

-- `PreparedCodeCacheReport`
pub record PreparedCodeCacheReport : Type 0 where
  pub requested_contracts : ℕ
  pub cached_contracts : ℕ
  pub dynamic_interpreter_contracts : ℕ
  pub fallback_contracts : ℕ

-- The scan for dynamic control flow. Each round reads an opcode, and the immediate bytes of a push are
-- skipped one by one.
unfoldable pub scan_from : ℕ → Bytes → Bool
scan_from skip [] = false
scan_from (suc skip) (byte ∷ code) = scan_from skip code
scan_from zero (opcode ∷ code) =
    let rest = scan_from (if leb 96 opcode && leb opcode 127 then opcode - 95 else 0) code in
    if contains opcode (86 ∷ 87 ∷ 240 ∷ 241 ∷ 242 ∷ 244 ∷ 245 ∷ 250 ∷ []) then true else rest

abbrev pub has_dynamic_interpreter_control_flow : Bytes → Bool
has_dynamic_interpreter_control_flow code = scan_from 0 code

-- revm's analysis of raw bytecode: whether it accepts the bytes, and whether it finds a legacy format.
pub record Bytecodes : Type 0 where
  pub is_accepted : Bytes → Bool
  pub is_legacy : Bytes → Bool

module _ ⦃keccak : Keccak⦄ (bytecodes : Bytecodes) where
  -- The loop over the frozen hashes, with the cache and the report so far.
  unfoldable pub prepare_code :
      StateMap
      → Map B256
      → Map Bytes
      → PreparedCodeCacheReport
      → Result InstallRefusal (Map Bytes × PreparedCodeCacheReport)
  prepare_code state [] cache report = ok (cache, report)
  prepare_code state ((address, expected_hash) ∷ frozen) cache report = do
    account ← ok_or (lookup address state.accounts) prepared_account_absent
    reject_if (code_hash account != expected_hash) prepared_code_mismatch
    let fallback =
        prepare_code state frozen cache
          (record report { fallback_contracts = report.fallback_contracts + 1 })
    let dynamic = if has_dynamic_interpreter_control_flow account.code then 1 else 0
    let cached =
        prepare_code state frozen (insert (code_hash account) account.code cache) (record report {
          cached_contracts = report.cached_contracts + 1;
          dynamic_interpreter_contracts = report.dynamic_interpreter_contracts + dynamic;
        })
    (if is_empty account.code
          || not (bytecodes.is_accepted account.code)
          || not (bytecodes.is_legacy account.code)
        then fallback
        else cached)

  unfoldable pub install_prepared_runtime_code :
      StateMap → Map B256 → Result InstallRefusal (StateMap × PreparedCodeCacheReport)
  unfolding prepare_code
  install_prepared_runtime_code state frozen_code_hashes = do
    prepared ← prepare_code state frozen_code_hashes [] (record {
      requested_contracts = length frozen_code_hashes;
      cached_contracts = 0;
      dynamic_interpreter_contracts = 0;
      fallback_contracts = 0;
    })
    ok (
      record state { prepared_code = prepared.0; prepared_code_addresses = frozen_code_hashes },
      prepared.1,
    )

unfoldable pub clear_prepared_runtime_code : StateMap → StateMap
clear_prepared_runtime_code state = record state {
  prepared_code = [];
  prepared_code_addresses = [];
}

abbrev pub prepared_runtime_code_len : StateMap → ℕ
prepared_runtime_code_len state = length state.prepared_code
