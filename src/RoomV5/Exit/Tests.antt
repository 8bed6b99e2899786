-- ===== src/RoomV5/Exit/Tests.antt =====
-- A small room at its end, and the theorems at it.
use zkdeal_prover.Prelude.{
  ℕ, ◌+◌, ◌-◌, ◌*◌, ◌^◌, ◌<◌, ◌≤◌, ◌≡◌, ◌≢◌, refl, Bool, true, false, none, some, List, [], ◌∷◌,
  arith, ok, err, All, sum_by, length, if◌then◌else◌,
}
use zkdeal_prover.Prelude.Map.{Map, amount_at}
use zkdeal_prover.StfTypes.Scalars.{Address, U256}
use zkdeal_prover.StfTypes.Abi.Sample.{sample_keccak}
use zkdeal_prover.StfTypes.V5.{
  ExitAssetBindingV5, ExitBindingV5, AssetLiabilityV5, WithdrawalV5, BatchInputV5,
}
use zkdeal_prover.StfTypes.V5.Defaults.{default_journal, default_policy, default_input}
use zkdeal_prover.StfTypes.V5.Evaluate.{evaluate}
use zkdeal_prover.State.{StateMap, AccountRecord, default_account}
use zkdeal_prover.RoomV5.Storage.{read_storage_v5}
use zkdeal_prover.RoomV5.Refusal.{sweep_exceeds_residual}
use zkdeal_prover.RoomV5.Liabilities.Totals.{consumed, withdrawn}
use zkdeal_prover.RoomV5.Exit.{
  ExitRecordV5, withdrawal_tree_capacity_v5, exit_record_count_v5, read_exit_records_v5,
  read_exit_record, collect_balances, distribute, sweep_asset, sweep_balance, derive_close_sweep_v5,
}
use zkdeal_prover.RoomV5.Exit.Allocation.{
  consumed_totals, recorded_totals, residual_totals, number_withdrawals, same_withdrawals,
  validate_derived_exit, validate_exit_v5,
}
use zkdeal_prover.RoomV5.Exit.Payout.{paid_of, is_bound, derive_close_sweep_v5-paid}
use zkdeal_prover.RoomV5.Exit.Fair.{dust_bounds, sweep_asset-ne-exceeds}
use zkdeal_prover.RoomV5.Exit.Capacity.{withdrawal_tree_capacity_v5_fits}
use zkdeal_prover.RoomV5.Exit.Queue.{
  queue_word, AreRecords, ArePayouts, read_exit_records_v5-AreRecords,
}
use zkdeal_prover.RoomV5.Exit.Close.{validate_exit_v5-records, validate_exit_v5-close}

abbrev native : ExitAssetBindingV5
native = record { asset = 0; kind = 0; token = 0; balance_slot = 0 }

-- The queue at account 100 holds one record: 5 of the native asset for account 21.
abbrev binding : ExitBindingV5
binding = record {
  queue_contract = 100;
  count_slot = 0;
  records_base_slot = 10;
  assets = native ∷ [];
  fallback_recipient = 99;
}

abbrev queue : AccountRecord
queue = record { nonce = 1; balance = 0; code = 1 ∷ []; storage = (0, 1) ∷ (10, 21) ∷ (12, 5) ∷ [] }

abbrev state : StateMap
state = record {
  accounts =
      (21, record default_account { balance = 10 })
      ∷ (22, record default_account { balance = 20 })
      ∷ (100, queue)
      ∷ [];
  block_hashes = [];
  access_accounts = none;
  access_storage = none;
  access_violation = none;
  prepared_code = [];
  prepared_code_addresses = [];
}

abbrev pays : ℕ → Address → U256 → WithdrawalV5
pays index recipient amount = record {
  index = index;
  roster_epoch = 0;
  recipient = recipient;
  asset = 0;
  amount = amount;
}

abbrev batch : Bool → List WithdrawalV5 → ℕ → BatchInputV5
batch close withdrawals capacity = record default_input {
  journal = record default_journal { authorization_mode = 1; close = close };
  policy = record default_policy { exit = some binding };
  pre_liabilities =
      record { asset = 0; pending = 0; controlled = 100; claimable = 0; paid = 0 } ∷ [];
  withdrawals = withdrawals;
  withdrawal_capacity = capacity;
}

-- Of the residual of 95 the balances 10 and 20 take 31 and 63, and the fallback takes the dust.
abbrev closing_batch : BatchInputV5
closing_batch = batch true (pays 0 21 5 ∷ pays 1 21 31 ∷ pays 2 22 63 ∷ pays 3 99 1 ∷ []) 4

abbrev open_batch : BatchInputV5
open_batch = batch false (pays 0 21 5 ∷ []) 1

closing_batch_valid : validate_exit_v5 closing_batch 0 state ≡ ok tt
unfolding validate_exit_v5 validate_derived_exit exit_record_count_v5 read_exit_records_v5
    read_exit_record read_storage_v5 consumed_totals recorded_totals residual_totals
    derive_close_sweep_v5 sweep_asset collect_balances sweep_balance distribute number_withdrawals
    same_withdrawals withdrawal_tree_capacity_v5 evaluate
closing_batch_valid = refl

open_batch_valid : validate_exit_v5 open_batch 0 state ≡ ok tt
unfolding validate_exit_v5 validate_derived_exit exit_record_count_v5 read_exit_records_v5
    read_exit_record read_storage_v5 number_withdrawals same_withdrawals withdrawal_tree_capacity_v5
    evaluate
open_batch_valid = refl

validate_exit_v5-records_example :
    (0 + length open_batch.withdrawals ≡ queue_word binding state 0)
    × ArePayouts binding state open_batch.journal.post_roster_epoch 0 0 open_batch.withdrawals
validate_exit_v5-records_example =
    validate_exit_v5-records open_batch binding state 0 refl refl open_batch_valid refl

validate_exit_v5-close_example :
    All
      (λ (pre : AssetLiabilityV5).
        is_bound pre.asset binding.assets ≡ true
        → withdrawn pre.asset closing_batch.withdrawals
          ≡ pre.controlled + consumed pre.asset closing_batch.deposits)
      closing_batch.pre_liabilities
validate_exit_v5-close_example =
    validate_exit_v5-close closing_batch binding state 0 refl refl closing_batch_valid refl
      (refl, tt) (refl, tt)

abbrev residuals : Map U256
residuals = (0, 95) ∷ []

abbrev leaf : Address → U256 → ExitRecordV5
leaf recipient amount = record { recipient = recipient; asset = 0; amount = amount }

abbrev leaves : List ExitRecordV5
leaves = leaf 21 31 ∷ leaf 22 63 ∷ leaf 99 1 ∷ []

swept : derive_close_sweep_v5 binding state residuals ≡ ok leaves
unfolding derive_close_sweep_v5 sweep_asset collect_balances sweep_balance distribute evaluate
swept = refl

derive_close_sweep_v5-paid_example :
    sum_by (paid_of 0) leaves ≡ (if is_bound 0 binding.assets then amount_at 0 residuals else 0)
derive_close_sweep_v5-paid_example =
    derive_close_sweep_v5-paid binding state residuals leaves 0 (refl, tt) swept

found : collect_balances native state state.accounts 0 ≡ ok ((21, 10) ∷ (22, 20) ∷ [], 30)
unfolding collect_balances sweep_balance
found = refl

shared : distribute 0 95 30 ((21, 10) ∷ (22, 20) ∷ []) 0 ≡ ok (leaf 21 31 ∷ leaf 22 63 ∷ [], 94)
unfolding distribute
shared = refl

dust_bounds_example :
    (◌≤◌ 94 95) × (◌<◌ 95 (94 + length {A = Address × U256} ((21, 10) ∷ (22, 20) ∷ [])))
dust_bounds_example =
    dust_bounds native state 95 ((21, 10) ∷ (22, 20) ∷ [], 30) (leaf 21 31 ∷ leaf 22 63 ∷ [], 94)
      found (omega arith) shared

sweep_asset-ne-exceeds_example : sweep_asset binding state native 95 ≢ err sweep_exceeds_residual
sweep_asset-ne-exceeds_example = sweep_asset-ne-exceeds binding state native 95

withdrawal_tree_capacity_v5_fits_example :
    (capacity : ℕ) × (withdrawal_tree_capacity_v5 300 ≡ ok capacity)
    × (300 ≤ capacity)
    × (capacity ≤ 32_768)
    × (0 < 300 → (k : ℕ) × (capacity ≡ 2 ^ k) × (capacity < 2 * 300))
    × (◌≡◌ {A = ℕ} 300 0 → capacity ≡ 0)
withdrawal_tree_capacity_v5_fits_example = withdrawal_tree_capacity_v5_fits 300 (omega arith)

capacity_300 : withdrawal_tree_capacity_v5 300 ≡ ok 512
unfolding withdrawal_tree_capacity_v5 evaluate
capacity_300 = refl

read_one : read_exit_records_v5 binding state 0 1 ≡ ok (leaf 21 5 ∷ [])
unfolding read_exit_records_v5 read_exit_record read_storage_v5 evaluate
read_one = refl

read_exit_records_v5-AreRecords_example :
    AreRecords binding state 0 (leaf 21 5 ∷ []) × (length (leaf 21 5 ∷ []) ≡ 1 - 0)
read_exit_records_v5-AreRecords_example =
    read_exit_records_v5-AreRecords binding state 0 1 (leaf 21 5 ∷ []) read_one
