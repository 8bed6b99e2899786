-- ===== src/RoomV5/Exit.antt =====
-- Proof-derived exits of validity-only rooms: zkvm/crates/stf-core/src/room_v5/exit.rs.
pub mod Allocation
pub mod Capacity
pub mod Sweep
pub mod Payout
pub mod Fair
pub mod Queue
pub mod Records
pub mod Derived
pub mod Close
mod Tests
use zkdeal_prover.Prelude.{
  ℕ, zero, suc, ◌+◌, ◌-◌, ◌*◌, ◌/◌, ◌%◌, ◌^◌, Bool, true, false, not, ◌&&◌, ◌||◌, Option, none,
  some, List, [], ◌∷◌, ◌++◌, ltb, leb, ◌==◌, ◌!=◌, if◌then◌else◌, is_empty, length, any, Result, ok,
  err, ◌>>=◌, ◌>>◌, reject_if, ok_or,
}
use zkdeal_prover.Prelude.Map.{Map, insert, amount_at}
use zkdeal_prover.Words.{checked_add_u256, checked_mul_u256, checked_sub, next_power_of_two}
use zkdeal_prover.StfTypes.Scalars.{Address, U256}
use zkdeal_prover.StfTypes.Limits.{max_withdrawal_capacity_v5}
use zkdeal_prover.StfTypes.Abi.{Keccak}
use zkdeal_prover.StfTypes.V5.{
  ExitAssetBindingV5, ExitBindingV5, AssetLiabilityV5, DepositV5, WithdrawalV5, BatchInputV5,
}
use zkdeal_prover.State.{StateMap, AccountRecord}
use zkdeal_prover.RoomV5.Refusal.{
  Refusal, wider_than_address, exit_count_exceeds_u64, exit_slot_overflow, malformed_exit_record,
  exit_capacity_exceeded, unknown_exit_kind, sweep_total_overflow, sweep_share_overflow,
  sweep_distributed_overflow, sweep_exceeds_residual, exit_count_regressed, exit_total_overflow,
  exit_records_exceed_controlled, withdrawals_not_derived,
}
use zkdeal_prover.RoomV5.Storage.{mapping_slot_v5, read_storage_v5}

unfoldable pub withdrawal_tree_capacity_v5 : ℕ → Result Refusal ℕ
withdrawal_tree_capacity_v5 leaf_count =
    if leaf_count == 0
    then ok 0
    else if ltb max_withdrawal_capacity_v5 leaf_count
    then err exit_capacity_exceeded
    else ok (next_power_of_two leaf_count)

pub record ExitRecordV5 : Type 0 where
  pub recipient : Address
  pub asset : Address
  pub amount : U256

-- The twelve bytes in front of an address are zero exactly when the word is below 2^160.
pub address_from_word_v5 : U256 → Result Refusal Address
address_from_word_v5 value =
    if value / 2 ^ 160 != 0 then err wider_than_address else ok (value % 2 ^ 160)

pub checked_add_exit_v5 : U256 → U256 → Refusal → Result Refusal U256
checked_add_exit_v5 left right refusal = ok_or (checked_add_u256 left right) refusal

unfoldable pub exit_record_count_v5 : ExitBindingV5 → StateMap → Result Refusal ℕ
exit_record_count_v5 binding state = do
  count ← read_storage_v5 state binding.queue_contract binding.count_slot
  if ltb count (2 ^ 64) then ok count else err exit_count_exceeds_u64

-- `index * 3 + records_base_slot`, both steps checked.
record_slot : U256 → ℕ → Option U256
record_slot base index = elim (checked_mul_u256 index 3) [
  | none ↦ none
  | some words ↦ checked_add_u256 base words
]

-- One round of the loop over the record indices.
pub read_exit_record : ExitBindingV5 → StateMap → ℕ → Result Refusal ExitRecordV5
unfolding address_from_word_v5 checked_add_exit_v5 record_slot
read_exit_record binding state index = do
  offset ← ok_or (record_slot binding.records_base_slot index) exit_slot_overflow
  asset_slot ← checked_add_exit_v5 offset 1 exit_slot_overflow
  amount_slot ← checked_add_exit_v5 offset 2 exit_slot_overflow
  recipient ← address_from_word_v5 (← read_storage_v5 state binding.queue_contract offset)
  asset ← address_from_word_v5 (← read_storage_v5 state binding.queue_contract asset_slot)
  amount ← read_storage_v5 state binding.queue_contract amount_slot
  reject_if
      (recipient == 0
        || amount == 0
        || not (any (λ (bound : ExitAssetBindingV5). bound.asset == asset) binding.assets))
      malformed_exit_record
  ok (record { recipient = recipient; asset = asset; amount = amount })

-- The loop over `index .. index + rounds`.
unfoldable pub read_records : ExitBindingV5 → StateMap → ℕ → ℕ → Result Refusal (List ExitRecordV5)
read_records binding state index zero = ok []
read_records binding state index (suc rounds) = do
  one ← read_exit_record binding state index
  rest ← read_records binding state (index + 1) rounds
  ok (one ∷ rest)

unfoldable pub read_exit_records_v5 :
    ExitBindingV5 → StateMap → ℕ → ℕ → Result Refusal (List ExitRecordV5)
unfolding read_records
read_exit_records_v5 binding terminal_state from to =
    read_records binding terminal_state from (to - from)

-- The sweep attributes nothing to the zero address or to an account with code.
pub is_swept : Address → AccountRecord → Bool
is_swept address account = not (address == 0 || not (is_empty account.code))

module _ ⦃keccak : Keccak⦄ where
  pub sweep_balance : ExitAssetBindingV5 → StateMap → Address → AccountRecord → Result Refusal U256
  sweep_balance bound state address account =
      if bound.kind == 0
      then ok account.balance
      else if bound.kind == 1
      then read_storage_v5 state bound.token (mapping_slot_v5 address bound.balance_slot)
      else err unknown_exit_kind

  -- The loop over the accounts: the non-zero balances in address order, and their total.
  pub collect_balances :
      ExitAssetBindingV5
      → StateMap
      → Map AccountRecord
      → U256
      → Result Refusal (List (Address × U256) × U256)
  unfolding is_swept checked_add_exit_v5
  collect_balances bound state [] total = ok ([], total)
  collect_balances bound state ((address, account) ∷ accounts) total =
      let rest = collect_balances bound state accounts total in
      if not (is_swept address account) then rest else do
        balance ← sweep_balance bound state address account
        let skipped = collect_balances bound state accounts total
        if balance == 0 then skipped else do
          total' ← checked_add_exit_v5 total balance sweep_total_overflow
          (balances, final) ← collect_balances bound state accounts total'
          ok ((address, balance) ∷ balances, final)

  -- The loop that pays each balance its share of the residual, and the sum of the shares.
  pub distribute :
      Address
      → U256
      → U256
      → List (Address × U256)
      → U256
      → Result Refusal (List ExitRecordV5 × U256)
  unfolding checked_add_exit_v5
  distribute asset residual total [] distributed = ok ([], distributed)
  distribute asset residual total ((address, balance) ∷ balances) distributed = do
    product ← ok_or (checked_mul_u256 residual balance) sweep_share_overflow
    let share = product / total
    let skipped = distribute asset residual total balances distributed
    if share == 0 then skipped else do
      distributed' ← checked_add_exit_v5 distributed share sweep_distributed_overflow
      (leaves, final) ← distribute asset residual total balances distributed'
      ok (record { recipient = address; asset = asset; amount = share } ∷ leaves, final)

  -- One asset of the sweep: the leaves that it adds.
  pub sweep_asset :
      ExitBindingV5 → StateMap → ExitAssetBindingV5 → U256 → Result Refusal (List ExitRecordV5)
  sweep_asset binding state bound residual =
      let to_fallback = λ (amount : U256).
        let leaf : ExitRecordV5 = record {
          recipient = binding.fallback_recipient;
          asset = bound.asset;
          amount = amount;
        } in
        leaf ∷ [] in
      if residual == 0 then ok [] else do
        (balances, total) ← collect_balances bound state state.accounts 0
        if total == 0 then ok (to_fallback residual) else do
          (leaves, distributed) ← distribute bound.asset residual total balances 0
          dust ← ok_or (checked_sub residual distributed) sweep_exceeds_residual
          ok (leaves ++ (if dust != 0 then to_fallback dust else []))

  pub sweep_assets :
      ExitBindingV5
      → StateMap
      → List ExitAssetBindingV5
      → Map U256
      → Result Refusal (List ExitRecordV5)
  sweep_assets binding state [] residuals = ok []
  sweep_assets binding state (bound ∷ assets) residuals = do
    leaves ← sweep_asset binding state bound (amount_at bound.asset residuals)
    rest ← sweep_assets binding state assets residuals
    ok (leaves ++ rest)

  pub derive_close_sweep_v5 :
      ExitBindingV5 → StateMap → Map U256 → Result Refusal (List ExitRecordV5)
  unfolding sweep_assets
  derive_close_sweep_v5 binding terminal_state residuals =
      sweep_assets binding terminal_state binding.assets residuals
