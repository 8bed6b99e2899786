-- ===== src/RoomV5/Liabilities.antt =====
-- Per-asset escrow accounting of a batch: zkvm/crates/stf-core/src/room_v5/liabilities.rs.
-- `offset` and the list lengths count list cells, which stay below 2^64 on any machine.
pub mod Totals
pub mod Accepted
pub mod Settled
pub mod Conservation
mod CreditSteps
pub mod Credits
mod CreditTests
mod Tests
use zkdeal_prover.Prelude.{
  ℕ, suc, ◌+◌, Bool, true, false, not, ◌&&◌, ◌||◌, Option, none, some, List, [], ◌∷◌, ltb, leb,
  ◌==◌, ◌!=◌, if◌then◌else◌, is_some_and, is_none, is_empty, length, contains, find?, Result, ok,
  err, ◌>>=◌, ◌>>◌, reject_if, ok_or,
}
use zkdeal_prover.Prelude.Map.{Map, lookup, insert, remove, amount_at}
use zkdeal_prover.Words.{checked_add_u64, checked_add_u256, checked_sub}
use zkdeal_prover.StfTypes.Scalars.{Address, U256}
use zkdeal_prover.StfTypes.Abi.{Keccak}
use zkdeal_prover.StfTypes.V5.{
  ExitAssetBindingV5, ExitBindingV5, AdmissionRecordV5, AssetLiabilityV5, DepositV5, WithdrawalV5,
  BatchInputV5,
}
use zkdeal_prover.StfTypes.V5.Hash.{inbox_records_hash_v5, liabilities_hash_v5}
use zkdeal_prover.StfTypes.V5.Trees.{withdrawal_root_v5}
use zkdeal_prover.State.{StateMap, account_or_default}
use zkdeal_prover.RoomV5.Refusal.{
  Refusal, admission_fee_total_overflow, fees_exceed_deposit, beneficiary_outside_envelope,
  beneficiary_balance_overflow, no_token_binding, token_balance_overflow, token_account_absent,
  unprovable_without_exit_binding, liability_preimages_differ, inbox_records_differ,
  inbox_id_overflow, malformed_deposit, deposit_total_overflow, inbox_cursor_overflow,
  inbox_cursor_differs, withdrawal_total_overflow, invalid_withdrawal_tree, withdrawal_tree_differs,
  liabilities_not_aligned, deposit_exceeds_pending, claimable_overflow, controlled_overflow,
  withdrawal_exceeds_controlled, liabilities_not_conserved, close_leaves_controlled,
  unsupported_asset,
}
use zkdeal_prover.RoomV5.Storage.{mapping_slot_v5, read_storage_v5}

pub checked_add_v5 : U256 → U256 → Refusal → Result Refusal U256
checked_add_v5 left right refusal = ok_or (checked_add_u256 left right) refusal

-- The fees of every admission that references one deposit.
pub admission_fees : ℕ → U256 → List AdmissionRecordV5 → Result Refusal U256
admission_fees inbox_id fees [] = ok fees
admission_fees inbox_id fees (admission ∷ admissions) = do
  fees' ←
      (if admission.receipt.deposit_inbox_id == inbox_id
        then checked_add_v5 fees admission.receipt.admission_fee admission_fee_total_overflow
        else ok fees)
  admission_fees inbox_id fees' admissions

-- A native credit raises the beneficiary's balance.
pub credit_native : DepositV5 → U256 → StateMap → Result Refusal StateMap
credit_native deposit net state = do
  reject_if
      (is_some_and state.access_accounts (λ allowed. not (contains deposit.beneficiary allowed)))
      beneficiary_outside_envelope
  let account = account_or_default (lookup deposit.beneficiary state.accounts)
  balance ← checked_add_v5 account.balance net beneficiary_balance_overflow
  ok (record state {
    accounts = insert deposit.beneficiary (record account { balance = balance }) state.accounts;
  })

-- The certified in-room token of an asset: the first ERC-20 binding of the exit policy.
pub token_binding : BatchInputV5 → Address → Option ExitAssetBindingV5
token_binding input asset = elim input.policy.exit [
  | none ↦ none
  | some exit ↦
      find? (λ (bound : ExitAssetBindingV5). bound.asset == asset && bound.kind == 1) exit.assets
]

module _ ⦃keccak : Keccak⦄ where
  -- An ERC-20 credit raises the beneficiary's slot of the bound token.
  pub credit_token : ExitAssetBindingV5 → DepositV5 → U256 → StateMap → Result Refusal StateMap
  credit_token bound deposit net state = do
    let slot = mapping_slot_v5 deposit.beneficiary bound.balance_slot
    current ← read_storage_v5 state bound.token slot
    credited ← checked_add_v5 current net token_balance_overflow
    account ← ok_or (lookup bound.token state.accounts) token_account_absent
    ok (record state {
      accounts =
          insert bound.token (record account { storage = insert slot credited account.storage })
            state.accounts;
    })

  -- One round of the loop over the deposits.
  pub apply_deposit_credit : BatchInputV5 → DepositV5 → StateMap → Result Refusal StateMap
  unfolding checked_add_v5 credit_native token_binding credit_token
  apply_deposit_credit input deposit state = if deposit.refunded then ok state else do
    fees ← admission_fees deposit.inbox_id 0 input.admissions
    net ← ok_or (checked_sub deposit.amount fees) fees_exceed_deposit
    if net == 0
        then ok state
        else if deposit.asset == 0
        then credit_native deposit net state
        else do
          bound ← ok_or (token_binding input deposit.asset) no_token_binding
          credit_token bound deposit net state

  unfoldable pub apply_deposit_credits :
      BatchInputV5 → List DepositV5 → StateMap → Result Refusal StateMap
  apply_deposit_credits input [] state = ok state
  apply_deposit_credits input (deposit ∷ deposits) state = do
    state' ← apply_deposit_credit input deposit state
    apply_deposit_credits input deposits state'

  unfoldable pub apply_deposit_credits_v5 : BatchInputV5 → StateMap → Result Refusal StateMap
  unfolding apply_deposit_credits
  apply_deposit_credits_v5 input state = apply_deposit_credits input input.deposits state

-- What one deposit adds to the map of consumed totals; a refund adds nothing.
pub consume_deposit : DepositV5 → Map U256 → Result Refusal (Map U256)
unfolding checked_add_v5
consume_deposit deposit deposits = if deposit.refunded then ok deposits else do
  total ← checked_add_v5 (amount_at deposit.asset deposits) deposit.amount deposit_total_overflow
  ok (insert deposit.asset total deposits)

-- The loop over the inbox records crossed by the batch.
unfoldable pub collect_deposits : ℕ → ℕ → List DepositV5 → Map U256 → Result Refusal (Map U256)
unfolding consume_deposit
collect_deposits cursor offset [] deposits = ok deposits
collect_deposits cursor offset (deposit ∷ rest) deposits = do
  expected_id ← ok_or (checked_add_u64 cursor (offset + 1)) inbox_id_overflow
  reject_if
      (deposit.inbox_id != expected_id
        || deposit.depositor == 0
        || deposit.amount == 0
        || deposit.beneficiary == 0
        || deposit.queued_at_block == 0
        || deposit.consumed)
      malformed_deposit
  deposits' ← consume_deposit deposit deposits
  collect_deposits cursor (offset + 1) rest deposits'

unfoldable pub collect_withdrawals : List WithdrawalV5 → Map U256 → Result Refusal (Map U256)
unfolding checked_add_v5
collect_withdrawals [] withdrawals = ok withdrawals
collect_withdrawals (withdrawal ∷ rest) withdrawals = do
  total ←
      checked_add_v5 (amount_at withdrawal.asset withdrawals) withdrawal.amount
        withdrawal_total_overflow
  collect_withdrawals rest (insert withdrawal.asset total withdrawals)

-- The checks on one pair of liability records, given what the batch moves of their asset.
pub settle_asset :
    Bool
    → AssetLiabilityV5
    → AssetLiabilityV5
    → Option Address
    → U256
    → U256
    → Result Refusal (Unit {0})
unfolding checked_add_v5
settle_asset close pre post previous deposit withdrawal = do
  reject_if
      (pre.asset != post.asset
        || is_some_and previous (λ asset. leb pre.asset asset)
        || pre.paid != post.paid)
      liabilities_not_aligned
  expected_pending ← ok_or (checked_sub pre.pending deposit) deposit_exceeds_pending
  expected_claimable ← checked_add_v5 pre.claimable withdrawal claimable_overflow
  available_controlled ← checked_add_v5 pre.controlled deposit controlled_overflow
  expected_controlled ←
      ok_or (checked_sub available_controlled withdrawal) withdrawal_exceeds_controlled
  reject_if
      (post.pending != expected_pending
        || post.claimable != expected_claimable
        || post.controlled != expected_controlled)
      liabilities_not_conserved
  reject_if (close && post.controlled != 0) close_leaves_controlled
  ok tt

-- The loop over the two liability vectors. It returns what is left of the two maps of totals.
unfoldable pub settle_assets :
    Bool
    → List AssetLiabilityV5
    → List AssetLiabilityV5
    → Option Address
    → Map U256
    → Map U256
    → Result Refusal (Map U256 × Map U256)
settle_assets close [] posts previous deposits withdrawals = ok (deposits, withdrawals)
settle_assets close (pre ∷ pres) [] previous deposits withdrawals = ok (deposits, withdrawals)
settle_assets close (pre ∷ pres) (post ∷ posts) previous deposits withdrawals = do
  settle_asset close pre post previous (amount_at pre.asset deposits)
      (amount_at pre.asset withdrawals)
  settle_assets close pres posts (some pre.asset) (remove pre.asset deposits)
      (remove pre.asset withdrawals)

module _ ⦃keccak : Keccak⦄ where
  unfoldable pub validate_liabilities_v5 : BatchInputV5 → Result Refusal (Unit {0})
  validate_liabilities_v5 input = do
    let journal = input.journal
    reject_if (journal.authorization_mode == 1 && is_none input.policy.exit)
        unprovable_without_exit_binding
    reject_if
        (liabilities_hash_v5 input.pre_liabilities != journal.pre_liabilities_hash
          || liabilities_hash_v5 input.post_liabilities != journal.post_liabilities_hash
          || length input.pre_liabilities != length input.post_liabilities)
        liability_preimages_differ
    reject_if (inbox_records_hash_v5 input.deposits != journal.inbox_records_hash)
        inbox_records_differ
    deposits ← collect_deposits journal.inbox_cursor_before 0 input.deposits []
    inbox_cursor ←
        ok_or (checked_add_u64 journal.inbox_cursor_before (length input.deposits))
          inbox_cursor_overflow
    reject_if (journal.inbox_cursor_after != inbox_cursor) inbox_cursor_differs
    withdrawals ← collect_withdrawals input.withdrawals []
    expected_root ←
        ok_or
          (withdrawal_root_v5 journal.deployment_domain journal.room_id journal.outbox_epoch
            input.withdrawals input.withdrawal_capacity)
          invalid_withdrawal_tree
    reject_if (expected_root != journal.withdrawal_root) withdrawal_tree_differs
    left ←
        settle_assets journal.close input.pre_liabilities input.post_liabilities none deposits
          withdrawals
    reject_if (not (is_empty left.0) || not (is_empty left.1)) unsupported_asset
    ok tt
