-- ===== src/RoomV5/Exit/Allocation.antt =====
-- The derived allocation of a batch: `validate_exit_v5` of zkvm/crates/stf-core/src/room_v5/exit.rs.
use zkdeal_prover.Prelude.{
  ℕ, ◌+◌, Bool, true, false, not, ◌&&◌, ◌||◌, none, some, List, [], ◌∷◌, ◌++◌, ltb, ◌==◌, ◌!=◌,
  if◌then◌else◌, length, Result, ok, ◌>>=◌, ◌>>◌, reject_if, ok_or,
}
use zkdeal_prover.Prelude.Map.{Map, insert, amount_at}
use zkdeal_prover.Words.{checked_sub}
use zkdeal_prover.StfTypes.Scalars.{U256}
use zkdeal_prover.StfTypes.Abi.{Keccak}
use zkdeal_prover.StfTypes.V5.{
  ExitBindingV5, AssetLiabilityV5, DepositV5, WithdrawalV5, BatchInputV5,
}
use zkdeal_prover.State.{StateMap}
use zkdeal_prover.RoomV5.Refusal.{
  Refusal, exit_count_regressed, exit_total_overflow, exit_records_exceed_controlled,
  withdrawals_not_derived,
}
use zkdeal_prover.RoomV5.Exit.{
  ExitRecordV5, checked_add_exit_v5, exit_record_count_v5, read_exit_records_v5,
  derive_close_sweep_v5, withdrawal_tree_capacity_v5,
}

-- The totals that the close path takes of consumed deposits and of exit records.
unfoldable pub consumed_totals : List DepositV5 → Map U256 → Result Refusal (Map U256)
unfolding checked_add_exit_v5
consumed_totals [] totals = ok totals
consumed_totals (deposit ∷ deposits) totals =
    let rest = consumed_totals deposits totals in
    if deposit.refunded then rest else do
      total ←
          checked_add_exit_v5 (amount_at deposit.asset totals) deposit.amount exit_total_overflow
      consumed_totals deposits (insert deposit.asset total totals)

unfoldable pub recorded_totals : List ExitRecordV5 → Map U256 → Result Refusal (Map U256)
unfolding checked_add_exit_v5
recorded_totals [] totals = ok totals
recorded_totals (one ∷ records) totals = do
  total ← checked_add_exit_v5 (amount_at one.asset totals) one.amount exit_total_overflow
  recorded_totals records (insert one.asset total totals)

-- What stays controlled of each asset after the records of the batch.
unfoldable pub residual_totals :
    List AssetLiabilityV5 → Map U256 → Map U256 → Map U256 → Result Refusal (Map U256)
unfolding checked_add_exit_v5
residual_totals [] consumed recorded residuals = ok residuals
residual_totals (pre ∷ pres) consumed recorded residuals = do
  available ← checked_add_exit_v5 pre.controlled (amount_at pre.asset consumed) exit_total_overflow
  residual ←
      ok_or (checked_sub available (amount_at pre.asset recorded)) exit_records_exceed_controlled
  residual_totals pres consumed recorded
      (if residual != 0 then insert pre.asset residual residuals else residuals)

-- `enumerate` gives each obligation its position in the withdrawal tree.
unfoldable pub number_withdrawals : ℕ → ℕ → List ExitRecordV5 → List WithdrawalV5
number_withdrawals index roster_epoch [] = []
number_withdrawals index roster_epoch (one ∷ records) =
    record {
      index = index;
      roster_epoch = roster_epoch;
      recipient = one.recipient;
      asset = one.asset;
      amount = one.amount;
    }
    ∷ number_withdrawals (index + 1) roster_epoch records

unfoldable pub same_withdrawal : WithdrawalV5 → WithdrawalV5 → Bool
same_withdrawal a b =
    a.index == b.index
    && a.roster_epoch == b.roster_epoch
    && a.recipient == b.recipient
    && a.asset == b.asset
    && a.amount == b.amount

-- `==` on vectors of withdrawals.
unfoldable pub same_withdrawals : List WithdrawalV5 → List WithdrawalV5 → Bool
unfolding same_withdrawal
same_withdrawals [] [] = true
same_withdrawals [] (b ∷ bs) = false
same_withdrawals (a ∷ as') [] = false
same_withdrawals (a ∷ as') (b ∷ bs) = same_withdrawal a b && same_withdrawals as' bs

module _ ⦃keccak : Keccak⦄ where
  -- The sweep leaves of a closing batch.
  unfoldable pub close_sweep :
      BatchInputV5
      → ExitBindingV5
      → StateMap
      → List ExitRecordV5
      → Result Refusal (List ExitRecordV5)
  close_sweep input binding terminal_state records = do
    consumed ← consumed_totals input.deposits []
    recorded ← recorded_totals records []
    residuals ← residual_totals input.pre_liabilities consumed recorded []
    derive_close_sweep_v5 binding terminal_state residuals

  -- The part of `validate_exit_v5` behind its two early returns.
  unfoldable pub validate_derived_exit :
      BatchInputV5 → ExitBindingV5 → ℕ → StateMap → Result Refusal (Unit {0})
  unfolding close_sweep
  validate_derived_exit input binding pre_exit_count terminal_state = do
    post_count ← exit_record_count_v5 binding terminal_state
    reject_if (ltb post_count pre_exit_count) exit_count_regressed
    records ← read_exit_records_v5 binding terminal_state pre_exit_count post_count
    swept ←
        (if input.journal.close then close_sweep input binding terminal_state records else ok [])
    let expected = number_withdrawals 0 input.journal.post_roster_epoch (records ++ swept)
    capacity ← withdrawal_tree_capacity_v5 (length expected)
    reject_if
        (not (same_withdrawals input.withdrawals expected) || input.withdrawal_capacity != capacity)
        withdrawals_not_derived
    ok tt

  unfoldable pub validate_exit_v5 : BatchInputV5 → ℕ → StateMap → Result Refusal (Unit {0})
  validate_exit_v5 input pre_exit_count terminal_state = elim input.policy.exit [
    | none ↦ ok tt
    | some binding ↦
        if input.journal.authorization_mode != 1
        then ok tt
        else validate_derived_exit input binding pre_exit_count terminal_state
  ]
