-- ===== src/RoomV5/Exit/Derived.antt =====
-- An accepted batch of a validity-only room withdraws what the proved state derives.
use zkdeal_prover.Prelude.{
  sym, ℕ, ◌≤◌, ◌≡◌, refl, true, List, [], ◌∷◌, ◌++◌, arith, if◌then◌else◌, ok, Result, Result-cases,
  inl, inr, length, ap, ◌∙◌,
}
use zkdeal_prover.StfTypes.Abi.{Keccak}
use zkdeal_prover.StfTypes.V5.{ExitBindingV5, WithdrawalV5, BatchInputV5}
use zkdeal_prover.State.{StateMap}
use zkdeal_prover.RoomV5.Refusal.{Refusal}
use zkdeal_prover.RoomV5.Exit.{
  ExitRecordV5, read_exit_records_v5, exit_record_count_v5, withdrawal_tree_capacity_v5,
}
use zkdeal_prover.RoomV5.Exit.Allocation.{
  number_withdrawals, same_withdrawals, close_sweep, validate_derived_exit,
}

same_withdrawals_sound : (as' bs : List WithdrawalV5) → same_withdrawals as' bs ≡ true → as' ≡ bs
unfolding same_withdrawals
same_withdrawals_sound [] [] h = refl
same_withdrawals_sound [] (b ∷ bs) h = cc
same_withdrawals_sound (a ∷ as') [] h = cc
same_withdrawals_sound (a ∷ as') (b ∷ bs) h = ground (arith, same_withdrawals_sound as' bs)

module _ ⦃keccak : Keccak⦄ (input : BatchInputV5) (binding : ExitBindingV5) (pre_exit_count : ℕ)
    (state : StateMap) where
  -- What an accepted exit derives: the records of the batch, the sweep behind them, and the
  -- withdrawals that both amount to.
  pub record IsDerived : Type 0 where
    pub post_count : ℕ
    pub records : List ExitRecordV5
    pub swept : List ExitRecordV5
    pub counted : exit_record_count_v5 binding state ≡ ok post_count
    pub advanced : pre_exit_count ≤ post_count
    pub read : read_exit_records_v5 binding state pre_exit_count post_count ≡ ok records
    pub sweep :
        (if input.journal.close then close_sweep input binding state records else ok []) ≡ ok swept
    pub withdrawals :
        input.withdrawals ≡ number_withdrawals 0 input.journal.post_roster_epoch (records ++ swept)
    pub capacity :
        withdrawal_tree_capacity_v5
          (length (number_withdrawals 0 input.journal.post_roster_epoch (records ++ swept)))
        ≡ ok input.withdrawal_capacity

  abbrev sweep_of : List ExitRecordV5 → Result Refusal (List ExitRecordV5)
  sweep_of records = if input.journal.close then close_sweep input binding state records else ok []

  abbrev allocation : List ExitRecordV5 → List WithdrawalV5
  allocation records = number_withdrawals 0 input.journal.post_roster_epoch records

  module _ (post_count : ℕ) (records swept : List ExitRecordV5) (capacity : ℕ)
      (counted : exit_record_count_v5 binding state ≡ ok post_count)
      (read : read_exit_records_v5 binding state pre_exit_count post_count ≡ ok records)
      (sweep : sweep_of records ≡ ok swept)
      (sized : withdrawal_tree_capacity_v5 (length (allocation (records ++ swept)))
        ≡ ok capacity) where
    -- The two comparisons at the end of the run.
    compared :
        validate_derived_exit input binding pre_exit_count state ≡ ok tt
        → (same_withdrawals input.withdrawals (allocation (records ++ swept)) ≡ true)
          × (input.withdrawal_capacity ≡ capacity)
          × (pre_exit_count ≤ post_count)
    unfolding validate_derived_exit
    compared valid = (ground arith, ground arith, ground arith)

    derived_parts : validate_derived_exit input binding pre_exit_count state ≡ ok tt → IsDerived
    derived_parts valid = record {
      post_count = post_count;
      records = records;
      swept = swept;
      counted = counted;
      advanced = (compared valid).2;
      read = read;
      sweep = sweep;
      withdrawals = same_withdrawals_sound _ _ (compared valid).0;
      capacity = sized ∙ ap ok (sym (compared valid).1);
    }

  pub derived : validate_derived_exit input binding pre_exit_count state ≡ ok tt → IsDerived
  unfolding validate_derived_exit
  derived valid = elim (Result-cases (exit_record_count_v5 binding state)) [
    | inr (x, e) ↦ absurd (ground arith)
    | inl (post_count, counted) ↦
        elim (Result-cases (read_exit_records_v5 binding state pre_exit_count post_count)) [
          | inr (x, e) ↦ absurd (ground arith)
          | inl (records, read) ↦ elim (Result-cases (sweep_of records)) [
            | inr (x, e) ↦ absurd (ground arith)
            | inl (swept, sweep) ↦
                elim (Result-cases
                  (withdrawal_tree_capacity_v5 (length (allocation (records ++ swept))))) [
                    | inr (x, e) ↦ absurd (ground arith)
                    | inl (capacity, sized) ↦
                        derived_parts post_count records swept capacity counted read sweep sized
                          valid
                  ]
          ]
        ]
  ]
