-- ===== src/RoomV5/Liabilities/Accepted.antt =====
-- Inversion of `validate_liabilities_v5`: everything that an accepted batch has passed.
use zkdeal_prover.Prelude.{
  ◌+◌, ◌≡◌, refl, false, not, ◌||◌, none, some, [], ◌∷◌, arith, ok, err, Result, length, is_empty,
  Result-cases, inl, inr, ◌∙◌, ap,
}
use zkdeal_prover.Prelude.Map.{Map}
use zkdeal_prover.StfTypes.Scalars.{U256}
use zkdeal_prover.StfTypes.Abi.{Keccak}
use zkdeal_prover.StfTypes.V5.{BatchInputV5}
use zkdeal_prover.StfTypes.V5.Hash.{inbox_records_hash_v5, liabilities_hash_v5}
use zkdeal_prover.StfTypes.V5.Trees.{withdrawal_root_v5}
use zkdeal_prover.RoomV5.Refusal.{Refusal}
use zkdeal_prover.RoomV5.Liabilities.{
  validate_liabilities_v5, collect_deposits, collect_withdrawals, settle_assets,
}

module _ ⦃keccak : Keccak⦄ (input : BatchInputV5) where
  -- The facts that the successful run leaves, with the two maps of totals.
  pub record IsAccepted : Type 0 where
    pub deposits : Map U256
    pub withdrawals : Map U256
    pub collected :
        collect_deposits input.journal.inbox_cursor_before 0 input.deposits [] ≡ ok deposits
    pub totalled : collect_withdrawals input.withdrawals [] ≡ ok withdrawals
    pub settled :
        settle_assets input.journal.close input.pre_liabilities input.post_liabilities none deposits
          withdrawals
        ≡ ok ([], [])
    pub same_length : length input.pre_liabilities ≡ length input.post_liabilities
    pub pre_hash : liabilities_hash_v5 input.pre_liabilities ≡ input.journal.pre_liabilities_hash
    pub post_hash : liabilities_hash_v5 input.post_liabilities ≡ input.journal.post_liabilities_hash
    pub inbox_hash : inbox_records_hash_v5 input.deposits ≡ input.journal.inbox_records_hash
    pub cursor :
        input.journal.inbox_cursor_after ≡ input.journal.inbox_cursor_before + length input.deposits
    pub root :
        withdrawal_root_v5 input.journal.deployment_domain input.journal.room_id
          input.journal.outbox_epoch input.withdrawals input.withdrawal_capacity
        ≡ some input.journal.withdrawal_root

  abbrev IsSpent : Map U256 × Map U256 → Type 0
  IsSpent left = (not (is_empty left.0) || not (is_empty left.1)) ≡ false

  nothing_left : (left : Map U256 × Map U256) → IsSpent left → left ≡ ([], [])
  nothing_left ([], []) h = refl
  nothing_left ([], y ∷ ys) h = cc
  nothing_left (x ∷ xs, ys) h = cc

  module _ (deposits withdrawals : Map U256)
      (collected : collect_deposits input.journal.inbox_cursor_before 0 input.deposits []
        ≡ ok deposits)
      (totalled : collect_withdrawals input.withdrawals [] ≡ ok withdrawals) where
    abbrev settling : Result Refusal (Map U256 × Map U256)
    settling =
        settle_assets input.journal.close input.pre_liabilities input.post_liabilities none deposits
          withdrawals

    settled_lem :
        (r : Result Refusal (Map U256 × Map U256))
        → settling ≡ r
        → validate_liabilities_v5 input ≡ ok tt
        → settling ≡ ok ([], [])
    unfolding validate_liabilities_v5
    settled_lem (err x) e h = absurd (ground arith)
    settled_lem (ok left) e h = e ∙ ap ok (nothing_left left (ground arith))

    accepted_totals : validate_liabilities_v5 input ≡ ok tt → IsAccepted
    unfolding validate_liabilities_v5
    accepted_totals h = record {
      deposits = deposits;
      withdrawals = withdrawals;
      collected = collected;
      totalled = totalled;
      settled = settled_lem settling refl h;
      same_length = ground arith;
      pre_hash = ground arith;
      post_hash = ground arith;
      inbox_hash = ground arith;
      cursor = ground arith;
      root = ground arith;
    }

  pub accepted : validate_liabilities_v5 input ≡ ok tt → IsAccepted
  unfolding validate_liabilities_v5
  accepted h =
      elim (Result-cases (collect_deposits input.journal.inbox_cursor_before 0 input.deposits [])) [
        | inr (x, e) ↦ absurd (ground arith)
        | inl (deposits, e) ↦ elim (Result-cases (collect_withdrawals input.withdrawals [])) [
          | inr (x, e') ↦ absurd (ground arith)
          | inl (withdrawals, e') ↦ accepted_totals deposits withdrawals e e' h
        ]
      ]
