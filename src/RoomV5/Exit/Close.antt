-- ===== src/RoomV5/Exit/Close.antt =====
-- The properties of `validate_exit_v5` for a validity-only room with an exit binding.
use mathlib.Core.List.{append-nil}
use zkdeal_prover.Prelude.{
  ℕ, ◌+◌, ◌≡◌, true, false, some, List, [], ◌∷◌, ◌++◌, arith, ok, Result-cases, inl, inr, sum_by,
  sum_by-append, length, All, All-map, ap, ◌∙◌,
}
use zkdeal_prover.Prelude.Map.{Map, amount_at, amount_at-nil}
use zkdeal_prover.StfTypes.Scalars.{Address, U256}
use zkdeal_prover.StfTypes.Abi.{Keccak}
use zkdeal_prover.StfTypes.V5.{ExitBindingV5, AssetLiabilityV5, BatchInputV5}
use zkdeal_prover.State.{StateMap}
use zkdeal_prover.RoomV5.Liabilities.Totals.{consumed, withdrawn}
use zkdeal_prover.RoomV5.Exit.{ExitRecordV5, derive_close_sweep_v5}
use zkdeal_prover.RoomV5.Exit.Allocation.{
  consumed_totals, recorded_totals, residual_totals, number_withdrawals, close_sweep,
  validate_exit_v5,
}
use zkdeal_prover.RoomV5.Exit.Payout.{paid_of, is_bound, AreDistinct, derive_close_sweep_v5-paid}
use zkdeal_prover.RoomV5.Exit.Derived.{IsDerived, derived}
use zkdeal_prover.RoomV5.Exit.Queue.{
  queue_word, ArePayouts, read_exit_records_v5-AreRecords, exit_record_count_v5-word,
  number_withdrawals-ArePayouts,
}
use zkdeal_prover.RoomV5.Exit.Records.{
  length-number_withdrawals, IsResidual, AreSeparate, consumed_totals-amount,
  recorded_totals-amount, withdrawn-number_withdrawals, residual_totals-IsResidual,
}

module _ ⦃keccak : Keccak⦄ (input : BatchInputV5) (binding : ExitBindingV5) (state : StateMap) where
  -- One asset is paid out whole: what its records and its sweep pay is all that was controlled.
  abbrev IsPaidOut : List ExitRecordV5 → List ExitRecordV5 → AssetLiabilityV5 → Type 0
  IsPaidOut records swept pre =
      is_bound pre.asset binding.assets ≡ true
      → sum_by (paid_of pre.asset) records + sum_by (paid_of pre.asset) swept
        ≡ pre.controlled + consumed pre.asset input.deposits

  module _ (records swept : List ExitRecordV5) (distinct : AreDistinct binding.assets) where
    IsPaidOut-All :
        (totals recorded residuals : Map U256)
        → ((a : Address) → amount_at a totals ≡ consumed a input.deposits)
        → ((a : Address) → amount_at a recorded ≡ sum_by (paid_of a) records)
        → derive_close_sweep_v5 binding state residuals ≡ ok swept
        → (pres : List AssetLiabilityV5) → All (IsResidual totals recorded residuals) pres
        → All (IsPaidOut records swept) pres
    IsPaidOut-All totals recorded residuals ht hr hs [] h = tt
    IsPaidOut-All totals recorded residuals ht hr hs (pre ∷ pres) h = (
      (λ bound. ground (
        arith,
        ht pre.asset,
        hr pre.asset,
        derive_close_sweep_v5-paid binding state residuals swept pre.asset distinct hs,
      )),
      IsPaidOut-All totals recorded residuals ht hr hs pres h.1,
    )

    close_sweep-paid :
        AreSeparate input.pre_liabilities
        → close_sweep input binding state records ≡ ok swept
        → All (IsPaidOut records swept) input.pre_liabilities
    unfolding close_sweep
    close_sweep-paid separate h = elim (Result-cases (consumed_totals input.deposits [])) [
      | inr (x, e) ↦ absurd (ground arith)
      | inl (totals, et) ↦ elim (Result-cases (recorded_totals records [])) [
        | inr (x, e) ↦ absurd (ground arith)
        | inl (recorded, er) ↦
            elim (Result-cases (residual_totals input.pre_liabilities totals recorded [])) [
              | inr (x, e) ↦ absurd (ground arith)
              | inl (residuals, es) ↦
                  IsPaidOut-All totals recorded residuals
                    (λ a.
                      consumed_totals-amount a input.deposits [] totals et
                      ∙ omega (arith, amount_at-nil a))
                    (λ a.
                      recorded_totals-amount a records [] recorded er
                      ∙ omega (arith, amount_at-nil a))
                    (ground arith) input.pre_liabilities
                    (residual_totals-IsResidual totals recorded input.pre_liabilities residuals es
                      separate)
            ]
      ]
    ]

  module _ (pre_exit_count : ℕ) (bound : input.policy.exit ≡ some binding)
      (validity : input.journal.authorization_mode ≡ 1)
      (valid : validate_exit_v5 input pre_exit_count state ≡ ok tt) where
    derived_exit : IsDerived input binding pre_exit_count state
    unfolding validate_exit_v5
    derived_exit = derived input binding pre_exit_count state (ground arith)

    -- In a validity-only room with an exit binding an accepted batch that does not close withdraws
    -- exactly what the exit queue gained: its withdrawals are as many as the queue's count rose by since
    -- the cursor, and in order each has the next place of the tree, the post epoch, and the recipient,
    -- the asset and the amount that the queue contract stores for the next index behind the cursor.
    pub validate_exit_v5-records :
        input.journal.close ≡ false
        → (pre_exit_count + length input.withdrawals ≡ queue_word binding state binding.count_slot)
          × ArePayouts binding state input.journal.post_roster_epoch 0 pre_exit_count
              input.withdrawals
    validate_exit_v5-records open' =
        let d = derived_exit in
        let epoch = input.journal.post_roster_epoch in
        let unswept : d.swept ≡ [] = ground arith in
        let whole : d.records ++ d.swept ≡ d.records = rw (unswept, append-nil) in
        let same = d.withdrawals ∙ ap (number_withdrawals 0 epoch) whole in
        let stored =
          read_exit_records_v5-AreRecords binding state pre_exit_count d.post_count d.records
            d.read in
        (
          omega (
            arith,
            ap length same,
            length-number_withdrawals 0 epoch d.records,
            stored.1,
            d.advanced,
            exit_record_count_v5-word binding state d.post_count d.counted,
          ),
          rw same (
              number_withdrawals-ArePayouts binding state epoch 0 pre_exit_count d.records
                stored.0),
        )

    -- In a validity-only room an accepted closing batch pays out every bound asset: when neither the
    -- bindings nor the liability records repeat an asset, its withdrawals of a bound asset sum to all
    -- that was controlled of it plus all that the batch consumes of it.
    pub validate_exit_v5-close :
        input.journal.close ≡ true
        → AreDistinct binding.assets
        → AreSeparate input.pre_liabilities
        → All
            (λ (pre : AssetLiabilityV5).
              is_bound pre.asset binding.assets ≡ true
              → withdrawn pre.asset input.withdrawals
                ≡ pre.controlled + consumed pre.asset input.deposits)
            input.pre_liabilities
    validate_exit_v5-close closing distinct separate =
        let d = derived_exit in
        let swept : close_sweep input binding state d.records ≡ ok d.swept =
          ground (arith, d.sweep) in
        let total = λ (asset : Address).
          ap (withdrawn asset) d.withdrawals
          ∙ withdrawn-number_withdrawals asset 0 input.journal.post_roster_epoch
              (d.records ++ d.swept)
          ∙ sum_by-append (paid_of asset) d.records d.swept in
        All-map (IsPaidOut d.records d.swept) _ (λ pre paid named. total pre.asset ∙ paid named)
          input.pre_liabilities (close_sweep-paid d.records d.swept distinct separate swept)
