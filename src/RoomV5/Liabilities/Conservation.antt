-- ===== src/RoomV5/Liabilities/Conservation.antt =====
-- What an accepted batch does to the escrow of a room.
use zkdeal_prover.Prelude.{
  ℕ, ◌+◌, ◌≡◌, refl, true, false, none, List, [], ◌∷◌, arith, ◌==◌, ok, length, any, AllPairs,
  AllPairs-map, sum_by,
}
use zkdeal_prover.Prelude.Map.{amount_at, amount_at-nil}
use zkdeal_prover.StfTypes.Scalars.{Address}
use zkdeal_prover.StfTypes.Abi.{Keccak}
use zkdeal_prover.StfTypes.V5.{AssetLiabilityV5, BatchInputV5}
use zkdeal_prover.RoomV5.Liabilities.{validate_liabilities_v5}
use zkdeal_prover.RoomV5.Liabilities.Totals.{
  consumed, withdrawn, AreCrossed, collect_deposits-amount, collect_withdrawals-amount,
  collect_deposits-AreCrossed,
}
use zkdeal_prover.RoomV5.Liabilities.Settled.{
  IsConserved, IsSettledPair, settle_assets-settled, settle_assets-left,
}
use zkdeal_prover.RoomV5.Liabilities.Accepted.{accepted}

-- All that one record holds in custody, whatever its class.
abbrev pub custody : AssetLiabilityV5 → ℕ
custody liability = liability.pending + liability.controlled + liability.claimable + liability.paid

custody_total :
    (f g : Address → ℕ) (pres posts : List AssetLiabilityV5)
    → length pres ≡ length posts
    → AllPairs (λ pre post. IsConserved pre post (f pre.asset) (g pre.asset)) pres posts
    → sum_by custody posts ≡ sum_by custody pres
custody_total f g [] [] e h = refl
custody_total f g [] (post ∷ posts) e h = absurd (omega arith)
custody_total f g (pre ∷ pres) [] e h = absurd (omega arith)
custody_total f g (pre ∷ pres) (post ∷ posts) e (one, rest) =
    let moved : custody post ≡ custody pre =
      omega (arith, one.pending, one.controlled, one.claimable, one.paid) in
    omega (arith, custody_total f g pres posts (omega arith) rest)

module _ ⦃keccak : Keccak⦄ (input : BatchInputV5)
    (valid : validate_liabilities_v5 input ≡ ok tt) where
  deposit_totals :
      (asset : Address)
      → amount_at asset (accepted input valid).deposits ≡ consumed asset input.deposits
  deposit_totals asset = omega (
    arith,
    collect_deposits-amount asset input.journal.inbox_cursor_before 0 input.deposits []
        (accepted input valid).deposits (accepted input valid).collected,
    amount_at-nil asset,
  )

  withdrawal_totals :
      (asset : Address)
      → amount_at asset (accepted input valid).withdrawals ≡ withdrawn asset input.withdrawals
  withdrawal_totals asset = omega (
    arith,
    collect_withdrawals-amount asset input.withdrawals [] (accepted input valid).withdrawals
        (accepted input valid).totalled,
    amount_at-nil asset,
  )

  all_settled :
      AllPairs
        (IsSettledPair
          (λ a. consumed a input.deposits)
          (λ a. withdrawn a input.withdrawals)
          input.journal.close)
        input.pre_liabilities
        input.post_liabilities
  all_settled =
      settle_assets-settled (λ a. consumed a input.deposits) (λ a. withdrawn a input.withdrawals)
        input.journal.close input.pre_liabilities input.post_liabilities none
        (accepted input valid).deposits (accepted input valid).withdrawals ([], [])
        (accepted input valid).settled (λ a _. deposit_totals a) (λ a _. withdrawal_totals a)

  -- In an accepted batch every pair of liability records keeps its asset and its paid total, lowers
  -- pending by the value of the consumed deposits of that asset, raises claimable by its
  -- withdrawals, and lets controlled take the one and give the other.
  pub validate_liabilities_v5-conserves :
      AllPairs
        (λ pre post.
          IsConserved pre post
            (consumed pre.asset input.deposits)
            (withdrawn pre.asset input.withdrawals))
        input.pre_liabilities
        input.post_liabilities
  validate_liabilities_v5-conserves =
      AllPairs-map _ _ (λ pre post h. h.0) input.pre_liabilities input.post_liabilities all_settled

  -- An accepted batch creates and destroys no custody: pending, controlled, claimable and paid value
  -- have the same sum over all assets before and after.
  pub validate_liabilities_v5-custody :
      sum_by custody input.post_liabilities ≡ sum_by custody input.pre_liabilities
  validate_liabilities_v5-custody =
      custody_total (λ a. consumed a input.deposits) (λ a. withdrawn a input.withdrawals)
        input.pre_liabilities input.post_liabilities (accepted input valid).same_length
        validate_liabilities_v5-conserves

  pub validate_liabilities_v5-close :
      input.journal.close ≡ true
      → AllPairs
          (λ pre post.
            (post.controlled ≡ 0)
            × (withdrawn pre.asset input.withdrawals
                ≡ pre.controlled + consumed pre.asset input.deposits))
          input.pre_liabilities
          input.post_liabilities
  validate_liabilities_v5-close closing =
      AllPairs-map _ _ (λ pre post h. (h.1 closing, omega (arith, h.0.controlled, h.1 closing)))
        input.pre_liabilities input.post_liabilities all_settled

  -- An asset that no liability record names is neither deposited nor withdrawn by an accepted batch.
  pub validate_liabilities_v5-listed :
      (asset : Address)
      → any (λ (pre : AssetLiabilityV5). pre.asset == asset) input.pre_liabilities ≡ false
      → (consumed asset input.deposits ≡ 0) × (withdrawn asset input.withdrawals ≡ 0)
  validate_liabilities_v5-listed asset absent =
      let left =
        settle_assets-left asset input.journal.close input.pre_liabilities input.post_liabilities
          none (accepted input valid).deposits (accepted input valid).withdrawals ([], [])
          (accepted input valid).settled absent in
      omega (arith, left, amount_at-nil asset, deposit_totals asset, withdrawal_totals asset)

  -- An accepted batch crosses the L1 inbox without a gap: the records carry the ids that follow the
  -- cursor, each has an amount, a depositor, a beneficiary and a block that queued it, none is consumed
  -- before, and the cursor ends behind the last of them.
  pub validate_liabilities_v5-crosses :
      AreCrossed input.journal.inbox_cursor_before input.deposits
      × (input.journal.inbox_cursor_after
          ≡ input.journal.inbox_cursor_before + length input.deposits)
  validate_liabilities_v5-crosses =
      let crossed =
        collect_deposits-AreCrossed input.journal.inbox_cursor_before 0 input.deposits []
          (accepted input valid).deposits (accepted input valid).collected in
      let start : input.journal.inbox_cursor_before + 0 ≡ input.journal.inbox_cursor_before =
        omega arith in
      (rw start at crossed, (accepted input valid).cursor)
