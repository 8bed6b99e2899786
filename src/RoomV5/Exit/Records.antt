-- ===== src/RoomV5/Exit/Records.antt =====
-- The totals of exit records, and the withdrawals that they become.
use zkdeal_prover.Prelude.{
  ℕ, suc, ◌+◌, ◌-◌, ◌≡◌, ◌≢◌, refl, Bool, false, List, [], ◌∷◌, arith, ◌==◌, ok, Bool-cases, inl,
  inr, length, sum_by, All, any, ap, ◌∙◌,
}
use zkdeal_prover.Prelude.Map.{Map, amount_at, insert, lookup-insert, amount_at-nil}
use zkdeal_prover.StfTypes.Scalars.{Address, U256}
use zkdeal_prover.StfTypes.V5.{AssetLiabilityV5, DepositV5}
use zkdeal_prover.RoomV5.Liabilities.Totals.{consumed, withdrawn}
use zkdeal_prover.RoomV5.Exit.{ExitRecordV5}
use zkdeal_prover.RoomV5.Exit.Allocation.{
  consumed_totals, recorded_totals, residual_totals, number_withdrawals,
}
use zkdeal_prover.RoomV5.Exit.Payout.{paid_of}

pub consumed_totals-amount :
    (asset : Address) (deposits : List DepositV5) (m m' : Map U256)
    → consumed_totals deposits m ≡ ok m'
    → amount_at asset m' ≡ amount_at asset m + consumed asset deposits
unfolding consumed_totals
consumed_totals-amount asset [] m m' h = ground arith
consumed_totals-amount asset (deposit ∷ deposits) m m' h =
    let total = amount_at deposit.asset m + deposit.amount in
    ground (
      arith,
      lookup-insert asset deposit.asset total m,
      consumed_totals-amount asset deposits m m',
      consumed_totals-amount asset deposits (insert deposit.asset total m) m',
    )

pub recorded_totals-amount :
    (asset : Address) (records : List ExitRecordV5) (m m' : Map U256)
    → recorded_totals records m ≡ ok m'
    → amount_at asset m' ≡ amount_at asset m + sum_by (paid_of asset) records
unfolding recorded_totals
recorded_totals-amount asset [] m m' h = ground arith
recorded_totals-amount asset (one ∷ records) m m' h =
    let total = amount_at one.asset m + one.amount in
    ground (
      arith,
      lookup-insert asset one.asset total m,
      recorded_totals-amount asset records (insert one.asset total m) m',
    )

-- The withdrawals of an allocation pay what its records pay.
pub withdrawn-number_withdrawals :
    (asset : Address) (index epoch : ℕ) (records : List ExitRecordV5)
    → withdrawn asset (number_withdrawals index epoch records) ≡ sum_by (paid_of asset) records
unfolding number_withdrawals
withdrawn-number_withdrawals asset index epoch [] = refl
withdrawn-number_withdrawals asset index epoch (one ∷ records) =
    omega (arith, withdrawn-number_withdrawals asset (index + 1) epoch records)

pub length-number_withdrawals :
    (index epoch : ℕ) (records : List ExitRecordV5)
    → length (number_withdrawals index epoch records) ≡ length records
unfolding number_withdrawals
length-number_withdrawals index epoch [] = refl
length-number_withdrawals index epoch (one ∷ records) =
    ap suc (length-number_withdrawals (index + 1) epoch records)

-- No two liability records name one asset.
abbrev pub names : Address → List AssetLiabilityV5 → Bool
names asset pres = any (λ (pre : AssetLiabilityV5). pre.asset == asset) pres

abbrev pub AreSeparate : List AssetLiabilityV5 → Type 0
AreSeparate [] = Unit
AreSeparate (pre ∷ pres) = (names pre.asset pres ≡ false) × AreSeparate pres

module _ (consumed' recorded : Map U256) where
  residual_totals-other :
      (asset : Address) (pres : List AssetLiabilityV5) (m m' : Map U256)
      → residual_totals pres consumed' recorded m ≡ ok m'
      → names asset pres ≡ false
      → amount_at asset m' ≡ amount_at asset m
  unfolding residual_totals
  residual_totals-other asset [] m m' h absent = ground arith
  residual_totals-other asset (pre ∷ pres) m m' h absent =
      let residual =
        pre.controlled + amount_at pre.asset consumed' - amount_at pre.asset recorded in
      ground (
        arith,
        lookup-insert asset pre.asset residual m,
        residual_totals-other asset pres m m',
        residual_totals-other asset pres (insert pre.asset residual m) m',
      )

  -- A residual balances its asset's records against what was controlled and what is consumed.
  abbrev pub IsResidual : Map U256 → AssetLiabilityV5 → Type 0
  IsResidual residuals pre =
      amount_at pre.asset residuals + amount_at pre.asset recorded
      ≡ pre.controlled + amount_at pre.asset consumed'

  residual_totals-first :
      (pre : AssetLiabilityV5) (pres : List AssetLiabilityV5) (m m' : Map U256)
      → residual_totals (pre ∷ pres) consumed' recorded m ≡ ok m'
      → names pre.asset pres ≡ false
      → amount_at pre.asset m ≡ 0
      → IsResidual m' pre
  unfolding residual_totals
  residual_totals-first pre pres m m' h absent fresh =
      let residual =
        pre.controlled + amount_at pre.asset consumed' - amount_at pre.asset recorded in
      ground (
        arith,
        lookup-insert pre.asset pre.asset residual m,
        residual_totals-other pre.asset pres m m',
        residual_totals-other pre.asset pres (insert pre.asset residual m) m',
      )

  -- What a round leaves to the rounds behind it.
  residual_totals-inv :
      (pre : AssetLiabilityV5) (pres : List AssetLiabilityV5) (m m' : Map U256)
      → residual_totals (pre ∷ pres) consumed' recorded m ≡ ok m'
      → (m₁ : Map U256) × (residual_totals pres consumed' recorded m₁ ≡ ok m')
        × ((asset : Address) → pre.asset ≢ asset → amount_at asset m₁ ≡ amount_at asset m)
  unfolding residual_totals
  residual_totals-inv pre pres m m' h =
      let residual =
        pre.controlled + amount_at pre.asset consumed' - amount_at pre.asset recorded in
      elim (Bool-cases (residual == 0)) [
        | inl none_left ↦ (m, ground arith, λ asset ne. refl)
        | inr some_left ↦ (
          insert pre.asset residual m,
          ground arith,
          λ asset ne. ground (arith, lookup-insert asset pre.asset residual m),
        )
      ]

  abbrev AreFresh : Map U256 → List AssetLiabilityV5 → Type 0
  AreFresh m pres = All (λ (pre : AssetLiabilityV5). amount_at pre.asset m ≡ 0) pres

  AreFresh-kept :
      (k : Address) (m m₁ : Map U256) (pres : List AssetLiabilityV5)
      → ((asset : Address) → k ≢ asset → amount_at asset m₁ ≡ amount_at asset m)
      → names k pres ≡ false
      → AreFresh m pres
      → AreFresh m₁ pres
  AreFresh-kept k m m₁ [] kept absent fresh = tt
  AreFresh-kept k m m₁ (pre ∷ pres) kept absent fresh =
      let other : k ≢ pre.asset = ground arith in
      (kept pre.asset other ∙ fresh.0, AreFresh-kept k m m₁ pres kept (ground arith) fresh.1)

  residual_totals-All :
      (pres : List AssetLiabilityV5) (m m' : Map U256)
      → residual_totals pres consumed' recorded m ≡ ok m'
      → AreSeparate pres
      → AreFresh m pres
      → All (IsResidual m') pres
  residual_totals-All [] m m' h separate fresh = tt
  residual_totals-All (pre ∷ pres) m m' h separate fresh =
      let (m₁, next, kept) = residual_totals-inv pre pres m m' h in
      (
        residual_totals-first pre pres m m' h separate.0 fresh.0,
        residual_totals-All pres m₁ m' next separate.1
            (AreFresh-kept pre.asset m m₁ pres kept separate.0 fresh.1),
      )

  AreFresh-nil : (pres : List AssetLiabilityV5) → AreFresh [] pres
  AreFresh-nil [] = tt
  AreFresh-nil (pre ∷ pres) = (amount_at-nil pre.asset, AreFresh-nil pres)

  pub residual_totals-IsResidual :
      (pres : List AssetLiabilityV5) (residuals : Map U256)
      → residual_totals pres consumed' recorded [] ≡ ok residuals
      → AreSeparate pres
      → All (IsResidual residuals) pres
  residual_totals-IsResidual pres residuals h separate =
      residual_totals-All pres [] residuals h separate (AreFresh-nil pres)
