-- ===== src/RoomV5/Liabilities/Totals.antt =====
-- What the two loops that total deposits and withdrawals compute, against plain sums.
use zkdeal_prover.Prelude.{
  ℕ, ◌+◌, ◌<◌, ◌≡◌, false, List, [], ◌∷◌, arith, ◌==◌, if◌then◌else◌, ok, Result-cases, inl, inr,
}
use zkdeal_prover.Prelude.Map.{Map, amount_at, insert, lookup-insert}
use zkdeal_prover.StfTypes.Scalars.{Address, U256}
use zkdeal_prover.StfTypes.V5.{DepositV5, WithdrawalV5}
use zkdeal_prover.RoomV5.Liabilities.{consume_deposit, collect_deposits, collect_withdrawals}

-- The value that crossing the deposits moves out of `pending`, for one asset.
abbrev pub consumed : Address → List DepositV5 → ℕ
consumed asset [] = 0
consumed asset (deposit ∷ deposits) =
    (if deposit.refunded then 0 else if deposit.asset == asset then deposit.amount else 0)
    + consumed asset deposits

abbrev pub withdrawn : Address → List WithdrawalV5 → ℕ
withdrawn asset [] = 0
withdrawn asset (withdrawal ∷ withdrawals) =
    (if withdrawal.asset == asset then withdrawal.amount else 0) + withdrawn asset withdrawals

-- The deposits that follow inbox id `cursor`: contiguous ids, and no malformed record.
abbrev pub AreCrossed : ℕ → List DepositV5 → Type 0
AreCrossed cursor [] = Unit
AreCrossed cursor (deposit ∷ deposits) =
    (deposit.inbox_id ≡ cursor + 1)
    × (0 < deposit.amount)
    × (0 < deposit.depositor)
    × (0 < deposit.beneficiary)
    × (0 < deposit.queued_at_block)
    × (deposit.consumed ≡ false)
    × AreCrossed (cursor + 1) deposits

consume_deposit-amount :
    (asset : Address) (deposit : DepositV5) (m m' : Map U256)
    → consume_deposit deposit m ≡ ok m'
    → amount_at asset m'
      ≡ amount_at asset m
        + (if deposit.refunded then 0 else if deposit.asset == asset then deposit.amount else 0)
unfolding consume_deposit
consume_deposit-amount asset deposit m m' h =
    ground (arith, lookup-insert asset deposit.asset (amount_at deposit.asset m + deposit.amount) m)

-- A round of the loop that does not refuse: the record is well formed, and the rest goes on.
collect_deposits-inv :
    (cursor offset : ℕ) (deposit : DepositV5) (rest : List DepositV5) (m m' : Map U256)
    → collect_deposits cursor offset (deposit ∷ rest) m ≡ ok m'
    → (m₁ : Map U256) × (consume_deposit deposit m ≡ ok m₁)
      × (collect_deposits cursor (offset + 1) rest m₁ ≡ ok m')
      × (deposit.inbox_id ≡ cursor + offset + 1)
      × (0 < deposit.amount)
      × (0 < deposit.depositor)
      × (0 < deposit.beneficiary)
      × (0 < deposit.queued_at_block)
      × (deposit.consumed ≡ false)
unfolding collect_deposits
collect_deposits-inv cursor offset deposit rest m m' h =
    elim (Result-cases (consume_deposit deposit m)) [
      | inl (m₁, e) ↦ (
        m₁,
        e,
        ground arith,
        ground arith,
        ground arith,
        ground arith,
        ground arith,
        ground arith,
        ground arith,
      )
      | inr (x, e) ↦ absurd (ground arith)
    ]

pub collect_deposits-amount :
    (asset : Address) (cursor offset : ℕ) (deposits : List DepositV5) (m m' : Map U256)
    → collect_deposits cursor offset deposits m ≡ ok m'
    → amount_at asset m' ≡ amount_at asset m + consumed asset deposits
collect_deposits-amount asset cursor offset [] m m' h = unfold collect_deposits in ground arith
collect_deposits-amount asset cursor offset (deposit ∷ rest) m m' h =
    let round = collect_deposits-inv cursor offset deposit rest m m' h in
    omega (
      arith,
      consume_deposit-amount asset deposit m round.0 round.1,
      collect_deposits-amount asset cursor (offset + 1) rest round.0 m' round.2,
    )

pub collect_deposits-AreCrossed :
    (cursor offset : ℕ) (deposits : List DepositV5) (m m' : Map U256)
    → collect_deposits cursor offset deposits m ≡ ok m'
    → AreCrossed (cursor + offset) deposits
collect_deposits-AreCrossed cursor offset [] m m' h = tt
collect_deposits-AreCrossed cursor offset (deposit ∷ rest) m m' h =
    let (m₁, e, next, id, amount, depositor, beneficiary, queued, fresh) =
      collect_deposits-inv cursor offset deposit rest m m' h in
    let shift : cursor + (offset + 1) ≡ cursor + offset + 1 = omega arith in
    (
      id,
      amount,
      depositor,
      beneficiary,
      queued,
      fresh,
      rw (← shift) (collect_deposits-AreCrossed cursor (offset + 1) rest m₁ m' next),
    )

pub collect_withdrawals-amount :
    (asset : Address) (withdrawals : List WithdrawalV5) (m m' : Map U256)
    → collect_withdrawals withdrawals m ≡ ok m'
    → amount_at asset m' ≡ amount_at asset m + withdrawn asset withdrawals
unfolding collect_withdrawals
collect_withdrawals-amount asset [] m m' h = ground arith
collect_withdrawals-amount asset (withdrawal ∷ rest) m m' h =
    let total = amount_at withdrawal.asset m + withdrawal.amount in
    ground (
      arith,
      lookup-insert asset withdrawal.asset total m,
      collect_withdrawals-amount asset rest (insert withdrawal.asset total m) m',
    )
