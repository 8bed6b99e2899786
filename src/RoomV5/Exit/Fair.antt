-- ===== src/RoomV5/Exit/Fair.antt =====
-- The sweep's division: it never distributes more than the residual, and the dust is small.
use native.Mathlib.Decide.{dec_le, dec_lt}
use zkdeal_prover.Prelude.{
  ℕ, ◌+◌, ◌*◌, ◌/◌, ◌<◌, ◌≤◌, ◌≡◌, ◌≢◌, List, [], ◌∷◌, arith, ok, err, Result-cases, inl, inr,
  length, sum_by,
}
use zkdeal_prover.Prelude.Map.{Map}
use zkdeal_prover.StfTypes.Scalars.{Address, U256}
use zkdeal_prover.StfTypes.Abi.{Keccak}
use zkdeal_prover.StfTypes.V5.{ExitAssetBindingV5, ExitBindingV5}
use zkdeal_prover.State.{StateMap, AccountRecord}
use zkdeal_prover.RoomV5.Storage.{read_storage_v5}
use zkdeal_prover.RoomV5.Refusal.{sweep_exceeds_residual}
use zkdeal_prover.RoomV5.Exit.{
  ExitRecordV5, collect_balances, distribute, sweep_asset, sweep_balance,
}
use zkdeal_prover.RoomV5.Exit.Sweep.{balance_of, distribute_bounds, collect_balances-sum}

le_cancel : (a b t : ℕ) → a * t ≤ b * t → 0 < t → a ≤ b
le_cancel a b t h pos = elim (dec_le a b) [ yes p ↦ p | no p ↦ absurd (grind arith) ]

lt_cancel : (a b t : ℕ) → a * t < b * t → a < b
lt_cancel a b t h = elim (dec_lt a b) [ yes p ↦ p | no p ↦ absurd (grind arith) ]

some_balance :
    (balances : List (Address × U256)) → 0 < sum_by balance_of balances → 0 < length balances
some_balance [] h = h
some_balance (entry ∷ balances) h = omega arith

module _ ⦃keccak : Keccak⦄ where
  sweep_balance-ne-exceeds :
      (bound : ExitAssetBindingV5) (state : StateMap) (address : Address) (account : AccountRecord)
      → sweep_balance bound state address account ≢ err sweep_exceeds_residual
  unfolding sweep_balance read_storage_v5
  sweep_balance-ne-exceeds bound state address account h = ground arith

  collect_balances-ne-exceeds :
      (bound : ExitAssetBindingV5) (state : StateMap) (accounts : Map AccountRecord) (t : U256)
      → collect_balances bound state accounts t ≢ err sweep_exceeds_residual
  unfolding collect_balances
  collect_balances-ne-exceeds bound state [] t h = cc
  collect_balances-ne-exceeds bound state ((address, account) ∷ accounts) t h =
      elim (Result-cases (sweep_balance bound state address account)) [
        | inr (x, e) ↦ ground (
          arith,
          sweep_balance-ne-exceeds bound state address account,
          collect_balances-ne-exceeds bound state accounts t,
        )
        | inl (balance, e) ↦ ground (
          arith,
          collect_balances-ne-exceeds bound state accounts t,
          collect_balances-ne-exceeds bound state accounts (t + balance),
        )
      ]

  distribute-ne-exceeds :
      (asset : Address) (residual total : U256) (balances : List (Address × U256)) (d : U256)
      → distribute asset residual total balances d ≢ err sweep_exceeds_residual
  unfolding distribute
  distribute-ne-exceeds asset residual total [] d h = cc
  distribute-ne-exceeds asset residual total ((address, balance) ∷ balances) d h = ground (
    arith,
    distribute-ne-exceeds asset residual total balances d,
    distribute-ne-exceeds asset residual total balances (d + residual * balance / total),
  )

  module _ (bound : ExitAssetBindingV5) (state : StateMap) (residual : U256)
      (found : List (Address × U256) × U256) (paid : List ExitRecordV5 × U256)
      (collected : collect_balances bound state state.accounts 0 ≡ ok found)
      (positive : 0 < found.1)
      (shared : distribute bound.asset residual found.1 found.0 0 ≡ ok paid) where
    -- When a positive total of balances shares a residual, the shares together do not pass the
    -- residual, and what is left of it is less than one unit for each balance.
    pub dust_bounds : (paid.1 ≤ residual) × (residual < paid.1 + length found.0)
    dust_bounds =
        let total = collect_balances-sum bound state state.accounts 0 found collected in
        let bounds =
          distribute_bounds bound.asset residual found.1 found.0 0 paid positive shared in
        let whole : sum_by balance_of found.0 ≡ found.1 = omega (arith, total) in
        let lower = rw whole at bounds.0 in
        let upper = rw whole at bounds.1 in
        (
          le_cancel paid.1 residual found.1 (omega (arith, lower)) positive,
          lt_cancel residual (paid.1 + length found.0) found.1
              (omega (arith, upper, some_balance found.0 (omega arith))),
        )

  -- The refusal for a sweep that distributes more than the residual is never reached.
  pub sweep_asset-ne-exceeds :
      (binding : ExitBindingV5) (state : StateMap) (bound : ExitAssetBindingV5) (residual : U256)
      → sweep_asset binding state bound residual ≢ err sweep_exceeds_residual
  unfolding sweep_asset
  sweep_asset-ne-exceeds binding state bound residual h =
      elim (Result-cases (collect_balances bound state state.accounts 0)) [
        | inr (x, e) ↦ ground (arith, collect_balances-ne-exceeds bound state state.accounts 0)
        | inl (found, e) ↦ elim (Result-cases (distribute bound.asset residual found.1 found.0 0)) [
          | inr (x, e') ↦
              ground (arith, distribute-ne-exceeds bound.asset residual found.1 found.0 0)
          | inl (paid, e') ↦
              ground
                (arith, λ (p : 0 < found.1). dust_bounds bound state residual found paid e p e')
        ]
      ]
