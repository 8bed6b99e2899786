-- ===== src/RoomV5/Exit/Payout.antt =====
-- The whole close sweep: each bound asset's leaves sum to its residual, and no other asset is paid.
use mathlib.Core.Path.{subst}
use native.Mathlib.Decide.{ℕ_discrete}
use zkdeal_prover.Prelude.{
  sym, ap, ℕ, ◌+◌, ◌≡◌, ◌≢◌, refl, Bool, false, List, [], ◌∷◌, ◌++◌, arith, ◌==◌, if◌then◌else◌, ok,
  Result-cases, inl, inr, sum_by, sum_by-append, All, any,
}
use zkdeal_prover.Prelude.Map.{Map, amount_at}
use zkdeal_prover.StfTypes.Scalars.{Address, U256}
use zkdeal_prover.StfTypes.Abi.{Keccak}
use zkdeal_prover.StfTypes.V5.{ExitAssetBindingV5, ExitBindingV5}
use zkdeal_prover.State.{StateMap}
use zkdeal_prover.RoomV5.Exit.{ExitRecordV5, sweep_asset, sweep_assets, derive_close_sweep_v5}
use zkdeal_prover.RoomV5.Exit.Sweep.{leaf_amount, IsLeaf, sweep_asset-sum, sweep_asset-IsLeaf}

-- What the leaves pay of one asset.
abbrev pub paid_of : Address → ExitRecordV5 → ℕ
paid_of asset leaf = if leaf.asset == asset then leaf.amount else 0

paid_of-own :
    (asset : Address) (leaves : List ExitRecordV5)
    → All (IsLeaf asset) leaves
    → sum_by (paid_of asset) leaves ≡ sum_by leaf_amount leaves
paid_of-own asset [] h = refl
paid_of-own asset (leaf ∷ leaves) h = ground (arith, paid_of-own asset leaves h.1)

paid_of-other :
    (a asset : Address) (leaves : List ExitRecordV5)
    → a ≢ asset
    → All (IsLeaf asset) leaves
    → sum_by (paid_of a) leaves ≡ 0
paid_of-other a asset [] ne h = refl
paid_of-other a asset (leaf ∷ leaves) ne h = ground (arith, paid_of-other a asset leaves ne h.1)

-- No two bindings name one asset.
abbrev pub AreDistinct : List ExitAssetBindingV5 → Type 0
AreDistinct [] = Unit
AreDistinct (bound ∷ assets) =
    (any (λ (other : ExitAssetBindingV5). other.asset == bound.asset) assets ≡ false)
    × AreDistinct assets

abbrev pub is_bound : Address → List ExitAssetBindingV5 → Bool
is_bound asset assets = any (λ (bound : ExitAssetBindingV5). bound.asset == asset) assets

module _ ⦃keccak : Keccak⦄ (binding : ExitBindingV5) (state : StateMap) where
  sweep_asset-paid :
      (bound : ExitAssetBindingV5) (residual : U256) (leaves : List ExitRecordV5) (asset : Address)
      → sweep_asset binding state bound residual ≡ ok leaves
      → sum_by (paid_of asset) leaves ≡ (if bound.asset == asset then residual else 0)
  sweep_asset-paid bound residual leaves asset h = elim (ℕ_discrete bound.asset asset) [
    | yes same ↦
        subst (λ (a : ℕ). sum_by (paid_of a) leaves ≡ (if bound.asset == a then residual else 0))
          same
          (ground (
            arith,
            paid_of-own bound.asset leaves shape,
            sweep_asset-sum binding state bound residual leaves h,
          ))
    | no other ↦ ground (arith, paid_of-other asset bound.asset leaves (λ e. other (sym e)) shape)
  ]
    where
      shape : All (IsLeaf bound.asset) leaves
      shape = sweep_asset-IsLeaf binding state bound residual leaves h

  -- The paid amount of the first binding and of the others never count one asset twice.
  paid_once :
      (bound : ExitAssetBindingV5) (assets : List ExitAssetBindingV5) (residuals : Map U256)
      (asset : Address)
      → AreDistinct (bound ∷ assets)
      → (if bound.asset == asset then amount_at bound.asset residuals else 0)
          + (if is_bound asset assets then amount_at asset residuals else 0)
        ≡ (if is_bound asset (bound ∷ assets) then amount_at asset residuals else 0)
  paid_once bound assets residuals asset distinct = elim (ℕ_discrete bound.asset asset) [
    | yes same ↦
        let absent : is_bound asset assets ≡ false =
          subst (λ (a : ℕ). is_bound a assets ≡ false) same distinct.0 in
        let value : amount_at bound.asset residuals ≡ amount_at asset residuals =
          ap (λ (a : ℕ). amount_at a residuals) same in
        ground (arith, absent, value)
    | no other ↦ ground arith
  ]

  pub sweep_assets-paid :
      (assets : List ExitAssetBindingV5) (residuals : Map U256) (leaves : List ExitRecordV5)
      (asset : Address)
      → AreDistinct assets
      → sweep_assets binding state assets residuals ≡ ok leaves
      → sum_by (paid_of asset) leaves
        ≡ (if is_bound asset assets then amount_at asset residuals else 0)
  unfolding sweep_assets
  sweep_assets-paid [] residuals leaves asset distinct h = ground arith
  sweep_assets-paid (bound ∷ assets) residuals leaves asset distinct h =
      elim (Result-cases (sweep_asset binding state bound (amount_at bound.asset residuals))) [
        | inr (x, e) ↦ absurd (ground arith)
        | inl (own, e) ↦ elim (Result-cases (sweep_assets binding state assets residuals)) [
          | inr (x, e') ↦ absurd (ground arith)
          | inl (rest, e') ↦
              let joined : leaves ≡ own ++ rest = ground arith in
              rw (joined, sum_by-append (paid_of asset) own rest)
                (omega (
                  arith,
                  sweep_asset-paid bound (amount_at bound.asset residuals) own asset e,
                  sweep_assets-paid assets residuals rest asset distinct.1 e',
                  paid_once bound assets residuals asset distinct,
                ))
        ]
      ]

  -- When no two bindings name one asset, an accepted sweep pays of each bound asset exactly its
  -- residual, and nothing of any other asset.
  pub derive_close_sweep_v5-paid :
      (residuals : Map U256) (leaves : List ExitRecordV5) (asset : Address)
      → AreDistinct binding.assets
      → derive_close_sweep_v5 binding state residuals ≡ ok leaves
      → sum_by (paid_of asset) leaves
        ≡ (if is_bound asset binding.assets then amount_at asset residuals else 0)
  unfolding derive_close_sweep_v5
  derive_close_sweep_v5-paid residuals leaves asset distinct h =
      sweep_assets-paid binding.assets residuals leaves asset distinct h
