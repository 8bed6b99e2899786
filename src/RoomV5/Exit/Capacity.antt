-- ===== src/RoomV5/Exit/Capacity.antt =====
-- The capacity of the withdrawal tree: the least power of two for the leaves, within the bound.
use zkdeal_prover.Prelude.{ℕ, zero, suc, ◌+◌, ◌*◌, ◌-◌, ◌^◌, ◌<◌, ◌≤◌, ◌≡◌, refl, arith, ok}
use native.Mathlib.Nat.{pow-suc}
use native.Mathlib.Decide.{dec_le}
use zkdeal_prover.Words.Powers.{next_power_of_two_lem}
use zkdeal_prover.RoomV5.Exit.{withdrawal_tree_capacity_v5}

pow_mono : (d j : ℕ) → 2 ^ j ≤ 2 ^ (j + d)
pow_mono zero j = let e : j + 0 ≡ j = omega arith in rw e (omega arith)
pow_mono (suc d) j =
    let e : j + suc d ≡ suc (j + d) = omega arith in
    rw e (omega (arith, pow_mono d j, pow-suc 2 (j + d)))

-- A power of two below 2^16 is at most 2^15.
power_below : (k : ℕ) → 2 ^ k < 2 ^ 16 → 2 ^ k ≤ 2 ^ 15
power_below k h = elim (dec_le k 15) [
  | yes p ↦ let e : k + (15 - k) ≡ 15 = omega arith in rw e at (pow_mono (15 - k) k)
  | no p ↦
      let e : 16 + (k - 16) ≡ k = omega arith in
      absurd (omega (arith, rw e at (pow_mono (k - 16) 16)))
]

-- An allocation within the outbox bound gets a capacity: zero when it is empty, and otherwise the
-- power of two that is not below the leaf count and is below its double; it keeps to the bound.
pub withdrawal_tree_capacity_v5_fits :
    (leaf_count : ℕ)
    → leaf_count ≤ 32_768
    → (capacity : ℕ) × (withdrawal_tree_capacity_v5 leaf_count ≡ ok capacity)
      × (leaf_count ≤ capacity)
      × (capacity ≤ 32_768)
      × (0 < leaf_count → (k : ℕ) × (capacity ≡ 2 ^ k) × (capacity < 2 * leaf_count))
      × (leaf_count ≡ 0 → capacity ≡ 0)
unfolding withdrawal_tree_capacity_v5
withdrawal_tree_capacity_v5_fits zero h =
    (0, refl, omega arith, omega arith, (λ p. absurd (omega arith)), (λ p. refl))
withdrawal_tree_capacity_v5_fits (suc n) h =
    let (k, e, reached, tight) = next_power_of_two_lem (suc n) (omega arith) (omega arith) in
    (
      2 ^ k,
      ground arith,
      reached,
      power_below k (omega arith),
      (λ p. (k, refl, tight)),
      (λ p. absurd (omega arith)),
    )
