-- ===== src/StfTypes/Levels.antt =====
-- The loop that folds the leaves of a binary hash tree into its root. The trees of
-- zkvm/crates/stf-types/src/v5/hash.rs and the sparse tree of stf-core/src/db/roots.rs each have one,
-- with a node hash of their own.
use zkdeal_prover.Prelude.{
  ℕ, zero, suc, ◌*◌, ◌^◌, ◌<◌, ◌≡◌, refl, Option, none, some, List, [], ◌∷◌, length, arith,
}
use native.Mathlib.Nat.{pow-suc}
use zkdeal_prover.StfTypes.Scalars.{B256}

module _ (node : B256 → B256 → B256) where
  -- `leaves.chunks_exact(2).map(..)`: a last odd leaf is no chunk.
  unfoldable pub next_level : List B256 → List B256
  next_level [] = []
  next_level (leaf ∷ []) = []
  next_level (left ∷ right ∷ leaves) = node left right ∷ next_level leaves

  -- `while leaves.len() > 1 { .. } leaves.pop()`, on rounds: each round halves the level, so the
  -- number of leaves is more than enough.
  unfoldable pub fold_levels : ℕ → List B256 → Option B256
  fold_levels zero leaves = none
  fold_levels (suc rounds) [] = none
  fold_levels (suc rounds) (leaf ∷ []) = some leaf
  fold_levels (suc rounds) (left ∷ right ∷ leaves) =
      fold_levels rounds (next_level (left ∷ right ∷ leaves))

pub pow_above : (k : ℕ) → k < 2 ^ k
pow_above zero = omega arith
pow_above (suc k) = omega (arith, pow_above k, pow-suc 2 k)

module _ (node : B256 → B256 → B256) where
  next_level-length :
      (n : ℕ) (leaves : List B256) → length leaves ≡ 2 * n → length (next_level node leaves) ≡ n
  unfolding next_level
  next_level-length zero [] e = refl
  next_level-length (suc n) [] e = absurd (omega arith)
  next_level-length n (leaf ∷ []) e = absurd (omega arith)
  next_level-length zero (left ∷ right ∷ leaves) e = absurd (omega arith)
  next_level-length (suc n) (left ∷ right ∷ leaves) e =
      omega (arith, next_level-length n leaves (omega arith))

  pub fold_levels-some :
      (k rounds : ℕ) (leaves : List B256)
      → length leaves ≡ 2 ^ k
      → k < rounds
      → (root : B256) × (fold_levels node rounds leaves ≡ some root)
  unfolding fold_levels
  fold_levels-some k zero leaves e h = absurd (omega arith)
  fold_levels-some k (suc rounds) [] e h = absurd (omega (arith, pow_above k))
  fold_levels-some k (suc rounds) (leaf ∷ []) e h = (leaf, refl)
  fold_levels-some zero (suc rounds) (left ∷ right ∷ leaves) e h = absurd (omega arith)
  fold_levels-some (suc k) (suc rounds) (left ∷ right ∷ leaves) e h =
      fold_levels-some k rounds (next_level node (left ∷ right ∷ leaves))
        (next_level-length (2 ^ k) (left ∷ right ∷ leaves) (omega (arith, e, pow-suc 2 k)))
        (omega arith)
