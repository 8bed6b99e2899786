-- ===== src/Prelude/Map.antt =====
-- `BTreeMap` keyed by numbers: an association list that `insert` keeps in ascending order, so
-- equal maps are equal lists and iteration is in key order.
use Prim.Native.Nat.{ℕ, suc, ◌<◌}
use mathlib.Core.Path.{◌≡◌, refl}
use mathlib.Core.Logic.{◌≢◌}
use mathlib.Core.List.{List, [], ◌∷◌}
use mathlib.Core.Option.{Option, none, some}
use native.Mathlib.Omega.{arith}
use zkdeal_prover.Prelude.Tests.{ltb, ◌==◌, if◌then◌else◌}
use zkdeal_prover.Prelude.Lists.{length}

abbrev pub Map {ℓ} : Type ℓ → Type ℓ
Map V = List (ℕ × V)

module _ {ℓ} {V : Type ℓ} where
  unfoldable pub lookup : ℕ → Map V → Option V
  lookup k [] = none
  lookup k ((j, v) ∷ m) = if j == k then some v else lookup k m

  unfoldable pub insert : ℕ → V → Map V → Map V
  insert k v [] = (k, v) ∷ []
  insert k v ((j, w) ∷ m) =
      let rest = insert k v m in
      if ltb k j then (k, v) ∷ (j, w) ∷ m else if j == k then (k, v) ∷ m else (j, w) ∷ rest

  unfoldable pub remove : ℕ → Map V → Map V
  remove k [] = []
  remove k ((j, v) ∷ m) = let rest = remove k m in if j == k then m else (j, v) ∷ rest

  -- Every key of the map is above `k`.
  abbrev pub Above : ℕ → Map V → Type 0
  Above k [] = Unit
  Above k ((j, v) ∷ m) = (k < j) × Above k m

  abbrev pub IsAscending : Map V → Type 0
  IsAscending [] = Unit
  IsAscending ((k, v) ∷ m) = Above k m × IsAscending m

  pub lookup-nil : (k : ℕ) → lookup k [] ≡ none
  unfolding lookup
  lookup-nil k = refl

  pub lookup-insert :
      (j k : ℕ) (v : V) (m : Map V)
      → lookup j (insert k v m) ≡ (if k == j then some v else lookup j m)
  unfolding lookup insert
  lookup-insert j k v [] = refl
  lookup-insert j k v ((i, w) ∷ m) = ground (arith, lookup-insert j k v m)

  pub lookup-remove_ne : (j k : ℕ) (m : Map V) → j ≢ k → lookup j (remove k m) ≡ lookup j m
  unfolding lookup remove
  lookup-remove_ne j k [] h = refl
  lookup-remove_ne j k ((i, w) ∷ m) h = ground (arith, lookup-remove_ne j k m h)

  pub Above-lookup : (k : ℕ) (m : Map V) → Above k m → lookup k m ≡ none
  unfolding lookup
  Above-lookup k [] h = refl
  Above-lookup k ((j, v) ∷ m) h = ground (arith, Above-lookup k m h.1)

  pub Above-mono : (j k : ℕ) (m : Map V) → j < k → Above k m → Above j m
  Above-mono j k [] l h = tt
  Above-mono j k ((i, v) ∷ m) l h = (omega arith, Above-mono j k m l h.1)

  pub Above-insert : (j k : ℕ) (v : V) (m : Map V) → j < k → Above j m → Above j (insert k v m)
  unfolding insert
  Above-insert j k v [] l h = (l, tt)
  Above-insert j k v ((i, w) ∷ m) l h = ground (arith, Above-insert j k v m l h.1)

  Above-remove : (j k : ℕ) (m : Map V) → Above j m → Above j (remove k m)
  unfolding remove
  Above-remove j k [] h = tt
  Above-remove j k ((i, w) ∷ m) h = ground (arith, Above-remove j k m h.1)

  pub insert-IsAscending : (k : ℕ) (v : V) (m : Map V) → IsAscending m → IsAscending (insert k v m)
  unfolding insert
  insert-IsAscending k v [] h = (tt, tt)
  insert-IsAscending k v ((i, w) ∷ m) h =
      ground (arith, insert-IsAscending k v m h.1, Above-insert i k v m, Above-mono k i m)

  pub remove-IsAscending : (k : ℕ) (m : Map V) → IsAscending m → IsAscending (remove k m)
  unfolding remove
  remove-IsAscending k [] h = tt
  remove-IsAscending k ((i, w) ∷ m) h =
      ground (arith, remove-IsAscending k m h.1, Above-remove i k m)

  pub lookup-remove_self : (k : ℕ) (m : Map V) → IsAscending m → lookup k (remove k m) ≡ none
  unfolding lookup remove
  lookup-remove_self k [] h = refl
  lookup-remove_self k ((i, w) ∷ m) h = ground (arith, lookup-remove_self k m h.1, Above-lookup i m)

  pub length-insert :
      (k : ℕ) (v : V) (m : Map V) → lookup k m ≡ none → length (insert k v m) ≡ suc (length m)
  unfolding lookup insert
  length-insert k v [] h = refl
  length-insert k v ((i, w) ∷ m) h = ground (arith, length-insert k v m)

  pub length-remove :
      (k : ℕ) (v : V) (m : Map V) → lookup k m ≡ some v → suc (length (remove k m)) ≡ length m
  unfolding lookup remove
  length-remove k v [] h = cc
  length-remove k v ((i, w) ∷ m) h = ground (arith, length-remove k v m)

-- `get(&key).copied().unwrap_or_default()` on a map of amounts.
abbrev pub amount_at : ℕ → Map ℕ → ℕ
amount_at k m = elim (lookup k m) [ none ↦ 0 | some v ↦ v ]

pub amount_at-nil : (k : ℕ) → amount_at k [] ≡ 0
unfolding lookup
amount_at-nil k = refl

module _ {V : Type 0} where
  -- The heads of two ordered maps with the same entries agree.
  heads_agree :
      (i j : ℕ) (v w : V) (m n : Map V)
      → Above i m
      → Above j n
      → ((k : ℕ) → lookup k ((i, v) ∷ m) ≡ lookup k ((j, w) ∷ n))
      → (i ≡ j) × (v ≡ w)
  unfolding lookup
  heads_agree i j v w m n a b h =
      ground
        (arith, h i, h j, Above-lookup i n, Above-lookup j m, Above-mono i j n, Above-mono j i m)

  -- Ordered maps with the same entries are equal.
  pub IsAscending-ext :
      (m n : Map V) → IsAscending m → IsAscending n → ((k : ℕ) → lookup k m ≡ lookup k n) → m ≡ n
  unfolding lookup
  IsAscending-ext [] [] a b h = refl
  IsAscending-ext [] ((j, w) ∷ n) a b h = absurd (ground (arith, h j))
  IsAscending-ext ((i, v) ∷ m) [] a b h = absurd (ground (arith, h i))
  IsAscending-ext ((i, v) ∷ m) ((j, w) ∷ n) a b h =
      let heads = heads_agree i j v w m n a.0 b.0 h in
      let tails =
        IsAscending-ext m n a.1 b.1
          (λ k. ground (arith, h k, heads.0, Above-lookup i m a.0, Above-lookup j n b.0)) in
      cc
