-- ===== src/Words/Powers.antt =====
-- What the tests and the rounding of powers of two compute.
use zkdeal_prover.Prelude.{
  ℕ, zero, suc, ◌*◌, ◌/◌, ◌%◌, ◌^◌, ◌<◌, ◌≤◌, ◌≡◌, true, false, arith, refl, ap, ◌⊎◌, Bool-cases,
  inl, inr, ◌==◌, leb,
}
use native.Mathlib.Nat.{pow-suc}
use zkdeal_prover.Words.Defs.{
  power_of_two_within, is_power_of_two, smallest_power, next_power_of_two,
}

power_of_two_within_sound :
    (bits n : ℕ) → power_of_two_within bits n ≡ true → (k : ℕ) × (k < bits) × (n ≡ 2 ^ k)
unfolding power_of_two_within
power_of_two_within_sound zero n h = cc
power_of_two_within_sound (suc bits) n h = elim (Bool-cases (n == 1)) [
  | inl one ↦ (0, omega arith, ground arith)
  | inr more ↦
      let even : n % 2 ≡ 0 = ground arith in
      let (k, below, e) = power_of_two_within_sound bits (n / 2) (ground arith) in
      (suc k, omega arith, omega arith)
]

-- A number that passes the test is 2^k for a k below 64.
pub is_power_of_two_sound : (n : ℕ) → is_power_of_two n ≡ true → (k : ℕ) × (k < 64) × (n ≡ 2 ^ k)
unfolding is_power_of_two
is_power_of_two_sound n h = power_of_two_within_sound 64 n h

pow_step : (k p : ℕ) → 2 ^ suc k * p ≡ 2 ^ k * (2 * p)
pow_step k p = omega (arith, ap (λ (t : ℕ). t * p) (pow-suc 2 k))

-- The result is `power` doubled k times; it is not below `n`, and its half is unless k is zero.
smallest_power_lem :
    (rounds power n : ℕ)
    → n ≤ 2 ^ rounds * power
    → (k : ℕ) × (k ≤ rounds)
      × (smallest_power rounds power n ≡ 2 ^ k * power)
      × (n ≤ 2 ^ k * power)
      × ((k ≡ 0) ⊎ (2 ^ k * power < 2 * n))
unfolding smallest_power
smallest_power_lem zero power n h = (0, omega arith, omega arith, omega arith, inl refl)
smallest_power_lem (suc rounds) power n h = elim (Bool-cases (leb n power)) [
  | inl enough ↦ (0, omega arith, ground arith, ground arith, inl refl)
  | inr more ↦
      let (k, below, e, reached, tight) =
        smallest_power_lem rounds (2 * power) n (omega (arith, pow_step rounds power)) in
      (
        suc k,
        omega arith,
        ground (arith, pow_step k power),
        omega (arith, pow_step k power),
        inr (doubled k more tight),
      )
]
  where
    doubled :
        (k : ℕ)
        → leb n power ≡ false
        → (k ≡ 0) ⊎ (2 ^ k * (2 * power) < 2 * n)
        → 2 ^ suc k * power < 2 * n
    doubled k more (inl e) = rw e (ground arith)
    doubled k more (inr l) = omega (arith, pow_step k power)

-- Up to 2^63 the rounding ends at the least power of two that is not below `n`.
pub next_power_of_two_lem :
    (n : ℕ)
    → 0 < n
    → n ≤ 2 ^ 63
    → (k : ℕ) × (next_power_of_two n ≡ 2 ^ k) × (n ≤ 2 ^ k) × (2 ^ k < 2 * n)
unfolding next_power_of_two
next_power_of_two_lem n pos h =
    let (k, below, e, reached, tight) = smallest_power_lem 64 1 n (omega arith) in
    (k, omega arith, omega arith, half k tight)
  where
    half : (k : ℕ) → (k ≡ 0) ⊎ (2 ^ k * 1 < 2 * n) → 2 ^ k < 2 * n
    half k (inl e) = rw e (omega arith)
    half k (inr l) = omega arith
