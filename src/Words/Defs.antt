-- ===== src/Words/Defs.antt =====
-- Checked arithmetic on `u64` and `U256`, and big-endian bytes.
use zkdeal_prover.Prelude.{
  ℕ, zero, suc, ◌+◌, ◌-◌, ◌*◌, ◌/◌, ◌%◌, ◌^◌, Bool, true, false, Option, none, some, List, [], ◌∷◌,
  ◌++◌, ltb, leb, ◌==◌, if◌then◌else◌,
}

-- `u64::checked_add`, `U256::checked_add`, `U256::checked_mul`, and `checked_sub` of both.
abbrev pub checked_add_u64 : ℕ → ℕ → Option ℕ
checked_add_u64 a b = if ltb (a + b) (2 ^ 64) then some (a + b) else none

abbrev pub checked_add_u256 : ℕ → ℕ → Option ℕ
checked_add_u256 a b = if ltb (a + b) (2 ^ 256) then some (a + b) else none

abbrev pub checked_mul_u256 : ℕ → ℕ → Option ℕ
checked_mul_u256 a b = if ltb (a * b) (2 ^ 256) then some (a * b) else none

abbrev pub checked_mul_u64 : ℕ → ℕ → Option ℕ
checked_mul_u64 a b = if ltb (a * b) (2 ^ 64) then some (a * b) else none

abbrev pub checked_sub : ℕ → ℕ → Option ℕ
checked_sub a b = if leb b a then some (a - b) else none

-- `value.to_be_bytes::<n>()`
unfoldable pub be_bytes : ℕ → ℕ → List ℕ
be_bytes zero value = []
be_bytes (suc n) value = be_bytes n (value / 256) ++ (value % 256 ∷ [])

-- `u64::is_power_of_two`, on 64 bits: halve while the number is even, and end at one.
unfoldable pub power_of_two_within : ℕ → ℕ → Bool
power_of_two_within zero n = false
power_of_two_within (suc bits) n =
    let rest = power_of_two_within bits (n / 2) in
    if n == 1 then true else if n % 2 == 0 then rest else false

unfoldable pub is_power_of_two : ℕ → Bool
is_power_of_two n = power_of_two_within 64 n

-- `u64::next_power_of_two`: the least power of two that is not below `n`.
unfoldable pub smallest_power : ℕ → ℕ → ℕ → ℕ
smallest_power zero power n = power
smallest_power (suc rounds) power n =
    let rest = smallest_power rounds (2 * power) n in if leb n power then power else rest

unfoldable pub next_power_of_two : ℕ → ℕ
next_power_of_two n = smallest_power 64 1 n

-- The number with these big-endian bytes, behind the ones that `high` stands for.
unfoldable pub from_be_bytes : ℕ → List ℕ → ℕ
from_be_bytes high [] = high
from_be_bytes high (byte ∷ bytes) = from_be_bytes (high * 256 + byte) bytes
