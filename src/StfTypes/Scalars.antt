-- ===== src/StfTypes/Scalars.antt =====
-- The scalar types of alloy-primitives: fixed-width values as numbers, byte strings as lists.
use zkdeal_prover.Prelude.{ℕ, List}

-- 20 bytes, below 2^160; the zero address is 0.
abbrev pub Address : Type 0
Address = ℕ

-- 32 bytes, as the number that their big-endian reading gives.
abbrev pub B256 : Type 0
B256 = ℕ

abbrev pub U256 : Type 0
U256 = ℕ

abbrev pub Bytes : Type 0
Bytes = List ℕ

-- `[u8; 4]`, as the number that its big-endian reading gives.
abbrev pub Selector : Type 0
Selector = ℕ
