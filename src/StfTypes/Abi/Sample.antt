-- ===== src/StfTypes/Abi/Sample.antt =====
-- A concrete digest for tests: the bytes read to the base 257, modulo 2^256.
use zkdeal_prover.Prelude.{ℕ, ◌+◌, ◌*◌, ◌%◌, ◌^◌, ◌<◌, List, [], ◌∷◌, arith}
use zkdeal_prover.StfTypes.Abi.{Keccak}

unfoldable pub read_bytes : ℕ → List ℕ → ℕ
read_bytes digest [] = digest % 2 ^ 256
read_bytes digest (byte ∷ bytes) = read_bytes ((digest * 257 + byte + 1) % 2 ^ 256) bytes

pub read_bytes_bounds : (digest : ℕ) (bytes : List ℕ) → read_bytes digest bytes < 2 ^ 256
unfolding read_bytes
read_bytes_bounds digest [] = omega arith
read_bytes_bounds digest (byte ∷ bytes) =
    read_bytes_bounds ((digest * 257 + byte + 1) % 2 ^ 256) bytes

instance abbrev pub sample_keccak : Keccak
sample_keccak = record { keccak256 = read_bytes 0; keccak256_bounds = read_bytes_bounds 0 }
