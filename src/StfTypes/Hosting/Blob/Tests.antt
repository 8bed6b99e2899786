-- ===== src/StfTypes/Hosting/Blob/Tests.antt =====
-- A blob of 33 bytes, with numbers below the modulus of BLS12-381 as scalars.
use zkdeal_prover.Prelude.{
  ℕ, ◌-◌, ◌*◌, ◌^◌, ◌<◌, ◌≡◌, refl, arith, Option, none, some, List, [], ◌∷◌, ◌++◌, length, take,
  drop, replicate, ltb, if◌then◌else◌,
}
use zkdeal_prover.StfTypes.Scalars.{B256, Bytes}
use zkdeal_prover.Words.{be_bytes, from_be_bytes}
use zkdeal_prover.StfTypes.Hosting.Blob.{
  ScalarField, scalar_from_be, scalar_to_be, pack_elements, scalar_bytes, canonical_blob_bytes_v1,
}
use zkdeal_prover.StfTypes.Hosting.Blob.Chunks.{unpack}
use zkdeal_prover.StfTypes.Hosting.Blob.Packing.{canonical_blob_bytes_v1-unpack}

abbrev modulus : ℕ
modulus =
    52_435_875_175_126_190_479_447_740_508_185_965_837_690_552_500_527_637_822_603_658_699_938_581_184_513

abbrev read_scalar : B256 → Option ℕ
read_scalar value = if ltb value modulus then some value else none

read_scalar_canonical :
    (value : B256) → value < 2 ^ 248 → (scalar : ℕ) × (read_scalar value ≡ some scalar)
read_scalar_canonical value h = (value, ground (arith, h))

read_scalar_same : (value : B256) (scalar : ℕ) → read_scalar value ≡ some scalar → scalar ≡ value
read_scalar_same value scalar h = ground (arith, h)

instance abbrev sample_field : ScalarField
sample_field = record {
  Scalar = ℕ;
  zero_scalar = 0;
  from_bytes = read_scalar;
  to_bytes = λ scalar. scalar;
  from_bytes_canonical = read_scalar_canonical;
  to_bytes_from = read_scalar_same;
}

abbrev sample_data : Bytes
sample_data = 9 ∷ (replicate 30 7 ++ (1 ∷ 2 ∷ []))

-- Three elements of the sample: a full one, one of two bytes, and an empty one.
abbrev sample_elements : List ℕ
sample_elements = from_be_bytes 0 (take 31 sample_data) ∷ 258 ∷ 0 ∷ []

pack_example : pack_elements ⦃field = sample_field⦄ 3 sample_data ≡ some sample_elements
unfolding pack_elements scalar_from_be from_be_bytes
pack_example = refl

unpack_example : unpack 3 33 (scalar_bytes ⦃field = sample_field⦄ sample_elements) ≡ sample_data
unfolding unpack scalar_bytes scalar_to_be from_be_bytes be_bytes
unpack_example = refl

abbrev short_data : Bytes
short_data = 5 ∷ 6 ∷ 7 ∷ []

canonical_blob_bytes_v1-unpack_example :
    (blob : Bytes) × (canonical_blob_bytes_v1 ⦃field = sample_field⦄ 32 short_data 0 ≡ some blob)
    × (length blob ≡ 131_072)
    × (unpack 4_096 (length short_data - 0 * 126_976) blob
        ≡ take 126_976 (drop (0 * 126_976) short_data))
canonical_blob_bytes_v1-unpack_example =
    canonical_blob_bytes_v1-unpack ⦃field = sample_field⦄ 32 short_data 0
      (omega arith, (omega arith, (omega arith, tt))) (omega arith)
