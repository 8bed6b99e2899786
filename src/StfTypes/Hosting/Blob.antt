-- ===== src/StfTypes/Hosting/Blob.antt =====
-- Blobs: the packing of canonical data into field elements, `blob_field_values` and
-- `canonical_blob_bytes_v1` of zkvm/crates/stf-types/src/hosting.rs.
mod Chunks
mod Packing
mod Tests
use zkdeal_prover.Prelude.{
  ℕ, zero, suc, ◌+◌, ◌*◌, ◌%◌, ◌-◌, ◌^◌, ◌<◌, ◌≡◌, Option, none, some, List, [], ◌∷◌, ◌++◌, map,
  length, take, drop, replicate,
}
use zkdeal_prover.StfTypes.Scalars.{B256, Bytes}
use zkdeal_prover.Words.{be_bytes, from_be_bytes}

abbrev pub field_elements_per_blob_v1 : ℕ
field_elements_per_blob_v1 = 4_096

abbrev pub canonical_bytes_per_field_element_v1 : ℕ
canonical_bytes_per_field_element_v1 = 31

abbrev pub canonical_bytes_per_blob_v1 : ℕ
canonical_bytes_per_blob_v1 = field_elements_per_blob_v1 * canonical_bytes_per_field_element_v1

-- `expect`, whose panic ends the run: `none` is carried on.
infixl 20 ◌>>=◌
abbrev pub ◌>>=◌ {ℓ κ} : {A : Type ℓ} {B : Type κ} → Option A → (A → Option B) → Option B
none >>= next = none
some value >>= next = next value

-- The scalars of the package bls12_381, each read from and written to a 256-bit number: reading refuses
-- a number that is not below the modulus, which is itself above 2 ^ 248.
pub record ScalarField : Type 1 where
  pub Scalar : Type 0
  pub zero_scalar : Scalar
  pub from_bytes : B256 → Option Scalar
  pub to_bytes : Scalar → B256
  pub from_bytes_canonical :
      (value : B256) → value < 2 ^ 248 → (scalar : Scalar) × (from_bytes value ≡ some scalar)
  pub to_bytes_from :
      (value : B256) (scalar : Scalar) → from_bytes value ≡ some scalar → to_bytes scalar ≡ value

module _ ⦃field : ScalarField⦄ where
  -- A number stands for its bytes, so their order is left to the reader of them.
  unfoldable pub scalar_from_be : B256 → Option field.Scalar
  scalar_from_be value = field.from_bytes value

  unfoldable pub scalar_to_be : field.Scalar → B256
  scalar_to_be scalar = field.to_bytes scalar

  -- So many field elements from the bytes that are left; `none` is the panic of `expect`.
  unfoldable pub pack_elements : ℕ → Bytes → Option (List field.Scalar)
  unfolding scalar_from_be
  pack_elements zero bytes = some []
  pack_elements (suc n) [] = some (replicate (suc n) field.zero_scalar)
  pack_elements (suc n) (byte ∷ bytes) =
      let chunk = take canonical_bytes_per_field_element_v1 (byte ∷ bytes) in
      do
        value ← scalar_from_be (from_be_bytes 0 chunk)
        values ← pack_elements n (drop canonical_bytes_per_field_element_v1 (byte ∷ bytes))
        some (value ∷ values)

  -- `usize` has `width` bits, and its product wraps around, as in the release profiles. The later sums
  -- are bounded: no slice has 2 ^ (width - 1) bytes, and the loop ends at the length of the data.
  unfoldable pub blob_field_values : ℕ → Bytes → ℕ → Option (List field.Scalar)
  unfolding pack_elements
  blob_field_values width canonical_data blob_index =
      pack_elements field_elements_per_blob_v1
        (drop (blob_index * canonical_bytes_per_blob_v1 % 2 ^ width) canonical_data)

  unfoldable pub scalar_bytes : List field.Scalar → Bytes
  unfolding scalar_to_be
  scalar_bytes [] = []
  scalar_bytes (value ∷ values) = be_bytes 32 (scalar_to_be value) ++ scalar_bytes values

  unfoldable pub canonical_blob_bytes_v1 : ℕ → Bytes → ℕ → Option Bytes
  unfolding blob_field_values scalar_bytes
  canonical_blob_bytes_v1 width canonical_data blob_index = do
    values ← blob_field_values width canonical_data blob_index
    some (scalar_bytes values)
