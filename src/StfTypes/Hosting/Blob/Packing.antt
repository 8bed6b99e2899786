-- ===== src/StfTypes/Hosting/Blob/Packing.antt =====
-- The packing of a blob never panics and is read back as the data that it packs.
use native.Mathlib.Nat.{mod-eq_of_lt}
use zkdeal_prover.Prelude.{
  ℕ, ◌^◌, ◌<◌, zero, suc, ◌+◌, ◌*◌, ◌-◌, ◌^◌, ◌<◌, ◌≡◌, refl, ap, sym, ◌∙◌, arith, Option, some,
  List, [], ◌∷◌, ◌++◌, length, length-append, length-replicate, take, drop, replicate,
}
use zkdeal_prover.StfTypes.Scalars.{B256, Bytes}
use zkdeal_prover.Words.{be_bytes, from_be_bytes}
use zkdeal_prover.Words.Bytes.{length-be_bytes}
use zkdeal_prover.StfTypes.Hosting.Blob.{
  ScalarField, scalar_from_be, scalar_to_be, pack_elements, blob_field_values, scalar_bytes,
  canonical_blob_bytes_v1, ◌>>=◌,
}
use zkdeal_prover.StfTypes.Hosting.Blob.Chunks.{
  AreBytes, unpack, take-drop, take-AreBytes, drop-AreBytes, length-take, length-drop, take-nil,
  unpack-nothing, unpack-word, first_bound,
}

module _ ⦃field : ScalarField⦄ where
  length-scalar_bytes :
      (values : List field.Scalar) → length (scalar_bytes values) ≡ 32 * length values
  unfolding scalar_bytes
  length-scalar_bytes [] = omega arith
  length-scalar_bytes (value ∷ values) = omega (
    arith,
    length-append (be_bytes 32 (scalar_to_be value)) (scalar_bytes values),
    length-be_bytes 32 (scalar_to_be value),
    length-scalar_bytes values,
  )

  Packed : ℕ → Bytes → List field.Scalar → Type 0
  Packed n bytes values =
      (pack_elements n bytes ≡ some values)
      × (length values ≡ n)
      × (unpack n (length bytes) (scalar_bytes values) ≡ take (31 * n) bytes)

  pack_elements-next :
      (n byte : ℕ) (bytes : Bytes) (value : field.Scalar) (values : List field.Scalar)
      → scalar_from_be (from_be_bytes 0 (take 31 (byte ∷ bytes))) ≡ some value
      → pack_elements n (drop 31 (byte ∷ bytes)) ≡ some values
      → pack_elements (suc n) (byte ∷ bytes) ≡ some (value ∷ values)
  unfolding pack_elements
  pack_elements-next n byte bytes value values first rest =
      ap
        (λ (read : Option field.Scalar).
          read >>= (λ v. pack_elements n (drop 31 (byte ∷ bytes)) >>= (λ vs. some (v ∷ vs))))
        first
      ∙ ap (λ (read : Option (List field.Scalar)). read >>= (λ vs. some (value ∷ vs))) rest

  unpack-next :
      (n : ℕ) (bytes : Bytes) (value : field.Scalar) (values : List field.Scalar)
      → AreBytes bytes
      → scalar_to_be value ≡ from_be_bytes 0 (take 31 bytes)
      → unpack n (length (drop 31 bytes)) (scalar_bytes values) ≡ take (31 * n) (drop 31 bytes)
      → unpack (suc n) (length bytes) (scalar_bytes (value ∷ values)) ≡ take (31 * suc n) bytes
  unfolding scalar_bytes
  unpack-next n bytes value values valid written rest =
      let size = length-take 31 bytes in
      let left : length bytes - length (take 31 bytes) ≡ length (drop 31 bytes) =
        ground (arith, size, length-drop 31 bytes) in
      let word =
        unpack-word n (length bytes) (take 31 bytes) (scalar_bytes values)
          (take-AreBytes 31 bytes valid) size in
      let count : 31 + 31 * n ≡ 31 * suc n = omega arith in
      ap (λ (v : B256). unpack (suc n) (length bytes) (be_bytes 32 v ++ scalar_bytes values))
        written
      ∙ word
      ∙ ap (λ (m : ℕ). take 31 bytes ++ unpack n m (scalar_bytes values)) left
      ∙ ap (take 31 bytes ++◌) rest
      ∙ take-drop 31 (31 * n) bytes
      ∙ ap (λ (m : ℕ). take m bytes) count

  read_scalar :
      (number : B256)
      → number < 2 ^ 248
      → (value : field.Scalar) × (scalar_from_be number ≡ some value)
        × (scalar_to_be value ≡ number)
  unfolding scalar_from_be scalar_to_be
  read_scalar number bound =
      let (value, read) = field.from_bytes_canonical number bound in
      (value, read, field.to_bytes_from number value read)

  first_scalar :
      (bytes : Bytes)
      → AreBytes bytes
      → (value : field.Scalar) × (scalar_from_be (from_be_bytes 0 (take 31 bytes)) ≡ some value)
        × (scalar_to_be value ≡ from_be_bytes 0 (take 31 bytes))
  first_scalar bytes valid = read_scalar (from_be_bytes 0 (take 31 bytes)) (first_bound bytes valid)

  pack_elements-Packed :
      (n : ℕ) (bytes : Bytes)
      → AreBytes bytes
      → (values : List field.Scalar) × Packed n bytes values
  unfolding pack_elements unpack scalar_bytes Packed
  pack_elements-Packed zero bytes h =
      let count : 31 * 0 ≡ 0 = omega arith in
      ([], (refl, refl, sym (ap (λ (m : ℕ). take m bytes) count)))
  pack_elements-Packed (suc n) [] h = (
    replicate (suc n) field.zero_scalar,
    (
      refl,
      length-replicate (suc n) field.zero_scalar,
      unpack-nothing (suc n) (scalar_bytes (replicate (suc n) field.zero_scalar))
          ∙ sym (take-nil (31 * suc n)),
    ),
  )
  pack_elements-Packed (suc n) (byte ∷ bytes) h =
      let (value, read, written) = first_scalar (byte ∷ bytes) h in
      let (values, (packed, count, unpacked)) =
        pack_elements-Packed n (drop 31 (byte ∷ bytes)) (drop-AreBytes 31 (byte ∷ bytes) h) in
      (
        value ∷ values,
        (
          pack_elements-next n byte bytes value values read packed,
          ap suc count,
          unpack-next n (byte ∷ bytes) value values h written unpacked,
        ),
      )

  -- When the data is made of bytes and the start of the blob, 126,976 bytes for each blob before it, is
  -- a value of the usize type, the packing of the blob ends without a panic in 131,072 bytes, and their
  -- payloads are the data of that blob: up to 126,976 bytes from that start on.
  pub canonical_blob_bytes_v1-unpack :
      (width : ℕ) (canonical_data : Bytes) (blob_index : ℕ)
      → AreBytes canonical_data
      → blob_index * 126_976 < 2 ^ width
      → (blob : Bytes) × (canonical_blob_bytes_v1 width canonical_data blob_index ≡ some blob)
        × (length blob ≡ 131_072)
        × (unpack 4_096 (length canonical_data - blob_index * 126_976) blob
            ≡ take 126_976 (drop (blob_index * 126_976) canonical_data))
  unfolding canonical_blob_bytes_v1 blob_field_values Packed
  canonical_blob_bytes_v1-unpack width canonical_data blob_index valid bound =
      let start = blob_index * 126_976 in
      let wrapped = mod-eq_of_lt bound in
      let (values, (packed, count, unpacked)) =
        pack_elements-Packed 4_096 (drop start canonical_data)
          (drop-AreBytes start canonical_data valid) in
      (
        scalar_bytes values,
        ap
              (λ (n : ℕ).
                pack_elements 4_096 (drop n canonical_data) >>= (λ vs. some (scalar_bytes vs)))
              wrapped
            ∙ ap (λ (read : Option (List field.Scalar)). read >>= (λ vs. some (scalar_bytes vs)))
                packed,
        omega (arith, length-scalar_bytes values, count),
        ap (λ (m : ℕ). unpack 4_096 m (scalar_bytes values))
              (sym (length-drop start canonical_data))
            ∙ unpacked,
      )
