-- ===== src/StfTypes/Hosting/Blob/Chunks.antt =====
-- The chunks of 31 bytes in which the data of a blob is packed, and how they are read back.
use mathlib.Core.Path.{subst}
use zkdeal_prover.Prelude.{
  ℕ, zero, suc, ◌+◌, ◌-◌, ◌^◌, ◌<◌, ◌≤◌, ◌≡◌, refl, ap, arith, [], ◌∷◌, ◌++◌, length, take, drop,
  All, leb, if◌then◌else◌,
}
use zkdeal_prover.StfTypes.Scalars.{Bytes}
use zkdeal_prover.Words.{be_bytes, from_be_bytes}
use zkdeal_prover.Words.Bytes.{length-be_bytes, be_bytes-from_be_bytes, from_be_bytes_bound}

abbrev pub AreBytes : Bytes → Type 0
AreBytes bytes = All (λ (byte : ℕ). byte < 256) bytes

-- The last `size` bytes of the first word of 32.
unfoldable payload : ℕ → Bytes → Bytes
payload size blob = drop (32 - size) (take 32 blob)

-- The payloads of so many words, with `left` bytes of data left in all: each word ends in the next 31 of
-- them, or in the last ones.
unfoldable pub unpack : ℕ → ℕ → Bytes → Bytes
unfolding payload
unpack zero left blob = []
unpack (suc n) left blob =
    let size = if leb 31 left then 31 else left in
    payload size blob ++ unpack n (left - size) (drop 32 blob)

drop-append : (n : ℕ) (xs ys : Bytes) → length xs ≡ n → drop n (xs ++ ys) ≡ ys
drop-append zero [] ys h = refl
drop-append zero (x ∷ xs) ys h = absurd (omega arith)
drop-append (suc n) [] ys h = absurd (omega arith)
drop-append (suc n) (x ∷ xs) ys h = drop-append n xs ys (omega (arith, h))

take-append : (n : ℕ) (xs ys : Bytes) → length xs ≡ n → take n (xs ++ ys) ≡ xs
take-append zero [] ys h = refl
take-append zero (x ∷ xs) ys h = absurd (omega arith)
take-append (suc n) [] ys h = absurd (omega arith)
take-append (suc n) (x ∷ xs) ys h = ap (x ∷◌) (take-append n xs ys (omega (arith, h)))

drop-all : (n : ℕ) (xs : Bytes) → length xs ≤ n → drop n xs ≡ []
drop-all zero [] h = refl
drop-all zero (x ∷ xs) h = absurd (omega arith)
drop-all (suc n) [] h = refl
drop-all (suc n) (x ∷ xs) h = drop-all n xs (omega (arith, h))

pub length-take :
    (n : ℕ) (xs : Bytes) → length (take n xs) ≡ (if leb n (length xs) then n else length xs)
length-take zero xs = ground arith
length-take (suc n) [] = ground arith
length-take (suc n) (x ∷ xs) = ground (arith, length-take n xs)

pub length-drop : (n : ℕ) (xs : Bytes) → length (drop n xs) ≡ length xs - n
length-drop zero xs = omega arith
length-drop (suc n) [] = omega arith
length-drop (suc n) (x ∷ xs) = omega (arith, length-drop n xs)

pub take-AreBytes : (n : ℕ) (xs : Bytes) → AreBytes xs → AreBytes (take n xs)
take-AreBytes zero xs h = tt
take-AreBytes (suc n) [] h = tt
take-AreBytes (suc n) (x ∷ xs) h = (h.0, take-AreBytes n xs h.1)

pub drop-AreBytes : (n : ℕ) (xs : Bytes) → AreBytes xs → AreBytes (drop n xs)
drop-AreBytes zero xs h = h
drop-AreBytes (suc n) [] h = tt
drop-AreBytes (suc n) (x ∷ xs) h = drop-AreBytes n xs h.1

pub take-drop : (n m : ℕ) (xs : Bytes) → take n xs ++ take m (drop n xs) ≡ take (n + m) xs
take-drop zero m xs = let count : 0 + m ≡ m = omega arith in cc count
take-drop (suc n) zero [] = let count : suc n + 0 ≡ suc n = omega arith in cc count
take-drop (suc n) (suc m) [] = let count : suc n + suc m ≡ suc (n + suc m) = omega arith in cc count
take-drop (suc n) m (x ∷ xs) =
    let count : suc n + m ≡ suc (n + m) = omega arith in cc (take-drop n m xs, count)

power_positive : (n : ℕ) → 0 < 256 ^ n
power_positive zero = omega arith
power_positive (suc n) = omega (arith, power_positive n)

-- A chunk of at most 31 bytes is a canonical scalar.
chunk_value_bound :
    (chunk : Bytes) → AreBytes chunk → length chunk ≤ 31 → from_be_bytes 0 chunk < 2 ^ 248
chunk_value_bound chunk bytes h =
    let count : (31 - length chunk) + length chunk ≡ 31 = omega (arith, h) in
    let bound =
      from_be_bytes_bound (31 - length chunk) 0 chunk bytes (power_positive (31 - length chunk)) in
    subst (λ (n : ℕ). from_be_bytes 0 chunk < 256 ^ n) count bound

-- It stands at the end of the word that it is written to.
chunk_word :
    (chunk : Bytes) (rest : Bytes)
    → AreBytes chunk
    → length chunk ≤ 31
    → (take 32 (be_bytes 32 (from_be_bytes 0 chunk) ++ rest) ≡ be_bytes 32 (from_be_bytes 0 chunk))
      × (drop 32 (be_bytes 32 (from_be_bytes 0 chunk) ++ rest) ≡ rest)
      × (drop (32 - length chunk) (be_bytes 32 (from_be_bytes 0 chunk)) ≡ chunk)
chunk_word chunk rest bytes h =
    let word = be_bytes 32 (from_be_bytes 0 chunk) in
    let size = length-be_bytes 32 (from_be_bytes 0 chunk) in
    let padded = be_bytes-from_be_bytes (32 - length chunk) 0 chunk bytes in
    let count : (32 - length chunk) + length chunk ≡ 32 = omega (arith, h) in
    let split : word ≡ be_bytes (32 - length chunk) 0 ++ chunk = cc (padded, count) in
    let dropped =
      drop-append (32 - length chunk) (be_bytes (32 - length chunk) 0) chunk
        (length-be_bytes (32 - length chunk) 0) in
    (take-append 32 word rest size, drop-append 32 word rest size, cc (split, dropped))

pub take-nil : (n : ℕ) → take {A = ℕ} n [] ≡ []
take-nil zero = refl
take-nil (suc n) = refl

drop-take : (n : ℕ) (xs : Bytes) → drop n (take n xs) ≡ []
drop-take zero xs = refl
drop-take (suc n) [] = refl
drop-take (suc n) (x ∷ xs) = drop-take n xs

payload-nothing : (blob : Bytes) → payload 0 blob ≡ []
unfolding payload
payload-nothing blob = drop-take 32 blob

pub unpack-nothing : (n : ℕ) (blob : Bytes) → unpack n 0 blob ≡ []
unfolding unpack
unpack-nothing zero blob = refl
unpack-nothing (suc n) blob =
    let first = payload-nothing blob in
    let rest = unpack-nothing n (drop 32 blob) in cc (first, rest)

-- One word in front of the others gives its chunk back.
pub unpack-word :
    (n left : ℕ) (chunk rest : Bytes)
    → AreBytes chunk
    → length chunk ≡ (if leb 31 left then 31 else left)
    → unpack (suc n) left (be_bytes 32 (from_be_bytes 0 chunk) ++ rest)
      ≡ chunk ++ unpack n (left - length chunk) rest
unfolding unpack payload
unpack-word n left chunk rest bytes size =
    let short : length chunk ≤ 31 = ground (arith, size) in
    let word = chunk_word chunk rest bytes short in cc (word.0, word.1, word.2, size)

first_short : (bytes : Bytes) → length (take 31 bytes) ≤ 31
first_short bytes = short_if (length bytes) (length-take 31 bytes)
  where
    short_if : (n : ℕ) {m : ℕ} → m ≡ (if leb 31 n then 31 else n) → m ≤ 31
    short_if n h = ground (arith, h)

pub first_bound : (bytes : Bytes) → AreBytes bytes → from_be_bytes 0 (take 31 bytes) < 2 ^ 248
first_bound bytes valid =
    chunk_value_bound (take 31 bytes) (take-AreBytes 31 bytes valid) (first_short bytes)
