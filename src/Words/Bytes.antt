-- ===== src/Words/Bytes.antt =====
-- Big-endian bytes determine the number that they encode, and are read back as it.
use zkdeal_prover.Prelude.{
  ℕ, zero, suc, ◌+◌, ◌*◌, ◌/◌, ◌%◌, ◌^◌, ◌<◌, ◌≡◌, arith, refl, ap, All, length, length-append,
  List, [], ◌∷◌, ◌++◌,
}
use mathlib.Core.Path.{subst}
use zkdeal_prover.Words.Defs.{be_bytes, from_be_bytes}

pub length-be_bytes : (n value : ℕ) → length (be_bytes n value) ≡ n
unfolding be_bytes
length-be_bytes zero value = refl
length-be_bytes (suc n) value = omega (
  arith,
  length-append (be_bytes n (value / 256)) (value % 256 ∷ []),
  length-be_bytes n (value / 256),
)

-- Two lists of one length in front of equal wholes are equal, and so is what follows them.
pub append_cancel {ℓ} :
    {A : Type ℓ} (xs ys : List A) {us vs : List A}
    → length xs ≡ length ys
    → xs ++ us ≡ ys ++ vs
    → (xs ≡ ys) × (us ≡ vs)
append_cancel [] [] h e = (refl, e)
append_cancel [] (y ∷ ys) h e = absurd (omega arith)
append_cancel (x ∷ xs) [] h e = absurd (omega arith)
append_cancel (x ∷ xs) (y ∷ ys) {us} {vs} h e =
    ground (arith, append_cancel xs ys {us = us} {vs = vs})

pub be_bytes_injective :
    (n a b : ℕ) → a < 256 ^ n → b < 256 ^ n → be_bytes n a ≡ be_bytes n b → a ≡ b
unfolding be_bytes
be_bytes_injective zero a b ha hb e = omega arith
be_bytes_injective (suc n) a b ha hb e =
    let (high, low) = append_cancel (be_bytes n (a / 256)) (be_bytes n (b / 256)) lengths e in
    let last : a % 256 ≡ b % 256 = cc low in
    omega (arith, be_bytes_injective n (a / 256) (b / 256) (bound a ha) (bound b hb) high, last)
  where
    lengths : length (be_bytes n (a / 256)) ≡ length (be_bytes n (b / 256))
    lengths = omega (arith, length-be_bytes n (a / 256), length-be_bytes n (b / 256))

    bound : (x : ℕ) → x < 256 ^ suc n → x / 256 < 256 ^ n
    bound x h = omega arith

be_bytes_append_last :
    (k high byte : ℕ)
    → byte < 256
    → be_bytes (suc k) (high * 256 + byte) ≡ be_bytes k high ++ (byte ∷ [])
unfolding be_bytes
be_bytes_append_last k high byte h =
    let quotient : (high * 256 + byte) / 256 ≡ high = omega (arith, h) in
    let remainder : (high * 256 + byte) % 256 ≡ byte = omega (arith, h) in cc (quotient, remainder)

append_nil {ℓ} : {A : Type ℓ} (xs : List A) → xs ++ [] ≡ xs
append_nil [] = refl
append_nil (x ∷ xs) = ap (x ∷◌) (append_nil xs)

append_cons {ℓ} :
    {A : Type ℓ} (xs : List A) (y : A) (ys : List A) → (xs ++ (y ∷ [])) ++ ys ≡ xs ++ (y ∷ ys)
append_cons [] y ys = refl
append_cons (x ∷ xs) y ys = ap (x ∷◌) (append_cons xs y ys)

-- Written to more bytes than were read, a number keeps those bytes at the end.
pub be_bytes-from_be_bytes :
    (k high : ℕ) (bytes : List ℕ)
    → All (λ (byte : ℕ). byte < 256) bytes
    → be_bytes (k + length bytes) (from_be_bytes high bytes) ≡ be_bytes k high ++ bytes
unfolding from_be_bytes
be_bytes-from_be_bytes k high [] h =
    let count : k + 0 ≡ k = omega arith in cc (append_nil (be_bytes k high), count)
be_bytes-from_be_bytes k high (byte ∷ bytes) h =
    let later = be_bytes-from_be_bytes (suc k) (high * 256 + byte) bytes h.1 in
    let count : k + suc (length bytes) ≡ suc k + length bytes = omega arith in
    let last = be_bytes_append_last k high byte h.0 in
    let join = append_cons (be_bytes k high) byte bytes in cc (later, count, last, join)

pub from_be_bytes_bound :
    (k high : ℕ) (bytes : List ℕ)
    → All (λ (byte : ℕ). byte < 256) bytes
    → high < 256 ^ k
    → from_be_bytes high bytes < 256 ^ (k + length bytes)
unfolding from_be_bytes
from_be_bytes_bound k high [] h bound =
    let count : k ≡ k + 0 = omega arith in subst (λ (n : ℕ). high < 256 ^ n) count bound
from_be_bytes_bound k high (byte ∷ bytes) h bound =
    let below : high * 256 + byte < 256 ^ suc k = omega (arith, h.0, bound) in
    let later = from_be_bytes_bound (suc k) (high * 256 + byte) bytes h.1 below in
    let count : suc k + length bytes ≡ k + suc (length bytes) = omega arith in
    subst (λ (n : ℕ). from_be_bytes (high * 256 + byte) bytes < 256 ^ n) count later
