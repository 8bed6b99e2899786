-- ===== src/Prelude/Outcome.antt =====
-- `Result<A, E>` of Rust, with `?` as the bind of a `do` block.
use mathlib.Core.Path.{◌≡◌, refl}
use mathlib.Core.Bool.{Bool, true, false}
use mathlib.Core.Option.{Option, none, some}
use mathlib.Core.Logic.{◌⊎◌, inl, inr}

pub data Result (E : Type 0) (A : Type 0) : Type 0 where
  ok : A → Result E A
  err : E → Result E A

infixl 5 ◌>>=◌ ◌>>◌
abbrev pub ◌>>=◌ : {E A B : Type 0} → Result E A → (A → Result E B) → Result E B
ok a >>= f = f a
err e >>= f = err e

abbrev pub ◌>>◌ : {E B : Type 0} → Result E (Unit {0}) → Result E B → Result E B
m >> k = m >>= λ _. k

-- `if bad { return Err(e); }`
abbrev pub reject_if : {E : Type 0} → Bool → E → Result E (Unit {0})
reject_if true e = err e
reject_if false e = ok tt

-- `option.ok_or(e)?`
abbrev pub ok_or : {E A : Type 0} → Option A → E → Result E A
ok_or none e = err e
ok_or (some a) e = ok a

-- A run succeeds or fails.
module _ {E : Type 0} where
  -- What a step hands on, when the steps after it succeed.
  pub ok-inv :
      {A B : Type 0} (run : Result E A) (next : A → Result E B) {result : B}
      → (run >>= next) ≡ ok result
      → (value : A) × (run ≡ ok value) × (next value ≡ ok result)
  ok-inv (err refusal) next done = cc
  ok-inv (ok value) next done = (value, refl, done)

  pub Result-cases :
      {A : Type 0} (r : Result E A) → ((a : A) × (r ≡ ok a)) ⊎ ((e : E) × (r ≡ err e))
  Result-cases (ok a) = inl (a, refl)
  Result-cases (err e) = inr (e, refl)

-- `result.is_err()`
abbrev pub is_err : {E A : Type 0} → Result E A → Bool
is_err (ok a) = false
is_err (err e) = true

-- `result.map_err(wrap)`
abbrev pub map_err : {E F A : Type 0} → (E → F) → Result E A → Result F A
map_err wrap (ok a) = ok a
map_err wrap (err e) = err (wrap e)
