-- ===== src/RoomV5/Import/Mirrors.antt =====
-- What the mirror writes of an import make of the room's storage.
use zkdeal_prover.Prelude.{
  ◌≡◌, refl, sym, ◌∙◌, true, Option, none, some, List, [], ◌∷◌, arith, length, All, ok,
  Result-cases, Option-cases, inl, inr,
}
use zkdeal_prover.Prelude.Map.{Map, lookup, amount_at}
use zkdeal_prover.StfTypes.Scalars.{Address, U256}
use zkdeal_prover.StfTypes.V5.{L1MirrorBindingV5, CertifiedImportBindingV5}
use zkdeal_prover.State.{StateMap, AccountRecord}
use mathlib.Core.Path.{subst}
use zkdeal_prover.RoomV5.Import.{write_word, is_declared, apply_mirror, apply_mirrors}
use zkdeal_prover.RoomV5.Import.Writes.{
  IsOrdered, stored, with_word, IsSameShell, IsSameShell-refl, write_word-stored,
  write_word-IsOrdered, write_word-IsSameShell,
}

-- The storage after the mirrors, in order, when a source key has the value that `source` gives.
abbrev pub mirrored :
    (U256 → U256) → List L1MirrorBindingV5 → (Address → U256 → U256) → Address → U256 → U256
mirrored source [] words = words
mirrored source (binding ∷ bindings) words =
    mirrored source bindings
      (with_word binding.room_contract binding.room_slot (source binding.source_key) words)

mirrored_cong :
    (source : U256 → U256) (bindings : List L1MirrorBindingV5) (f g : Address → U256 → U256)
    → ((a : Address) (s : U256) → f a s ≡ g a s)
    → (a : Address) (s : U256) → mirrored source bindings f a s ≡ mirrored source bindings g a s
mirrored_cong source [] f g h a s = h a s
mirrored_cong source (binding ∷ bindings) f g h a s =
    mirrored_cong source bindings _ _ (λ b t. ground (arith, h b t)) a s

pub mirrored_source :
    (f g : U256 → U256) (bindings : List L1MirrorBindingV5) (words : Address → U256 → U256)
    → ((key : U256) → f key ≡ g key)
    → (a : Address) (s : U256) → mirrored f bindings words a s ≡ mirrored g bindings words a s
mirrored_source f g [] words h a s = refl
mirrored_source f g (binding ∷ bindings) words h a s =
    mirrored_source f g bindings _ h a s
    ∙ mirrored_cong g bindings _ _ (λ b t. ground (arith, h binding.source_key)) a s

IsSameShell-trans :
    (x y z : Option AccountRecord) → IsSameShell x y → IsSameShell y z → IsSameShell x z
IsSameShell-trans none none none h k = tt
IsSameShell-trans none none (some c) h k = k
IsSameShell-trans none (some b) z h k = absurd h
IsSameShell-trans (some a) none z h k = absurd h
IsSameShell-trans (some a) (some b) none h k = k
IsSameShell-trans (some a) (some b) (some c) h k = (h.0 ∙ k.0, h.1 ∙ k.1, h.2 ∙ k.2)

-- A mirror that goes through writes the word of a known key into a declared slot.
record IsWritten (values : Map U256) (binding : L1MirrorBindingV5) (state state' : StateMap)
    : Type 0 where
  value : U256
  account : AccountRecord
  known : lookup binding.source_key values ≡ some value
  found : lookup binding.room_contract state.accounts ≡ some account
  declared : is_declared state binding.room_contract binding.room_slot ≡ true
  written : state' ≡ write_word binding.room_contract account binding.room_slot value state

apply_mirror-IsWritten :
    (values : Map U256) (binding : L1MirrorBindingV5) (expected : CertifiedImportBindingV5)
    (state state' : StateMap)
    → apply_mirror values binding expected state ≡ ok state'
    → IsWritten values binding state state'
unfolding apply_mirror
apply_mirror-IsWritten values binding expected state state' h =
    elim (Option-cases (lookup binding.source_key values)) [
      | inl absent ↦ absurd (ground arith)
      | inr (value, known) ↦ elim (Option-cases (lookup binding.room_contract state.accounts)) [
        | inl absent ↦ absurd (ground arith)
        | inr (account, found) ↦ record {
          value = value;
          account = account;
          known = known;
          found = found;
          declared = ground arith;
          written = ground arith;
        }
      ]
    ]

-- What the mirrors of an import leave behind.
pub record IsMirrored (values : Map U256) (bindings : List L1MirrorBindingV5)
    (state state' : StateMap) : Type 0 where
  pub words :
      (a : Address) (s : U256)
      → stored state' a s ≡ mirrored (λ key. amount_at key values) bindings (stored state) a s
  pub ordered : IsOrdered state'
  pub shells : (a : Address) → IsSameShell (lookup a state.accounts) (lookup a state'.accounts)
  pub known :
      All
        (λ (binding : L1MirrorBindingV5).
          (value : U256) × (lookup binding.source_key values ≡ some value))
        bindings

IsMirrored-nil :
    (values : Map U256) (state state' : StateMap)
    → state ≡ state'
    → IsOrdered state
    → IsMirrored values [] state state'
IsMirrored-nil values state state' e ordered =
    subst (λ (x : StateMap). IsMirrored values [] state x) e
      (record {
        words = λ a s. refl;
        ordered = ordered;
        shells = λ a. IsSameShell-refl (lookup a state.accounts);
        known = tt;
      })

IsWritten-words :
    (values : Map U256) (binding : L1MirrorBindingV5) (state next : StateMap)
    → IsOrdered state
    → IsWritten values binding state next
    → (a : Address) (s : U256)
    → stored next a s
      ≡ with_word binding.room_contract binding.room_slot
          (amount_at binding.source_key values)
          (stored state)
          a
          s
IsWritten-words values binding state next ordered w a s =
    let step =
      write_word-stored binding.room_contract w.account binding.room_slot w.value state w.found
        ordered a s in
    let value : amount_at binding.source_key values ≡ w.value = ground (arith, w.known) in
    rw (value, w.written) step

IsMirrored-cons :
    (values : Map U256) (binding : L1MirrorBindingV5) (bindings : List L1MirrorBindingV5)
    (state next state' : StateMap)
    → IsOrdered state
    → IsWritten values binding state next
    → (IsOrdered next → IsMirrored values bindings next state')
    → IsMirrored values (binding ∷ bindings) state state'
IsMirrored-cons values binding bindings state next state' ordered w rest =
    let own : IsOrdered next =
      subst (λ (x : StateMap). IsOrdered x) (sym w.written)
        (write_word-IsOrdered binding.room_contract w.account binding.room_slot w.value state
          w.found ordered) in
    let tail = rest own in
    record {
      words = λ a s.
          tail.words a s
          ∙ mirrored_cong (λ key. amount_at key values) bindings (stored next) _
              (λ b t. IsWritten-words values binding state next ordered w b t) a s;
      ordered = tail.ordered;
      shells = λ a.
          IsSameShell-trans _ (lookup a next.accounts) _
            (subst (λ (x : StateMap). IsSameShell (lookup a state.accounts) (lookup a x.accounts))
              (sym w.written)
              (write_word-IsSameShell binding.room_contract w.account binding.room_slot w.value
                state w.found a))
            (tail.shells a);
      known = ((w.value, w.known), tail.known);
    }

pub apply_mirrors-IsMirrored :
    (values : Map U256) (bindings : List L1MirrorBindingV5)
    (certified : List CertifiedImportBindingV5) (state state' : StateMap)
    → length certified ≡ length bindings
    → apply_mirrors values bindings certified state ≡ ok state'
    → IsOrdered state
    → IsMirrored values bindings state state'
unfolding apply_mirrors
apply_mirrors-IsMirrored values [] certified state state' e h ordered =
    IsMirrored-nil values state state' (ground arith) ordered
apply_mirrors-IsMirrored values (binding ∷ bindings) [] state state' e h ordered =
    absurd (omega arith)
apply_mirrors-IsMirrored values (binding ∷ bindings) (expected ∷ certified) state state' e h
      ordered =
    elim (Result-cases (apply_mirror values binding expected state)) [
      | inr (x, failed) ↦ absurd (ground arith)
      | inl (next, ran) ↦
          IsMirrored-cons values binding bindings state next state' ordered
            (apply_mirror-IsWritten values binding expected state next ran)
            (apply_mirrors-IsMirrored values bindings certified next state' (omega arith)
              (ground arith))
    ]
