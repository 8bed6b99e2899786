-- ===== src/RoomV5/Import/Writes.antt =====
-- The write of one mirrored word: the words, the order and the accounts after it.
use zkdeal_prover.Prelude.{
  ℕ, ◌≡◌, refl, sym, ap, ◌∙◌, ◌&&◌, Option, none, some, ◌==◌, if◌then◌else◌, arith,
}
use zkdeal_prover.Prelude.Map.{
  Map, lookup, insert, remove, IsAscending, lookup-insert, lookup-remove_ne, lookup-remove_self,
  insert-IsAscending, remove-IsAscending,
}
use zkdeal_prover.StfTypes.Scalars.{Address, U256}
use zkdeal_prover.State.{StateMap, AccountRecord, stored_word, word_at}
use mathlib.Core.Path.{subst}
use native.Mathlib.Decide.{ℕ_discrete}
use zkdeal_prover.RoomV5.Import.{write_word}

-- The storage of every account is a map: its keys ascend.
abbrev pub IsOrdered : StateMap → Type 0
IsOrdered state =
    (a : Address) (account : AccountRecord)
    → lookup a state.accounts ≡ some account
    → IsAscending account.storage

-- The word of a slot, as `SLOAD` reads it.
abbrev pub stored : StateMap → Address → U256 → U256
stored state a s = stored_word (lookup a state.accounts) s

-- The storage with one word replaced.
abbrev pub with_word : Address → U256 → U256 → (Address → U256 → U256) → Address → U256 → U256
with_word address slot value words a s = if address == a && slot == s then value else words a s

-- Nonce, balance and code.
abbrev pub IsSameShell : Option AccountRecord → Option AccountRecord → Type 0
IsSameShell none none = Unit
IsSameShell none (some b) = ⊥
IsSameShell (some a) none = ⊥
IsSameShell (some a) (some b) = (a.nonce ≡ b.nonce) × (a.balance ≡ b.balance) × (a.code ≡ b.code)

pub IsSameShell-refl : (a : Option AccountRecord) → IsSameShell a a
IsSameShell-refl none = tt
IsSameShell-refl (some a) = (refl, refl, refl)

word_of_write :
    (value : U256) (slot s : U256) (storage : Map U256)
    → IsAscending storage
    → word_at (lookup s (if value == 0 then remove slot storage else insert slot value storage))
      ≡ (if slot == s then value else word_at (lookup s storage))
word_of_write value slot s storage h = elim (ℕ_discrete value 0) [
  | no some' ↦ ground (arith, lookup-insert s slot value storage)
  | yes zero' ↦ elim (ℕ_discrete slot s) [
    | yes same ↦ ground (
      arith,
      same,
      ap (λ (k : ℕ). lookup k (remove slot storage)) same,
      lookup-remove_self slot storage h,
    )
    | no other ↦ ground (arith, lookup-remove_ne s slot storage (λ e. other (sym e)))
  ]
]

IsAscending-write :
    (value slot : U256) (storage : Map U256)
    → IsAscending storage
    → IsAscending (if value == 0 then remove slot storage else insert slot value storage)
IsAscending-write value slot storage h = elim (ℕ_discrete value 0) [
  | no some' ↦ ground (arith, insert-IsAscending slot value storage h)
  | yes zero' ↦ ground (arith, remove-IsAscending slot storage h)
]

module _ (address : Address) (account : AccountRecord) (slot value : U256) (state : StateMap)
    (found : lookup address state.accounts ≡ some account) where
  abbrev updated : AccountRecord
  updated = record account {
    storage = if value == 0 then remove slot account.storage else insert slot value account.storage;
  }

  updated_lem :
      (a : Address)
      → lookup a (insert address updated state.accounts)
        ≡ (if address == a then some updated else lookup a state.accounts)
  updated_lem a = lookup-insert a address updated state.accounts

  pub write_word-stored :
      IsOrdered state
      → (a : Address) (s : U256)
      → stored (write_word address account slot value state) a s
        ≡ with_word address slot value (stored state) a s
  unfolding write_word
  write_word-stored ordered a s = elim (ℕ_discrete address a) [
    | yes same ↦
        let here : lookup a state.accounts ≡ some account =
          ap (λ (k : ℕ). lookup k state.accounts) (sym same) ∙ found in
        ground (
          arith,
          same,
          here,
          updated_lem a,
          word_of_write value slot s account.storage (ordered address account found),
        )
    | no other ↦ ground (arith, updated_lem a)
  ]

  pub write_word-IsOrdered :
      IsOrdered state → IsOrdered (write_word address account slot value state)
  unfolding write_word
  write_word-IsOrdered ordered a b e = elim (ℕ_discrete address a) [
    | yes same ↦
        let own : updated ≡ b = ground (arith, updated_lem a) in
        subst (λ (c : AccountRecord). IsAscending c.storage) own
          (IsAscending-write value slot account.storage (ordered address account found))
    | no other ↦ ordered a b (ground (arith, updated_lem a))
  ]

  pub write_word-IsSameShell :
      (a : Address)
      → IsSameShell
          (lookup a state.accounts)
          (lookup a (write_word address account slot value state).accounts)
  unfolding write_word
  write_word-IsSameShell a = elim (ℕ_discrete address a) [
    | yes same ↦
        let here : lookup a state.accounts ≡ some account =
          ap (λ (k : ℕ). lookup k state.accounts) (sym same) ∙ found in
        let there : lookup a (insert address updated state.accounts) ≡ some updated =
          ground (arith, updated_lem a) in
        rw (here, there) (refl, refl, refl)
    | no other ↦
        let there : lookup a (insert address updated state.accounts) ≡ lookup a state.accounts =
          ground (arith, updated_lem a) in
        rw there (IsSameShell-refl (lookup a state.accounts))
  ]
