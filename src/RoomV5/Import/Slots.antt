-- ===== src/RoomV5/Import/Slots.antt =====
-- The loop over the imported slots: what it proves, and the values that it collects.
use zkdeal_prover.Prelude.{
  ℕ, ◌+◌, ◌≡◌, ap, ◌∙◌, Bool, true, false, Option, some, List, [], ◌∷◌, leb, ◌==◌, if◌then◌else◌,
  is_some_and, none, Bool-cases, inl, inr, arith, length, any, ok,
}
use zkdeal_prover.Prelude.Map.{Map, lookup, insert, amount_at, lookup-insert}
use zkdeal_prover.Words.{be_bytes}
use zkdeal_prover.StfTypes.Scalars.{B256, U256}
use zkdeal_prover.StfTypes.Abi.{Keccak}
use zkdeal_prover.StfTypes.V5.{L1StorageSlotV5}
use zkdeal_prover.Trie.{Trie}
use zkdeal_prover.RoomV5.Import.{is_proved, collect_slots}

-- The value that a list of slots gives a key, `otherwise` when it does not list the key.
abbrev pub imported_value : List L1StorageSlotV5 → U256 → U256 → U256
imported_value [] otherwise key = otherwise
imported_value (slot ∷ slots) otherwise key =
    imported_value slots (if slot.key == key then slot.value else otherwise) key

abbrev pub is_imported : List L1StorageSlotV5 → U256 → Bool
is_imported slots key = any (λ (slot : L1StorageSlotV5). slot.key == key) slots

imported_lem :
    (slots : List L1StorageSlotV5) (a b : U256) (key : U256)
    → a ≡ b
    → imported_value slots a key ≡ imported_value slots b key
imported_lem slots a b key e = ap (λ (x : ℕ). imported_value slots x key) e

module _ ⦃keccak : Keccak⦄ (trie : Trie) where
  -- Every slot has its proof, and the keys ascend from `previous`.
  abbrev pub AreProved : B256 → Option U256 → List L1StorageSlotV5 → Type 0
  AreProved root previous [] = Unit
  AreProved root previous (slot ∷ slots) =
      (is_some_and previous (λ key. leb slot.key key) ≡ false)
      × (trie.verify_proof root (trie.unpack (keccak.keccak256 (be_bytes 32 slot.key)))
            (if slot.value == 0 then none else some (trie.encode_word slot.value)) slot.proof
          ≡ true)
      × AreProved root (some slot.key) slots

  slot_proof :
      (root : B256) (slot : L1StorageSlotV5)
      → is_proved trie root slot ≡ true
      → trie.verify_proof root
          (trie.unpack (keccak.keccak256 (be_bytes 32 slot.key)))
          (if slot.value == 0 then none else some (trie.encode_word slot.value))
          slot.proof
        ≡ true
  unfolding is_proved
  slot_proof root slot h = elim (Bool-cases (slot.value == 0)) [
    | inl absent ↦ ground (arith, h, absent)
    | inr present ↦ ground (arith, h, present)
  ]

  pub collect_slots-AreProved :
      (root : B256) (slots : List L1StorageSlotV5) (previous : Option U256) (nodes : ℕ)
      (m m' : Map U256)
      → collect_slots trie root slots previous nodes m ≡ ok m'
      → AreProved root previous slots
  unfolding collect_slots
  collect_slots-AreProved root [] previous nodes m m' h = tt
  collect_slots-AreProved root (slot ∷ slots) previous nodes m m' h = (
    ground arith,
    slot_proof root slot (ground arith),
    collect_slots-AreProved root slots (some slot.key) (nodes + length slot.proof)
        (insert slot.key slot.value m) m' (ground arith),
  )

  pub collect_slots-amount :
      (root : B256) (slots : List L1StorageSlotV5) (previous : Option U256) (nodes : ℕ)
      (m m' : Map U256) (key : U256)
      → collect_slots trie root slots previous nodes m ≡ ok m'
      → amount_at key m' ≡ imported_value slots (amount_at key m) key
  unfolding collect_slots
  collect_slots-amount root [] previous nodes m m' key h = ground arith
  collect_slots-amount root (slot ∷ slots) previous nodes m m' key h =
      collect_slots-amount root slots (some slot.key) (nodes + length slot.proof)
        (insert slot.key slot.value m) m' key (ground arith)
      ∙ imported_lem slots _ _ key (ground (arith, lookup-insert key slot.key slot.value m))

  pub collect_slots-unlisted :
      (root : B256) (slots : List L1StorageSlotV5) (previous : Option U256) (nodes : ℕ)
      (m m' : Map U256) (key : U256)
      → collect_slots trie root slots previous nodes m ≡ ok m'
      → is_imported slots key ≡ false
      → lookup key m' ≡ lookup key m
  unfolding collect_slots
  collect_slots-unlisted root [] previous nodes m m' key h u = ground arith
  collect_slots-unlisted root (slot ∷ slots) previous nodes m m' key h u =
      collect_slots-unlisted root slots (some slot.key) (nodes + length slot.proof)
        (insert slot.key slot.value m) m' key (ground arith) (ground arith)
      ∙ ground (arith, lookup-insert key slot.key slot.value m)
