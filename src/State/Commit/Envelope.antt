-- ===== src/State/Commit/Envelope.antt =====
-- What a commit latches: a change outside the declared envelope is remembered.
use mathlib.Core.Path.{subst}
use zkdeal_prover.Prelude.{
  contains, ◌≡◌, refl, sym, ap, ◌∙◌, Bool, true, false, not, Option, none, some, List, [], ◌∷◌,
  if◌then◌else◌, arith, is_some_and, All, Bool-cases, Option-cases, inl, inr,
}
use zkdeal_prover.Prelude.Map.{Map, lookup}
use zkdeal_prover.StfTypes.Scalars.{Address, U256}
use zkdeal_prover.StfTypes.Abi.{Keccak}
use zkdeal_prover.State.{
  StfDbError, undeclared_account, undeclared_storage, StateMap, outside_envelope,
}
use zkdeal_prover.State.Read.{is_undeclared}
use zkdeal_prover.State.Commit.{
  Account, latch, latch_storage, latch_account, drop_account, keep_account, commit_account, commit,
}

-- No test of the code objects to the address or to one of the slots.
abbrev IsAllowed : StateMap → Address → Account → Type 0
IsAllowed state a account =
    (is_undeclared state a ≡ false)
    × All (λ (word : U256 × U256). outside_envelope state a word.0 ≡ false) account.storage

abbrev AreAllowed : StateMap → List (Address × Account) → Type 0
AreAllowed state [] = Unit
AreAllowed state ((a, account) ∷ changes) =
    (account.is_touched ≡ true → IsAllowed state a account) × AreAllowed state changes

-- The list of the declared accounts, where there is one, has the address, and the map of the declared
-- slots, where there is one, lists every slot of the change for it.
abbrev pub IsDeclared : StateMap → Address → Account → Type 0
IsDeclared state a account =
    ((accounts : List Address) → state.access_accounts ≡ some accounts → contains a accounts ≡ true)
    × ((declared : Map (List U256))
        → state.access_storage ≡ some declared
        → All
            (λ (word : U256 × U256).
              (slots : List U256) × (lookup a declared ≡ some slots)
              × (contains word.0 slots ≡ true))
            account.storage)

abbrev pub AreDeclared : StateMap → List (Address × Account) → Type 0
AreDeclared state [] = Unit
AreDeclared state ((a, account) ∷ changes) =
    (account.is_touched ≡ true → IsDeclared state a account) × AreDeclared state changes

is_listed :
    (a : Address) (slot : U256) (declared : Map (List U256))
    → not (is_some_and (lookup a declared) (λ slots. contains slot slots)) ≡ false
    → (slots : List U256) × (lookup a declared ≡ some slots) × (contains slot slots ≡ true)
is_listed a slot declared h = elim (Option-cases (lookup a declared)) [
  | inl absent ↦ absurd (ground (arith, h, absent))
  | inr (slots, found) ↦ (slots, found, ground (arith, h, found))
]

are_listed :
    (state : StateMap) (a : Address) (declared : Map (List U256))
    → state.access_storage ≡ some declared
    → (words : List (U256 × U256))
    → All (λ (word : U256 × U256). outside_envelope state a word.0 ≡ false) words
    → All
        (λ (word : U256 × U256).
          (slots : List U256) × (lookup a declared ≡ some slots) × (contains word.0 slots ≡ true))
        words
are_listed state a declared e [] h = tt
are_listed state a declared e (word ∷ words) h = (
  is_listed a word.0 declared (
      subst
        (λ (m : Option (Map (List U256))).
          is_some_and m
            (λ table. not (is_some_and (lookup a table) (λ slots. contains word.0 slots)))
          ≡ false)
        e h.0),
  are_listed state a declared e words h.1,
)

IsAllowed-IsDeclared :
    (state : StateMap) (a : Address) (account : Account)
    → IsAllowed state a account
    → IsDeclared state a account
IsAllowed-IsDeclared state a account h = (
  (λ accounts e. ground (arith, h.0, e)),
  (λ declared e. are_listed state a declared e account.storage h.1),
)

AreAllowed-AreDeclared :
    (state : StateMap) (changes : List (Address × Account))
    → AreAllowed state changes
    → AreDeclared state changes
AreAllowed-AreDeclared state [] h = tt
AreAllowed-AreDeclared state ((a, account) ∷ changes) h = (
  (λ touched. IsAllowed-IsDeclared state a account (h.0 touched)),
  AreAllowed-AreDeclared state changes h.1,
)

latch-none :
    (outside : Bool) (error : StfDbError) (violation : Option StfDbError)
    → latch outside error violation ≡ none
    → (outside ≡ false) × (violation ≡ none)
latch-none false error violation h = (refl, h)
latch-none true error none h = cc
latch-none true error (some first) h = cc

latch_storage-none :
    (state : StateMap) (a : Address) (words : List (U256 × U256)) (violation : Option StfDbError)
    → latch_storage state a words violation ≡ none
    → All (λ (word : U256 × U256). outside_envelope state a word.0 ≡ false) words
      × (violation ≡ none)
unfolding latch_storage
latch_storage-none state a [] violation h = (tt, h)
latch_storage-none state a ((slot, value) ∷ words) violation h =
    let rest =
      latch_storage-none state a words
        (latch (outside_envelope state a slot) (undeclared_storage a slot) violation) h in
    let first =
      latch-none (outside_envelope state a slot) (undeclared_storage a slot) violation rest.1 in
    ((first.0, rest.0), first.1)

latch_account-none :
    (state : StateMap) (a : Address) (account : Account)
    → latch_account state a account ≡ none
    → IsAllowed state a account × (state.access_violation ≡ none)
unfolding latch_account
latch_account-none state a account h =
    let words =
      latch_storage-none state a account.storage
        (latch (is_undeclared state a) (undeclared_account a) state.access_violation) h in
    let first =
      latch-none (is_undeclared state a) (undeclared_account a) state.access_violation words.1 in
    ((first.0, words.0), first.1)

module _ ⦃keccak : Keccak⦄ where
  -- A commit leaves the envelope as it is.
  commit_account-envelope :
      (a : Address) (account : Account) (state : StateMap)
      → ((commit_account state a account).access_accounts ≡ state.access_accounts)
        × ((commit_account state a account).access_storage ≡ state.access_storage)
  unfolding commit_account drop_account keep_account
  commit_account-envelope a account state = ground arith

  commit_account-violation :
      (a : Address) (account : Account) (state : StateMap)
      → (commit_account state a account).access_violation
        ≡ (if account.is_touched then latch_account state a account else state.access_violation)
  unfolding commit_account drop_account keep_account
  commit_account-violation a account state = ground arith

  AreAllowed-envelope :
      (state next : StateMap) (changes : List (Address × Account))
      → next.access_accounts ≡ state.access_accounts
      → next.access_storage ≡ state.access_storage
      → AreAllowed next changes
      → AreAllowed state changes
  AreAllowed-envelope state next [] p q h = tt
  AreAllowed-envelope state next ((a, account) ∷ changes) p q h = (
    (λ touched.
        let declared = h.0 touched in
        (
          ap
                (λ (allowed : Option (List Address)).
                  is_some_and allowed (λ list. not (contains a list)))
                (sym p)
              ∙ declared.0,
          subst
              (λ (allowed : Option (Map (List U256))).
                All
                  (λ (word : U256 × U256).
                    is_some_and allowed
                      (λ m. not (is_some_and (lookup a m) (λ slots. contains word.0 slots)))
                    ≡ false)
                  account.storage)
              q declared.1,
        )),
    AreAllowed-envelope state next changes p q h.1,
  )

  commit-AreAllowed :
      (state : StateMap) (changes : List (Address × Account))
      → (commit state changes).access_violation ≡ none
      → (state.access_violation ≡ none) × AreAllowed state changes
  unfolding commit
  commit-AreAllowed state [] h = (h, tt)
  commit-AreAllowed state ((a, account) ∷ changes) h =
      let next = commit_account state a account in
      let rest = commit-AreAllowed next changes h in
      let kept = commit_account-envelope a account state in
      let latched : (if account.is_touched
            then latch_account state a account
            else state.access_violation)
          ≡ none =
        sym (commit_account-violation a account state) ∙ rest.0 in
      let later = AreAllowed-envelope state next changes kept.0 kept.1 rest.1 in
      elim (Bool-cases account.is_touched) [
        | inl touched ↦
            let first = latch_account-none state a account (ground (arith, latched, touched)) in
            (first.1, ((λ e. first.0), later))
        | inr untouched ↦ (
          ground (arith, latched, untouched),
          ((λ e. absurd (ground (arith, e, untouched))), later),
        )
      ]

  -- When no violation is latched after a commit, there was none before, and every account that the
  -- commit touched is inside the envelope: where accounts are declared it is among them, and where
  -- storage is declared every slot that the change holds is declared for it.
  pub commit-AreDeclared :
      (state : StateMap) (changes : List (Address × Account))
      → (commit state changes).access_violation ≡ none
      → (state.access_violation ≡ none) × AreDeclared state changes
  commit-AreDeclared state changes h =
      let allowed = commit-AreAllowed state changes h in
      (allowed.0, AreAllowed-AreDeclared state changes allowed.1)
