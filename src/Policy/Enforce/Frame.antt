-- ===== src/Policy/Enforce/Frame.antt =====
-- What an accepted terminal state keeps: the pinned code, and all storage outside writable namespaces.
use mathlib.Core.Path.{subst}
use native.Mathlib.Decide.{ℕ_discrete}
use zkdeal_prover.Prelude.{
  ℕ, ◌≡◌, ◌≢◌, refl, sym, ap, ◌∙◌, true, false, ◌||◌, none, some, List, [], ◌∷◌, ◌++◌, ◌==◌, arith,
  contains, set_insert, collect_set, ok, Option-cases, Bool-cases, inl, inr,
}
use zkdeal_prover.Prelude.Map.{Map, lookup, amount_at}
use zkdeal_prover.StfTypes.Scalars.{Address, B256, U256}
use zkdeal_prover.StfTypes.Abi.{Keccak}
use zkdeal_prover.State.{StateMap, AccountRecord, code_hash}
use zkdeal_prover.Policy.{StorageNamespace, ExecutionPolicyV4, is_writable}
use zkdeal_prover.Policy.Enforce.{
  keys, storage_of, storage_at, validate_slots, validate_storage, validate_pinned,
  validate_post_state,
}

contains-set_insert :
    (k x : ℕ) (xs : List ℕ) → contains k (set_insert x xs) ≡ ((x == k) || contains k xs)
unfolding set_insert
contains-set_insert k x [] = refl
contains-set_insert k x (y ∷ xs) = ground (arith, contains-set_insert k x xs)

pub contains-collect_set : (k : ℕ) (xs : List ℕ) → contains k (collect_set xs) ≡ contains k xs
unfolding collect_set
contains-collect_set k [] = refl
contains-collect_set k (x ∷ xs) =
    ground (arith, contains-set_insert k x (collect_set xs), contains-collect_set k xs)

contains-append :
    (k : ℕ) (xs ys : List ℕ) → contains k (xs ++ ys) ≡ (contains k xs || contains k ys)
contains-append k [] ys = refl
contains-append k (x ∷ xs) ys = ground (arith, contains-append k xs ys)

-- A key that is not among the keys of a map is absent.
pub lookup-keys {ℓ} :
    {V : Type ℓ} (k : ℕ) (m : Map V) → contains k (keys m) ≡ false → lookup k m ≡ none
unfolding lookup
lookup-keys k [] h = refl
lookup-keys k ((j, v) ∷ m) h = ground (arith, lookup-keys k m)

validate_slots-writable :
    (namespaces : List StorageNamespace) (address : Address) (before after : Map U256)
    (slots : List U256)
    → validate_slots namespaces address before after slots ≡ ok tt
    → (s : U256) → contains s slots ≡ true
    → amount_at s before ≢ amount_at s after
    → is_writable namespaces address s ≡ true
unfolding validate_slots
validate_slots-writable namespaces address before after [] h s c ne = cc
validate_slots-writable namespaces address before after (slot ∷ slots) h s c ne =
    elim (ℕ_discrete slot s) [
      | yes same ↦
          let ne' : amount_at slot before ≢ amount_at slot after =
            subst (λ (x : ℕ). amount_at x before ≢ amount_at x after) (sym same) ne in
          let first : is_writable namespaces address slot ≡ true = ground (arith, ne') in
          subst (λ (x : ℕ). is_writable namespaces address x ≡ true) same first
      | no other ↦
          validate_slots-writable namespaces address before after slots (ground arith) s
            (ground arith) ne
    ]

-- A slot whose word changes is among the keys before or after.
changed_slot :
    (before after : Map U256) (s : U256)
    → amount_at s before ≢ amount_at s after
    → contains s (collect_set (keys before ++ keys after)) ≡ true
changed_slot before after s ne = elim (Bool-cases (contains s (keys before ++ keys after))) [
  | inl there ↦ contains-collect_set s (keys before ++ keys after) ∙ there
  | inr absent ↦
      let parts = contains-append s (keys before) (keys after) in
      let none_before : lookup s before ≡ none = lookup-keys s before (ground (arith, parts)) in
      let none_after : lookup s after ≡ none = lookup-keys s after (ground (arith, parts)) in
      absurd (ground (arith, none_before, none_after, ne))
]

validate_storage-writable :
    (namespaces : List StorageNamespace) (pre_storage : Map (Map U256)) (post : StateMap)
    (addresses : List Address)
    → validate_storage namespaces pre_storage post addresses ≡ ok tt
    → (a : Address) → contains a addresses ≡ true
    → (s : U256)
    → amount_at s (storage_at (lookup a pre_storage))
      ≢ amount_at s (storage_of (lookup a post.accounts))
    → is_writable namespaces a s ≡ true
unfolding validate_storage
validate_storage-writable namespaces pre_storage post [] h a c s ne = cc
validate_storage-writable namespaces pre_storage post (address ∷ addresses) h a c s ne =
    elim (ℕ_discrete address a) [
      | yes same ↦
          let changed =
            subst
              (λ (x : ℕ).
                amount_at s (storage_at (lookup x pre_storage))
                ≢ amount_at s (storage_of (lookup x post.accounts)))
              (sym same) ne in
          let before = storage_at (lookup address pre_storage) in
          let after = storage_of (lookup address post.accounts) in
          subst (λ (x : ℕ). is_writable namespaces x s ≡ true) same
            (validate_slots-writable namespaces address before after
              (collect_set (keys before ++ keys after)) (ground arith) s
              (changed_slot before after s changed) changed)
      | no other ↦
          validate_storage-writable namespaces pre_storage post addresses (ground arith) a
            (ground arith) s ne
    ]

-- An address whose storage changes is among the ones before or after.
changed_address :
    (pre_storage : Map (Map U256)) (post : StateMap) (a : Address) (s : U256)
    → amount_at s (storage_at (lookup a pre_storage))
      ≢ amount_at s (storage_of (lookup a post.accounts))
    → contains a (collect_set (keys pre_storage ++ keys post.accounts)) ≡ true
changed_address pre_storage post a s ne =
    elim (Bool-cases (contains a (keys pre_storage ++ keys post.accounts))) [
      | inl there ↦ contains-collect_set a (keys pre_storage ++ keys post.accounts) ∙ there
      | inr absent ↦
          let parts = contains-append a (keys pre_storage) (keys post.accounts) in
          let none_before : lookup a pre_storage ≡ none =
            lookup-keys a pre_storage (ground (arith, parts)) in
          let none_after : lookup a post.accounts ≡ none =
            lookup-keys a post.accounts (ground (arith, parts)) in
          absurd (ground (arith, none_before, none_after, ne))
    ]

module _ ⦃keccak : Keccak⦄ where
  -- The account has the code that is pinned for it.
  abbrev pub IsPinned : StateMap → Address → B256 → Type 0
  IsPinned state address hash =
      (account : AccountRecord) × (lookup address state.accounts ≡ some account)
      × (code_hash account ≡ hash)

  pub validate_pinned-IsPinned :
      (code_hashes : Map B256) (post : StateMap)
      → validate_pinned code_hashes post ≡ ok tt
      → (a : Address) (hash : B256) → lookup a code_hashes ≡ some hash
      → IsPinned post a hash
  unfolding validate_pinned lookup
  validate_pinned-IsPinned [] post h a hash e = cc
  validate_pinned-IsPinned ((address, expected) ∷ code_hashes) post h a hash e =
      elim (Option-cases (lookup address post.accounts)) [
        | inl absent ↦ absurd (ground arith)
        | inr (account, found) ↦ elim (ℕ_discrete address a) [
          | yes same ↦
              (account, ap (λ (x : ℕ). lookup x post.accounts) (sym same) ∙ found, ground arith)
          | no other ↦
              validate_pinned-IsPinned code_hashes post (ground arith) a hash (ground arith)
        ]
      ]

  module _ (policy : ExecutionPolicyV4) (pre_storage : Map (Map U256)) (post : StateMap)
      (certified : policy.certified ≡ true)
      (valid : validate_post_state policy pre_storage post ≡ ok tt) where
    -- The terminal state that a certified policy accepts still has the pinned code at every pinned
    -- address, and a storage word that differs from the one before lies in a writable namespace of
    -- its contract.
    pub validate_post_state-frames :
        ((a : Address) (hash : B256)
          → lookup a policy.code_hashes ≡ some hash
          → IsPinned post a hash)
        × ((a : Address) (s : U256)
            → amount_at s (storage_at (lookup a pre_storage))
              ≢ amount_at s (storage_of (lookup a post.accounts))
            → is_writable policy.storage_namespaces a s ≡ true)
    unfolding validate_post_state
    validate_post_state-frames = (
      validate_pinned-IsPinned policy.code_hashes post (ground arith),
      (λ a s ne.
          validate_storage-writable policy.storage_namespaces pre_storage post
            (collect_set (keys pre_storage ++ keys post.accounts)) (ground arith) a
            (changed_address pre_storage post a s ne) s ne),
    )
