-- ===== src/Policy/FromV5/Certified.antt =====
-- What the resolved policy of a room certifies of the state that it is resolved against.
use mathlib.Core.Path.{subst}
use native.Mathlib.Decide.{ℕ_discrete}
use zkdeal_prover.Prelude.{
  ℕ, ◌≡◌, refl, sym, ap, ◌∙◌, Bool, true, false, Option, none, some, List, [], ◌∷◌, arith, contains,
  All, is_empty, ok, Result-cases, Option-cases, inl, inr,
}
use zkdeal_prover.Prelude.Map.{Map, lookup, insert}
use zkdeal_prover.StfTypes.Scalars.{Address, B256, U256}
use zkdeal_prover.StfTypes.Abi.{Keccak}
use zkdeal_prover.StfTypes.V5.{CodeCommitmentV5, CertifiedImportBindingV5, ExecutionPolicyV5}
use zkdeal_prover.StfTypes.V5.PolicyHash.{execution_policy_hash_v5}
use zkdeal_prover.State.{StateMap, AccountRecord, code_hash}
use zkdeal_prover.Policy.{StorageNamespace, ExecutionPolicyV4, is_covered, is_writable}
use zkdeal_prover.Policy.Enforce.{keys, validate_pinned}
use zkdeal_prover.Policy.Enforce.Frame.{IsPinned, validate_pinned-IsPinned}
use zkdeal_prover.Policy.FromV5.{
  pin_code, reject_uncommitted, resolve_calls, resolve_namespaces, validate_covered_slots,
  validate_covered, validate_imports, from_v5,
}

-- Code without a commitment is refused, account by account.
reject_uncommitted-is_pinned :
    (code_hashes : Map B256) (accounts : Map AccountRecord)
    → reject_uncommitted code_hashes accounts ≡ ok tt
    → (a : Address) (account : AccountRecord) → lookup a accounts ≡ some account
    → is_empty account.code ≡ false
    → (hash : B256) × (lookup a code_hashes ≡ some hash)
unfolding reject_uncommitted lookup
reject_uncommitted-is_pinned code_hashes [] h a account e code = cc
reject_uncommitted-is_pinned code_hashes ((address, record') ∷ accounts) h a account e code =
    elim (ℕ_discrete address a) [
      | yes same ↦ elim (Option-cases (lookup a code_hashes)) [
        | inl absent ↦
            let absent' : lookup address code_hashes ≡ none =
              ap (λ (x : ℕ). lookup x code_hashes) same ∙ absent in
            let same_record : record' ≡ account = ground arith in
            absurd
              (ground (arith, absent', ap (λ (r : AccountRecord). is_empty r.code) same_record))
        | inr found ↦ found
      ]
      | no other ↦
          reject_uncommitted-is_pinned code_hashes accounts (ground arith) a account (ground arith)
            code
    ]

-- Every stored slot stands in a namespace.
validate_covered_slots-is_covered :
    (namespaces : List StorageNamespace) (address : Address) (slots : List U256)
    → validate_covered_slots namespaces address slots ≡ ok tt
    → (s : U256) → contains s slots ≡ true
    → is_covered namespaces address s ≡ true
unfolding validate_covered_slots
validate_covered_slots-is_covered namespaces address [] h s c = cc
validate_covered_slots-is_covered namespaces address (slot ∷ slots) h s c =
    elim (ℕ_discrete slot s) [
      | yes same ↦
          let first : is_covered namespaces address slot ≡ true = ground arith in
          subst (λ (x : ℕ). is_covered namespaces address x ≡ true) same first
      | no other ↦
          validate_covered_slots-is_covered namespaces address slots (ground arith) s (ground arith)
    ]

validate_covered-is_covered :
    (namespaces : List StorageNamespace) (accounts : Map AccountRecord)
    → validate_covered namespaces accounts ≡ ok tt
    → (a : Address) (account : AccountRecord) → lookup a accounts ≡ some account
    → (s : U256) → contains s (keys account.storage) ≡ true
    → is_covered namespaces a s ≡ true
unfolding validate_covered lookup
validate_covered-is_covered namespaces [] h a account e s c = cc
validate_covered-is_covered namespaces ((address, record') ∷ accounts) h a account e s c =
    elim (ℕ_discrete address a) [
      | yes same ↦
          let same_record : record' ≡ account = ground arith in
          let there : contains s (keys record'.storage) ≡ true =
            subst (λ (r : AccountRecord). contains s (keys r.storage) ≡ true) (sym same_record) c in
          subst (λ (x : ℕ). is_covered namespaces x s ≡ true) same
            (validate_covered_slots-is_covered namespaces address (keys record'.storage)
              (ground arith) s there)
      | no other ↦
          validate_covered-is_covered namespaces accounts (ground arith) a account (ground arith) s
            c
    ]

validate_imports-All :
    (namespaces : List StorageNamespace) (imports : List CertifiedImportBindingV5)
    → validate_imports namespaces imports ≡ ok tt
    → All
        (λ (binding : CertifiedImportBindingV5).
          is_writable namespaces binding.room_contract binding.room_slot ≡ true)
        imports
unfolding validate_imports
validate_imports-All namespaces [] h = tt
validate_imports-All namespaces (binding ∷ imports) h =
    (ground arith, validate_imports-All namespaces imports (ground arith))

module _ ⦃keccak : Keccak⦄ where
  validate_pinned-insert :
      (code_hashes : Map B256) (state : StateMap) (a : Address) (account : AccountRecord)
      → validate_pinned code_hashes state ≡ ok tt
      → lookup a state.accounts ≡ some account
      → validate_pinned (insert a (code_hash account) code_hashes) state ≡ ok tt
  unfolding validate_pinned insert
  validate_pinned-insert [] state a account h e = ground (arith, e)
  validate_pinned-insert ((address, hash) ∷ code_hashes) state a account h e =
      elim (Option-cases (lookup address state.accounts)) [
        | inl absent ↦ absurd (ground arith)
        | inr (other, found) ↦
            ground (arith, validate_pinned-insert code_hashes state a account, e, found)
      ]

  -- The hashes that the loop collects are those of the code in the state.
  pin_code-validate_pinned :
      (state : StateMap) (codes : List CodeCommitmentV5) (previous : Option Address)
      (code_hashes pinned : Map B256)
      → pin_code state codes previous code_hashes ≡ ok pinned
      → validate_pinned code_hashes state ≡ ok tt
      → validate_pinned pinned state ≡ ok tt
  unfolding pin_code
  pin_code-validate_pinned state [] previous code_hashes pinned h v = ground arith
  pin_code-validate_pinned state (code ∷ codes) previous code_hashes pinned h v =
      elim (Option-cases (lookup code.address state.accounts)) [
        | inl absent ↦ absurd (ground arith)
        | inr (account, found) ↦
            let same : code_hash account ≡ code.runtime_code_hash = ground arith in
            pin_code-validate_pinned state codes (some code.address)
              (insert code.address code.runtime_code_hash code_hashes) pinned (ground arith)
              (subst (λ (x : ℕ). validate_pinned (insert code.address x code_hashes) state ≡ ok tt)
                same (validate_pinned-insert code_hashes state code.address account v found))
      ]

  module _ (policy : ExecutionPolicyV5) (expected_hash : B256) (active_members : List Address)
      (state : StateMap) (membership_changed : Bool) (resolved : ExecutionPolicyV4)
      (accepted : from_v5 policy expected_hash active_members state membership_changed
        ≡ ok resolved) where
    -- What the checks of `from_v5` establish one by one.
    abbrev pub Checks : Type 0
    Checks =
        (execution_policy_hash_v5 policy ≡ expected_hash)
        × (resolved.certified ≡ true)
        × (resolved.active_members ≡ active_members)
        × (pin_code state policy.code none [] ≡ ok resolved.code_hashes)
        × (reject_uncommitted resolved.code_hashes state.accounts ≡ ok tt)
        × (resolve_calls resolved.code_hashes policy.calls [] ≡ ok resolved.call_rules)
        × (validate_covered resolved.storage_namespaces state.accounts ≡ ok tt)
        × (validate_imports resolved.storage_namespaces policy.imports ≡ ok tt)
        × (resolved.membership_state_guards ≡ [])
        × (resolved.active_member_argument_rules ≡ [])
        × (resolved.allow_contract_creation ≡ false)
        × (resolved.allow_self_destruct ≡ false)

    pub from_v5-Checks : Checks
    unfolding from_v5
    from_v5-Checks = elim (Result-cases (pin_code state policy.code none [])) [
      | inr (refusal, failed) ↦ absurd (ground (arith, accepted))
      | inl (code_hashes, pinned) ↦
          elim (Result-cases (resolve_calls code_hashes policy.calls [])) [
            | inr (refusal, failed) ↦ absurd (ground (arith, accepted))
            | inl (call_rules, called) ↦
                elim (Result-cases (resolve_namespaces code_hashes policy.storage [])) [
                  | inr (refusal, failed) ↦ absurd (ground (arith, accepted))
                  | inl (namespaces, named) ↦ elim (Option-cases policy.participant_registry) [
                    | inl absent ↦ absurd (ground (arith, accepted))
                    | inr (participant, present) ↦ ground arith
                  ]
                ]
          ]
    ]

    pub from_v5-validate_pinned : validate_pinned resolved.code_hashes state ≡ ok tt
    unfolding validate_pinned
    from_v5-validate_pinned =
        pin_code-validate_pinned state policy.code none [] resolved.code_hashes from_v5-Checks.3
          refl

    pinned_code :
        (a : Address) (account : AccountRecord)
        → lookup a state.accounts ≡ some account
        → is_empty account.code ≡ false
        → lookup a resolved.code_hashes ≡ some (code_hash account)
    pinned_code a account found code =
        let c = from_v5-Checks in
        let pinned =
          reject_uncommitted-is_pinned resolved.code_hashes state.accounts c.4 a account found
            code in
        let there : IsPinned state a pinned.0 =
          validate_pinned-IsPinned resolved.code_hashes state from_v5-validate_pinned a pinned.0
            pinned.1 in
        ground (arith, found, pinned.1, there.1, there.2)

    -- A policy that is resolved against a state has the hash that the journal names, and certifies all
    -- of that state: every account with code is pinned at the hash of its code, every stored slot lies
    -- in a namespace of its contract, and every import mirrors into a writable one. It allows no
    -- creation and no destruction of contracts.
    pub from_v5-certifies :
        (execution_policy_hash_v5 policy ≡ expected_hash)
        × ((a : Address) (account : AccountRecord)
            → lookup a state.accounts ≡ some account
            → is_empty account.code ≡ false
            → lookup a resolved.code_hashes ≡ some (code_hash account))
        × ((a : Address) (account : AccountRecord)
            → lookup a state.accounts ≡ some account
            → (s : U256) → contains s (keys account.storage) ≡ true
            → is_covered resolved.storage_namespaces a s ≡ true)
        × All
            (λ (binding : CertifiedImportBindingV5).
              is_writable resolved.storage_namespaces binding.room_contract binding.room_slot
              ≡ true)
            policy.imports
        × (resolved.allow_contract_creation ≡ false)
        × (resolved.allow_self_destruct ≡ false)
    from_v5-certifies =
        let c = from_v5-Checks in
        (
          c.0,
          pinned_code,
          validate_covered-is_covered resolved.storage_namespaces state.accounts c.6,
          validate_imports-All resolved.storage_namespaces policy.imports c.7,
          c.10,
          c.11,
        )
