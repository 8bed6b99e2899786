-- ===== src/State/Prepared.antt =====
-- The cache of prepared code is transparent: a read is served as if there were none.
use mathlib.Core.Path.{subst}
use native.Mathlib.Decide.{ℕ_discrete}
use zkdeal_prover.Prelude.{
  ◌+◌, ◌≡◌, refl, sym, ap, ◌∙◌, true, not, ◌||◌, some, List, [], ◌∷◌, if◌then◌else◌, arith,
  is_empty, is_empty-eq-nil, length, ok, Bool-cases, Option-cases, Result-cases, inl, inr,
}
use zkdeal_prover.Prelude.Map.{Map, lookup, insert, lookup-insert}
use zkdeal_prover.StfTypes.Scalars.{Address, B256, Bytes}
use zkdeal_prover.StfTypes.Abi.{Keccak}
use zkdeal_prover.State.{AccountRecord, StateMap, same_bytes, code_hash}
use zkdeal_prover.State.Install.{
  Bytecodes, PreparedCodeCacheReport, has_dynamic_interpreter_control_flow, prepare_code,
  install_prepared_runtime_code, clear_prepared_runtime_code,
}
use zkdeal_prover.State.Read.{
  prepared_under, validated_prepared_code, served_hash, served_code, info_of, basic,
}
use zkdeal_prover.State.Commit.{Account, drop_account, keep_account, commit_account, commit}

same_bytes_sound : (one other : Bytes) → same_bytes one other ≡ true → one ≡ other
unfolding same_bytes
same_bytes_sound [] [] h = refl
same_bytes_sound [] (b ∷ bs) h = cc
same_bytes_sound (a ∷ as') [] h = cc
same_bytes_sound (a ∷ as') (b ∷ bs) h = ground (arith, same_bytes_sound as' bs)

module _ ⦃keccak : Keccak⦄ where
  -- Every entry of the cache has the hash that it is filed under.
  abbrev pub IsFaithful : Map Bytes → Type 0
  IsFaithful cache =
      (hash : B256) (bytes : Bytes) → lookup hash cache ≡ some bytes → keccak.keccak256 bytes ≡ hash

  code_hash_lem : (account : AccountRecord) → code_hash account ≡ keccak.keccak256 account.code
  unfolding code_hash
  code_hash_lem account = elim (Bool-cases (is_empty account.code)) [
    | inr kept ↦ rw kept refl
    | inl empty ↦
        rw empty (
          ap (λ (bytes : Bytes). keccak.keccak256 bytes) (sym (is_empty-eq-nil account.code empty)))
  ]

  insert-IsFaithful :
      (code : Bytes) (hash : B256) (cache : Map Bytes)
      → keccak.keccak256 code ≡ hash
      → IsFaithful cache
      → IsFaithful (insert hash code cache)
  insert-IsFaithful code hash cache e h k bytes found =
      let read = sym (lookup-insert k hash code cache) ∙ found in
      elim (ℕ_discrete hash k) [
        | yes same ↦
            let first : code ≡ bytes = ground (arith, read, same) in
            ap (λ (b : Bytes). keccak.keccak256 b) (sym first) ∙ e ∙ same
        | no other ↦ h k bytes (ground (arith, read, other))
      ]

  module _ (bytecodes : Bytecodes) where
    prepare_code-IsFaithful :
        (state : StateMap) (frozen : Map B256) (cache : Map Bytes)
        (report : PreparedCodeCacheReport) (result : Map Bytes × PreparedCodeCacheReport)
        → prepare_code bytecodes state frozen cache report ≡ ok result
        → IsFaithful cache
        → IsFaithful result.0
    unfolding prepare_code
    prepare_code-IsFaithful state [] cache report result h f =
        let same : cache ≡ result.0 = ground arith in subst IsFaithful same f
    prepare_code-IsFaithful state ((address, expected) ∷ frozen) cache report result h f =
        elim (Option-cases (lookup address state.accounts)) [
          | inl absent ↦ absurd (ground arith)
          | inr (account, found) ↦
              elim (Bool-cases (
                is_empty account.code
                || not (bytecodes.is_accepted account.code)
                || not (bytecodes.is_legacy account.code))) [
                  | inl fallback ↦
                      prepare_code-IsFaithful state frozen cache
                        (record report { fallback_contracts = report.fallback_contracts + 1 })
                        result (ground (arith, found)) f
                  | inr cached ↦
                      prepare_code-IsFaithful state frozen
                        (insert (code_hash account) account.code cache)
                        (record report {
                          cached_contracts = report.cached_contracts + 1;
                          dynamic_interpreter_contracts =
                              report.dynamic_interpreter_contracts
                              + (if has_dynamic_interpreter_control_flow account.code
                                  then 1
                                  else 0);
                        })
                        result (ground (arith, found))
                        (insert-IsFaithful account.code (code_hash account) cache
                          (sym (code_hash_lem account)) f)
                ]
        ]

  -- A cached code that is validated is the account's own, under its own hash.
  prepared_under-served :
      (state : StateMap) (account : AccountRecord) (hash : B256)
      → IsFaithful state.prepared_code
      → (served_hash (prepared_under state account hash) account ≡ code_hash account)
        × (served_code (prepared_under state account hash) account ≡ account.code)
  unfolding prepared_under served_hash served_code
  prepared_under-served state account hash f =
      elim (Option-cases (lookup hash state.prepared_code)) [
        | inl absent ↦ ground (arith, absent)
        | inr (bytecode, found) ↦ elim (Bool-cases (same_bytes bytecode account.code)) [
          | inr other ↦ ground (arith, found, other)
          | inl same ↦
              let eq = same_bytes_sound bytecode account.code same in
              let hashes : hash ≡ code_hash account =
                sym (f hash bytecode found)
                ∙ ap (λ (bytes : Bytes). keccak.keccak256 bytes) eq
                ∙ sym (code_hash_lem account) in
              ground (arith, found, same, eq, hashes)
        ]
      ]

  info_of-served :
      (state : StateMap) (a : Address) (account : AccountRecord)
      → IsFaithful state.prepared_code
      → info_of state a account ≡ info_of (clear_prepared_runtime_code state) a account
  unfolding info_of validated_prepared_code clear_prepared_runtime_code served_hash served_code
      lookup
  info_of-served state a account f = elim (Option-cases (lookup a state.prepared_code_addresses)) [
    | inl absent ↦ ground (arith, absent)
    | inr (hash, found) ↦
        let served = prepared_under-served state account hash f in
        ground (arith, found, served.0, served.1)
  ]

  basic-served :
      (state : StateMap) (a : Address)
      → IsFaithful state.prepared_code
      → basic state a ≡ basic (clear_prepared_runtime_code state) a
  unfolding basic clear_prepared_runtime_code
  basic-served state a f = elim (Option-cases (lookup a state.accounts)) [
    | inl absent ↦ rw absent refl
    | inr (account, found) ↦ rw found (ground (arith, info_of-served state a account f))
  ]

  commit-prepared_code :
      (state : StateMap) (changes : List (Address × Account))
      → (commit state changes).prepared_code ≡ state.prepared_code
  unfolding commit commit_account drop_account keep_account
  commit-prepared_code state [] = refl
  commit-prepared_code state ((a, account) ∷ changes) =
      commit-prepared_code (commit_account state a account) changes ∙ ground arith

  -- Once prepared code is installed, the EVM reads every account as it would without the cache, after
  -- any commits: the code that is served is the account's own, and the hash is that of its code.
  pub install-basic :
      (bytecodes : Bytecodes) (state : StateMap) (frozen : Map B256)
      (result : StateMap × PreparedCodeCacheReport)
      → install_prepared_runtime_code bytecodes state frozen ≡ ok result
      → (changes : List (Address × Account)) (a : Address)
      → basic (commit result.0 changes) a
        ≡ basic (clear_prepared_runtime_code (commit result.0 changes)) a
  unfolding install_prepared_runtime_code lookup
  install-basic bytecodes state frozen result h changes a =
      let report : PreparedCodeCacheReport = record {
        requested_contracts = length frozen;
        cached_contracts = 0;
        dynamic_interpreter_contracts = 0;
        fallback_contracts = 0;
      } in
      elim (Result-cases (prepare_code bytecodes state frozen [] report)) [
        | inr (refusal, failed) ↦ absurd (ground arith)
        | inl (prepared, done) ↦
            let faithful =
              prepare_code-IsFaithful bytecodes state frozen [] report prepared done
                (λ hash bytes e. cc) in
            let cached : prepared.0 ≡ result.0.prepared_code = ground (arith, done) in
            basic-served (commit result.0 changes) a
              (subst IsFaithful (cached ∙ sym (commit-prepared_code result.0 changes)) faithful)
      ]
