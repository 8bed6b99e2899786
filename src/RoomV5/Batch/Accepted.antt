-- ===== src/RoomV5/Batch/Accepted.antt =====
-- What an accepted batch establishes, from the witness state to the terminal one.
use zkdeal_prover.Prelude.{
  ℕ, ◌≡◌, not, none, List, [], is_empty, length, arith, Result, ok, err, map_err, ◌>>=◌,
  Result-cases, inl, inr,
}
use zkdeal_prover.Prelude.Map.{Map}
use zkdeal_prover.StfTypes.Scalars.{Address, B256}
use zkdeal_prover.StfTypes.Abi.{Keccak}
use zkdeal_prover.StfTypes.V5.{BatchInputV5, BatchJournalV5}
use zkdeal_prover.State.{StateMap}
use zkdeal_prover.State.Install.{
  prepare_code, PreparedCodeCacheReport, install_prepared_runtime_code,
}
use zkdeal_prover.Policy.FromV5.{from_v5}
use zkdeal_prover.TxEnv.{TxEnv}
use zkdeal_prover.Block.{Machine, state_root_in_mode}
use zkdeal_prover.StfError.{certified_policy, prepared_code_refused}
use zkdeal_prover.RoomV5.Liabilities.{apply_deposit_credits_v5, validate_liabilities_v5}
use zkdeal_prover.RoomV5.Roster.{validate_roster_transition_v5}
use zkdeal_prover.RoomV5.Import.{verify_and_apply_import_v5}
use zkdeal_prover.RoomV5.Batch.{
  Opening, pre_exit_cursor, authenticate, validate_identity, open_state, open_batch, close_batch,
  execute_batch_v5,
}
use zkdeal_prover.RoomV5.Batch.Blocks.{Progress, execute_blocks}

map_err-ok :
    {E F A : Type 0} (wrap : E → F) (result : Result E A) (value : A)
    → map_err wrap result ≡ ok value
    → result ≡ ok value
map_err-ok wrap (ok a) value h = ground (arith, h)
map_err-ok wrap (err e) value h = cc

module _ ⦃keccak : Keccak⦄ (machine : Machine) (input : BatchInputV5) where
  -- The states of an accepted batch before its first block.
  pub record IsOpened (opening : Opening) : Type 0 where
    pub callers : List Address
    pub opened : StateMap
    pub imported : StateMap
    pub credited : StateMap
    pub authenticated : List (List TxEnv) × List Address
    pub roster : validate_roster_transition_v5 input ≡ ok callers
    pub liabilities : validate_liabilities_v5 input ≡ ok tt
    pub opens : open_state machine input ≡ ok opened
    pub imports : verify_and_apply_import_v5 machine.trie input opened ≡ ok imported
    pub credits : apply_deposit_credits_v5 input imported ≡ ok credited
    pub policy :
        from_v5 input.policy input.journal.policy_hash authenticated.1 credited
          (not (is_empty input.roster_changes))
        ≡ ok opening.policy
    pub accounts : opening.state.accounts ≡ credited.accounts

  install-accounts :
      (state : StateMap) (frozen : Map B256) (result : StateMap × PreparedCodeCacheReport)
      → install_prepared_runtime_code machine.bytecodes state frozen ≡ ok result
      → result.0.accounts ≡ state.accounts
  unfolding install_prepared_runtime_code
  install-accounts state frozen result h =
      let report : PreparedCodeCacheReport = record {
        requested_contracts = length frozen;
        cached_contracts = 0;
        dynamic_interpreter_contracts = 0;
        fallback_contracts = 0;
      } in
      elim (Result-cases (prepare_code machine.bytecodes state frozen [] report)) [
        | inr (refusal, failed) ↦ absurd (ground arith)
        | inl (prepared, done) ↦ ground (arith, done)
      ]

  -- The last steps before the first block.
  policy_step :
      (opening : Opening) (imported credited : StateMap) (callers : List Address) (cursor : ℕ)
      → (do
        authenticated ← authenticate machine input callers
        policy ← map_err certified_policy (
            from_v5 input.policy input.journal.policy_hash authenticated.1 credited
              (not (is_empty input.roster_changes)))
        prepared ←
            map_err prepared_code_refused
              (install_prepared_runtime_code machine.bytecodes credited policy.code_hashes)
        ok (record {
          state = prepared.0;
          policy = policy;
          decoded = authenticated.0;
          pre_exit_count = cursor;
        }))
        ≡ ok opening
      → (authenticated : List (List TxEnv) × List Address) × (from_v5 input.policy
            input.journal.policy_hash authenticated.1 credited
            (not (is_empty input.roster_changes))
          ≡ ok opening.policy)
        × (opening.state.accounts ≡ credited.accounts)
  policy_step opening imported credited callers cursor h =
      elim (Result-cases (authenticate machine input callers)) [
        | inr (refusal, failed) ↦ absurd (ground arith)
        | inl (authenticated, signed) ↦
            elim (Result-cases (
              from_v5 input.policy input.journal.policy_hash authenticated.1 credited
                (not (is_empty input.roster_changes)))) [
                  | inr (refusal, failed) ↦ absurd (ground arith)
                  | inl (policy, certified) ↦
                      elim (Result-cases (
                        install_prepared_runtime_code machine.bytecodes credited
                          policy.code_hashes)) [
                            | inr (refusal, failed) ↦ absurd (ground arith)
                            | inl (prepared, installed) ↦
                                let kept =
                                  install-accounts credited policy.code_hashes prepared installed in
                                (authenticated, ground (arith, certified), ground (arith, kept))
                          ]
                ]
      ]

  pub open_batch-IsOpened :
      (opening : Opening) → open_batch machine input ≡ ok opening → IsOpened opening
  unfolding open_batch
  open_batch-IsOpened opening h = elim (Result-cases (validate_roster_transition_v5 input)) [
    | inr (refusal, failed) ↦ absurd (ground arith)
    | inl (callers, roster) ↦ elim (Result-cases (open_state machine input)) [
      | inr (refusal, failed) ↦ absurd (ground arith)
      | inl (opened, opens) ↦
          elim (Result-cases (verify_and_apply_import_v5 machine.trie input opened)) [
            | inr (refusal, failed) ↦ absurd (ground arith)
            | inl (imported, imports) ↦
                elim (Result-cases (pre_exit_cursor input.journal input.policy.exit imported)) [
                  | inr (refusal, failed) ↦ absurd (ground arith)
                  | inl (cursor, counted) ↦
                      elim (Result-cases (apply_deposit_credits_v5 input imported)) [
                        | inr (refusal, failed) ↦ absurd (ground arith)
                        | inl (credited, credits) ↦
                            let (authenticated, policy, accounts) =
                              policy_step opening imported credited callers cursor (ground arith) in
                            record {
                              callers = callers;
                              opened = opened;
                              imported = imported;
                              credited = credited;
                              authenticated = authenticated;
                              roster = roster;
                              liabilities = ground arith;
                              opens = opens;
                              imports = imports;
                              credits = credits;
                              policy = policy;
                              accounts = accounts;
                            }
                      ]
                ]
          ]
    ]
  ]

  -- How an accepted batch runs: its opening, and where its blocks end.
  pub record IsRun (opening : Opening) (terminal : Progress) : Type 0 where
    pub identity : validate_identity input ≡ ok tt
    pub begins : open_batch machine input ≡ ok opening
    pub root : B256
    pub rooted : state_root_in_mode machine opening.state input.policy.state_commitment ≡ ok root
    pub runs :
        execute_blocks machine input opening.policy 0 input.blocks opening.decoded
          (record { state = opening.state; root = root; previous_timestamp = none; executed = [] })
        ≡ ok terminal
    pub closes : close_batch machine input opening terminal ≡ ok tt

  pub execute_batch_v5-IsRun :
      (journal : BatchJournalV5)
      → execute_batch_v5 machine input ≡ ok journal
      → (opening : Opening) × (terminal : Progress) × IsRun opening terminal
  unfolding execute_batch_v5
  execute_batch_v5-IsRun journal h = elim (Result-cases (open_batch machine input)) [
    | inr (refusal, failed) ↦ absurd (ground arith)
    | inl (opening, begins) ↦
        elim (Result-cases
          (state_root_in_mode machine opening.state input.policy.state_commitment)) [
            | inr (refusal, failed) ↦ absurd (ground arith)
            | inl (root, rooted) ↦
                elim (Result-cases (
                  execute_blocks machine input opening.policy 0 input.blocks opening.decoded
                    (record {
                      state = opening.state;
                      root = root;
                      previous_timestamp = none;
                      executed = [];
                    }))) [
                      | inr (refusal, failed) ↦ absurd (ground arith)
                      | inl (terminal, runs) ↦ (
                        opening,
                        terminal,
                        record {
                          identity = ground arith;
                          begins = begins;
                          root = root;
                          rooted = rooted;
                          runs = runs;
                          closes = ground arith;
                        },
                      )
                    ]
          ]
  ]
