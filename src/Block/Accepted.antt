-- ===== src/Block/Accepted.antt =====
-- An accepted block, from its state to the state it ends in.
use mathlib.Core.Path.{subst}
use zkdeal_prover.Prelude.{
  ℕ, ◌≡◌, ◌≤◌, sym, ap, ◌∙◌, Bool, true, Option, none, List, [], arith, ok, Result-cases, inl, inr,
}
use zkdeal_prover.StfTypes.Scalars.{Bytes}
use zkdeal_prover.StfTypes.Abi.{Keccak}
use zkdeal_prover.StfTypes.Block.{BlockEnvV1, StfInput}
use zkdeal_prover.State.{StateMap}
use zkdeal_prover.State.Canonical.{IsCanonical, commit-IsCanonical}
use zkdeal_prover.State.Install.{install_block_hashes, collect_history}
use zkdeal_prover.TxEnv.{TxEnv}
use zkdeal_prover.Policy.{ExecutionPolicyV4}
use zkdeal_prover.RoomV5.Executed.{TransactionOutcome}
use zkdeal_prover.Block.{
  Machine, Running, BlockOutcome, execute_transactions, state_root_in_mode, check_root,
  inspector_policy, install_input_block_hashes, execute_block_on_state,
}
use zkdeal_prover.Block.Executed.{
  AreTransactions, Steps, finished, step, Executed, Steps-Executed, execute_transactions-Steps,
  execute_transaction-step,
}

module _ ⦃keccak : Keccak⦄ (machine : Machine) where
  -- What holds of a run all along: the state stays canonical, the gas within the limit.
  module _ (policy : ExecutionPolicyV4) (env : BlockEnvV1) where
    Steps-IsCanonical :
        (raw_txs : List Bytes) (txs : List TxEnv) (before after : Running)
        → Steps machine policy env raw_txs txs before after
        → IsCanonical before.state
        → IsCanonical after.state
    Steps-IsCanonical _ _ _ _ (finished before) c = c
    Steps-IsCanonical _ _ _ _ (step raw raw_txs tx txs before next after ran rest) c =
        let one = execute_transaction-step machine policy env raw tx before next ran in
        Steps-IsCanonical raw_txs txs next after rest
          (subst IsCanonical (sym one.3) (commit-IsCanonical before.state one.0.changes c))

    Steps-gas :
        (raw_txs : List Bytes) (txs : List TxEnv) (before after : Running)
        → Steps machine policy env raw_txs txs before after
        → before.gas_used ≤ env.gas_limit
        → after.gas_used ≤ env.gas_limit
    Steps-gas _ _ _ _ (finished before) g = g
    Steps-gas _ _ _ _ (step raw raw_txs tx txs before next after ran rest) g =
        Steps-gas raw_txs txs next after rest
          (execute_transaction-step machine policy env raw tx before next ran).7

  module _ (input : StfInput) (state : StateMap) (policy : Option ExecutionPolicyV4) (verify : Bool)
      (mode : ℕ) (decoded : Option (List TxEnv)) (outcome : BlockOutcome)
      (accepted : execute_block_on_state machine input state policy verify mode decoded
        ≡ ok outcome) where
    abbrev pub Installed : StateMap → Type 0
    Installed installed =
        (install_input_block_hashes state input ≡ ok installed)
        × (check_root machine verify input.prev_state_root installed mode ≡ ok tt)

    -- The steps of an accepted block.
    pub execute_block_on_state-Steps :
        (installed : StateMap) × Installed installed
        × ((done : Running) × (txs : List TxEnv) × AreTransactions machine
              (inspector_policy policy)
              input.env
              decoded
              input.raw_txs
              txs
            × Steps machine
                (inspector_policy policy)
                input.env
                input.raw_txs
                txs
                (record { state = installed; gas_used = 0; transactions = [] })
                done
            × (outcome.post_state ≡ done.state)
            × (outcome.transactions ≡ done.transactions)
            × (outcome.gas_used ≡ done.gas_used)
            × (state_root_in_mode machine done.state mode ≡ ok outcome.journal.post_state_root)
            × (outcome.journal.prev_state_root ≡ input.prev_state_root))
    unfolding execute_block_on_state
    execute_block_on_state-Steps = elim (Result-cases (install_input_block_hashes state input)) [
      | inr (refusal, failed) ↦ absurd (ground (arith, accepted))
      | inl (installed, opened) ↦
          elim (Result-cases (
            execute_transactions machine (inspector_policy policy) input.env input.raw_txs decoded
              (record { state = installed; gas_used = 0; transactions = [] }))) [
                | inr (refusal, failed) ↦ absurd (ground (arith, accepted))
                | inl (done, ran) ↦
                    elim (Result-cases (state_root_in_mode machine done.state mode)) [
                      | inr (refusal, failed) ↦ absurd (ground (arith, accepted))
                      | inl (root, rooted) ↦
                          let (txs, taken, steps) =
                            execute_transactions-Steps machine (inspector_policy policy) input.env
                              input.raw_txs decoded
                              (record { state = installed; gas_used = 0; transactions = [] }) done
                              ran (ground (arith, accepted)) in
                          (
                            installed,
                            (opened, ground (arith, accepted)),
                            (
                              done,
                              txs,
                              taken,
                              steps,
                              ground (arith, accepted),
                              ground (arith, accepted),
                              ground (arith, accepted),
                              ground (arith, accepted, rooted),
                              ground (arith, accepted),
                            ),
                          )
                    ]
              ]
    ]

    -- The history of block hashes is all that the installation changes.
    installed-accounts :
        (installed : StateMap)
        → install_input_block_hashes state input ≡ ok installed
        → installed.accounts ≡ state.accounts
    unfolding install_input_block_hashes install_block_hashes
    installed-accounts installed h =
        elim (Result-cases (collect_history input.env.number input.block_hashes none [])) [
          | inr (refusal, failed) ↦ absurd (ground arith)
          | inl (history, ran) ↦ ground (arith, ran)
        ]

    installed-IsCanonical :
        (installed : StateMap)
        → install_input_block_hashes state input ≡ ok installed
        → IsCanonical state
        → IsCanonical installed
    unfolding install_input_block_hashes install_block_hashes
    installed-IsCanonical installed h c =
        elim (Result-cases (collect_history input.env.number input.block_hashes none [])) [
          | inr (refusal, failed) ↦ absurd (ground arith)
          | inl (history, ran) ↦
              let same : record state { block_hashes = history } ≡ installed = ground arith in
              subst IsCanonical same c
        ]

    installed-root :
        (installed : StateMap)
        → check_root machine verify input.prev_state_root installed mode ≡ ok tt
        → verify ≡ true
        → state_root_in_mode machine installed mode ≡ ok input.prev_state_root
    unfolding check_root
    installed-root installed h on =
        elim (Result-cases (state_root_in_mode machine installed mode)) [
          | inr (refusal, failed) ↦ absurd (ground (arith, on))
          | inl (root, rooted) ↦ ground (arith, on, rooted)
        ]

    -- The run of an accepted block, from a state that differs in its history at most.
    pub execute_block_on_state-Executed :
        (start : StateMap) × (txs : List TxEnv) × (start.accounts ≡ state.accounts)
        × (verify ≡ true → state_root_in_mode machine start mode ≡ ok input.prev_state_root)
        × AreTransactions machine (inspector_policy policy) input.env decoded input.raw_txs txs
        × Executed machine
            (inspector_policy policy)
            input.env
            input.raw_txs
            txs
            start
            0
            outcome.transactions
            outcome.post_state
            outcome.gas_used
        × (state_root_in_mode machine outcome.post_state mode ≡ ok outcome.journal.post_state_root)
        × (outcome.journal.prev_state_root ≡ input.prev_state_root)
        × (outcome.gas_used ≤ input.env.gas_limit)
    execute_block_on_state-Executed =
        let (start, opened, (done, txs, taken, steps, state', transactions', gas', root, prev)) =
          execute_block_on_state-Steps in
        let first : Running = record { state = start; gas_used = 0; transactions = [] } in
        let policy' = inspector_policy policy in
        let (outcomes, listed, run) =
          Steps-Executed machine policy' input.env input.raw_txs txs first done steps in
        let reported = sym (transactions' ∙ listed) in
        (
          start,
          txs,
          installed-accounts start opened.0,
          installed-root start opened.1,
          taken,
          subst
              (λ (list : List TransactionOutcome).
                Executed machine policy' input.env input.raw_txs txs start 0 list outcome.post_state
                  outcome.gas_used)
              reported
              (subst
                (λ (s : StateMap).
                  Executed machine policy' input.env input.raw_txs txs start 0 outcomes s
                    outcome.gas_used)
                (sym state')
                (subst
                  (λ (g : ℕ).
                    Executed machine policy' input.env input.raw_txs txs start 0 outcomes done.state
                      g)
                  (sym gas') run)),
          ap (λ (s : StateMap). state_root_in_mode machine s mode) state' ∙ root,
          prev,
          omega (
            arith,
            gas',
            Steps-gas policy' input.env input.raw_txs txs first done steps (omega arith),
          ),
        )

    post_state-IsCanonical : IsCanonical state → IsCanonical outcome.post_state
    post_state-IsCanonical c =
        let (start, opened, (done, txs, taken, steps, state', transactions', gas', root, prev)) =
          execute_block_on_state-Steps in
        let first : Running = record { state = start; gas_used = 0; transactions = [] } in
        subst IsCanonical (sym state') (
          Steps-IsCanonical (inspector_policy policy) input.env input.raw_txs txs first done steps
            (installed-IsCanonical start opened.0 c))

    -- A block that is accepted on a canonical state is a run of its transactions, whatever revm does in
    -- it: from a state with the same accounts, which has the previous root when that is verified, the
    -- entry check admits each transaction, revm runs it, and its changes are committed, up to the
    -- state, the gas and the list of outcomes that the block reports, each with the digest of its bytes
    -- and its status. The transactions are those decoded before or what the bytes decode to. The state
    -- that the block ends in is canonical and has the root of the journal, which names the previous root
    -- of the input, and the gas is within the limit.
    pub execute_block_on_state-accepted :
        IsCanonical state
        → (start : StateMap) × (txs : List TxEnv) × (start.accounts ≡ state.accounts)
          × (verify ≡ true → state_root_in_mode machine start mode ≡ ok input.prev_state_root)
          × AreTransactions machine (inspector_policy policy) input.env decoded input.raw_txs txs
          × Executed machine
              (inspector_policy policy)
              input.env
              input.raw_txs
              txs
              start
              0
              outcome.transactions
              outcome.post_state
              outcome.gas_used
          × IsCanonical outcome.post_state
          × (state_root_in_mode machine outcome.post_state mode
              ≡ ok outcome.journal.post_state_root)
          × (outcome.journal.prev_state_root ≡ input.prev_state_root)
          × (outcome.gas_used ≤ input.env.gas_limit)
    execute_block_on_state-accepted c =
        let (start, txs, accounts, verified, taken, run, root, prev, gas) =
          execute_block_on_state-Executed in
        (start, txs, accounts, verified, taken, run, post_state-IsCanonical c, root, prev, gas)
