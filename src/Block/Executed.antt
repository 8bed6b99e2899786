-- ===== src/Block/Executed.antt =====
-- What the execution of a block guarantees, whatever revm does.

use mathlib.Core.Path.{subst}
use mathlib.Core.List.{append_assoc, append-nil}
use zkdeal_prover.Prelude.{
  ℕ, ◌+◌, length, AllPairs, sym, ◌∙◌, is_some_and, ◌!=◌, false, ◌≡◌, ◌≤◌, refl, ap, Option, none,
  some, List, [], ◌∷◌, ◌++◌, if◌then◌else◌, arith, ok, Option-cases, Result-cases, inl, inr,
}
use zkdeal_prover.StfTypes.Scalars.{Bytes}
use zkdeal_prover.StfTypes.Abi.{Keccak}
use zkdeal_prover.StfTypes.Block.{BlockEnvV1}
use zkdeal_prover.State.{StateMap}
use zkdeal_prover.State.Commit.{commit}
use zkdeal_prover.TxEnv.{TxEnv, tx_env_from_raw}
use zkdeal_prover.Policy.{ExecutionPolicyV4}
use zkdeal_prover.Policy.Calls.{validate_transaction_entry}
use zkdeal_prover.RoomV5.Executed.{TransactionOutcome}
use zkdeal_prover.Block.{
  TxResult, Machine, Running, add_gas, execute_transaction, execute_raw, execute_decoded,
  execute_transactions,
}

module _ ⦃keccak : Keccak⦄ (machine : Machine) (policy : ExecutionPolicyV4) (env : BlockEnvV1) where
  -- The raw transactions and what they decode to are executed in order, each on what the one before
  -- leaves.
  pub data Steps : List Bytes → List TxEnv → Running → Running → Type 0 where
    finished : (running : Running) → Steps [] [] running running
    step :
        (raw : Bytes) (raw_txs : List Bytes) (tx : TxEnv) (txs : List TxEnv)
        (before next after : Running)
        → execute_transaction machine policy env raw tx before ≡ ok next
        → Steps raw_txs txs next after
        → Steps (raw ∷ raw_txs) (tx ∷ txs) before after

  -- Each transaction is what its bytes decode to.
  abbrev pub AreDecoded : List Bytes → List TxEnv → Type 0
  AreDecoded raw_txs txs =
      AllPairs
        (λ (raw : Bytes) (tx : TxEnv). tx_env_from_raw machine.envelopes raw env.chain_id ≡ ok tx)
        raw_txs txs

  -- The transactions of a block: those that were decoded before, or those that its bytes decode to.
  abbrev pub AreTransactions : Option (List TxEnv) → List Bytes → List TxEnv → Type 0
  AreTransactions none raw_txs txs = AreDecoded raw_txs txs
  AreTransactions (some decoded) raw_txs txs = txs ≡ decoded

  execute_raw-Steps :
      (raw_txs : List Bytes) (before after : Running)
      → execute_raw machine policy env raw_txs before ≡ ok after
      → (txs : List TxEnv) × AreDecoded raw_txs txs × Steps raw_txs txs before after
  unfolding execute_raw
  execute_raw-Steps [] before after h =
      let same : before ≡ after = ground arith in
      ([], tt, subst (λ (r : Running). Steps [] [] before r) same (finished before))
  execute_raw-Steps (raw ∷ raw_txs) before after h =
      elim (Result-cases (tx_env_from_raw machine.envelopes raw env.chain_id)) [
        | inr (refusal, failed) ↦ absurd (ground arith)
        | inl (tx, decoded) ↦
            elim (Result-cases (execute_transaction machine policy env raw tx before)) [
              | inr (refusal, failed) ↦ absurd (ground arith)
              | inl (next, ran) ↦
                  let (txs, rest, steps) = execute_raw-Steps raw_txs next after (ground arith) in
                  (tx ∷ txs, (decoded, rest), step raw raw_txs tx txs before next after ran steps)
            ]
      ]

  execute_decoded-Steps :
      (raw_txs : List Bytes) (decoded : List TxEnv) (before after : Running)
      → execute_decoded machine policy env raw_txs decoded before ≡ ok after
      → length decoded ≡ length raw_txs
      → Steps raw_txs decoded before after
  unfolding execute_decoded
  execute_decoded-Steps [] [] before after h size =
      let same : before ≡ after = ground arith in
      subst (λ (r : Running). Steps [] [] before r) same (finished before)
  execute_decoded-Steps [] (tx ∷ decoded) before after h size = absurd (omega arith)
  execute_decoded-Steps (raw ∷ raw_txs) [] before after h size = cc
  execute_decoded-Steps (raw ∷ raw_txs) (tx ∷ decoded) before after h size =
      elim (Result-cases (execute_transaction machine policy env raw tx before)) [
        | inr (refusal, failed) ↦ absurd (ground arith)
        | inl (next, ran) ↦
            step raw raw_txs tx decoded before next after ran (
              execute_decoded-Steps raw_txs decoded next after (ground arith) (omega (arith, size)))
      ]

  pub execute_transactions-Steps :
      (raw_txs : List Bytes) (decoded : Option (List TxEnv)) (before after : Running)
      → execute_transactions machine policy env raw_txs decoded before ≡ ok after
      → is_some_and decoded (λ (txs : List TxEnv). length txs != length raw_txs) ≡ false
      → (txs : List TxEnv) × AreTransactions decoded raw_txs txs × Steps raw_txs txs before after
  unfolding execute_transactions
  execute_transactions-Steps raw_txs none before after h size =
      execute_raw-Steps raw_txs before after h
  execute_transactions-Steps raw_txs (some decoded) before after h size =
      (decoded, refl, execute_decoded-Steps raw_txs decoded before after h (ground (arith, size)))

  -- One transaction commits what revm hands back, stays within the gas of the block, and is recorded.
  pub execute_transaction-step :
      (raw : Bytes) (tx : TxEnv) (before after : Running)
      → execute_transaction machine policy env raw tx before ≡ ok after
      → (result : TxResult) × (machine.evm.transact policy env before.state tx ≡ some result)
        × (validate_transaction_entry machine.is_precompile policy tx.caller tx.kind tx.call_data
            ≡ ok tt)
        × (after.state ≡ commit before.state result.changes)
        × (result.violation ≡ none)
        × (after.state.access_violation ≡ none)
        × (after.gas_used ≡ before.gas_used + result.gas_used)
        × (after.gas_used ≤ env.gas_limit)
        × (after.transactions
            ≡ before.transactions
              ++ (record {
                transaction_hash = keccak.keccak256 raw;
                status = if result.is_success then 0 else 1;
              }
                  ∷ []))
  unfolding execute_transaction add_gas
  execute_transaction-step raw tx before after h =
      elim (Result-cases
        (validate_transaction_entry machine.is_precompile policy tx.caller tx.kind tx.call_data)) [
          | inr (refusal, failed) ↦ absurd (ground arith)
          | inl (entry, admitted) ↦
              elim (Option-cases (machine.evm.transact policy env before.state tx)) [
                | inl absent ↦ absurd (ground arith)
                | inr (result, ran) ↦ elim (Option-cases result.violation) [
                  | inr (error, latched) ↦ absurd (ground arith)
                  | inl clean ↦
                      elim (Option-cases (commit before.state result.changes).access_violation) [
                        | inr (error, outside) ↦ absurd (ground arith)
                        | inl inside ↦ (
                          result,
                          ran,
                          admitted,
                          ground arith,
                          clean,
                          ground arith,
                          ground arith,
                          ground arith,
                          ground arith,
                        )
                      ]
                ]
              ]
        ]

  -- A run from a state and a gas total to others, with its outcomes: each transaction passes the entry
  -- check of the policy, revm runs it on the state so far without a violation, and the next one finds
  -- that state with revm's changes committed and the gas added. Its outcome has the digest of its bytes
  -- and the status 0 for a success, 1 for a failure.
  pub data Executed
      : List Bytes
        → List TxEnv
        → StateMap
        → ℕ
        → List TransactionOutcome
        → StateMap
        → ℕ
        → Type 0 where
    nothing : (state : StateMap) (gas : ℕ) → Executed [] [] state gas [] state gas
    executed :
        (raw : Bytes) (raw_txs : List Bytes) (tx : TxEnv) (txs : List TxEnv) (state : StateMap)
        (gas : ℕ) (result : TxResult) (outcomes : List TransactionOutcome) (state' : StateMap)
        (gas' : ℕ)
        → validate_transaction_entry machine.is_precompile policy tx.caller tx.kind tx.call_data
          ≡ ok tt
        → machine.evm.transact policy env state tx ≡ some result
        → result.violation ≡ none
        → Executed raw_txs txs
            (commit state result.changes)
            (gas + result.gas_used)
            outcomes
            state'
            gas'
        → Executed
            (raw ∷ raw_txs)
            (tx ∷ txs)
            state
            gas
            (record {
              transaction_hash = keccak.keccak256 raw;
              status = if result.is_success then 0 else 1;
            }
              ∷ outcomes)
            state'
            gas'

  pub Steps-Executed :
      (raw_txs : List Bytes) (txs : List TxEnv) (before after : Running)
      → Steps raw_txs txs before after
      → (outcomes : List TransactionOutcome) × (after.transactions
          ≡ before.transactions ++ outcomes)
        × Executed raw_txs txs before.state before.gas_used outcomes after.state after.gas_used
  Steps-Executed _ _ _ _ (finished before) =
      ([], sym (append-nil before.transactions), nothing before.state before.gas_used)
  Steps-Executed _ _ _ _ (step raw raw_txs tx txs before next after ran steps) =
      let (result, transacted, entered, state', clean, inside, gas, within, listed) =
        execute_transaction-step raw tx before next ran in
      let (outcomes, more, rest) = Steps-Executed raw_txs txs next after steps in
      let outcome : TransactionOutcome = record {
        transaction_hash = keccak.keccak256 raw;
        status = if result.is_success then 0 else 1;
      } in
      (
        outcome ∷ outcomes,
        more
            ∙ ap (λ (list : List TransactionOutcome). list ++ outcomes) listed
            ∙ append_assoc before.transactions (outcome ∷ []) outcomes,
        executed raw raw_txs tx txs before.state before.gas_used result outcomes after.state
            after.gas_used entered transacted clean
            (subst
              (λ (g : ℕ).
                Executed raw_txs txs (commit before.state result.changes) g outcomes after.state
                  after.gas_used)
              gas
              (subst
                (λ (s : StateMap).
                  Executed raw_txs txs s next.gas_used outcomes after.state after.gas_used)
                state' rest)),
      )
