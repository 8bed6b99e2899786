-- ===== src/RoomV5/Liabilities/Credits.antt =====
-- What `apply_deposit_credits_v5` adds to native balances and to token slots.
use native.Mathlib.Decide.{ℕ_discrete}
use zkdeal_prover.Prelude.{
  ℕ, ◌+◌, ◌-◌, ◌≡◌, ◌≢◌, sym, ap, ◌∙◌, false, some, List, [], ◌∷◌, sum_by, All, none, ◌≤◌, arith,
  ok, Result-cases, Option-cases, Bool-cases, inl, inr,
}
use zkdeal_prover.StfTypes.Scalars.{Address, U256}
use zkdeal_prover.StfTypes.Abi.{Keccak}
use zkdeal_prover.StfTypes.V5.{DepositV5, BatchInputV5}
use zkdeal_prover.State.{StateMap}
use zkdeal_prover.RoomV5.Liabilities.{
  admission_fees, credit_native, token_binding, credit_token, apply_deposit_credit,
  apply_deposit_credits, apply_deposit_credits_v5,
}
use zkdeal_prover.RoomV5.Liabilities.CreditSteps.{
  balance, word, fees_of, room_token, net_of, native_credit, token_credit, token_binding-room_token,
  admission_fees_lem, credit_native_lem, credit_token_lem,
}

module _ ⦃keccak : Keccak⦄ where
  -- The fees that are taken out of a deposit fit in it, and what is left of a token has a binding.
  abbrev pub IsCovered : BatchInputV5 → DepositV5 → Type 0
  IsCovered input deposit =
      deposit.refunded ≡ false
      → (fees_of input.admissions deposit.inbox_id ≤ deposit.amount)
        × (deposit.asset ≢ 0
            → fees_of input.admissions deposit.inbox_id ≢ deposit.amount
            → room_token input.policy.exit deposit.asset ≢ none)

  -- What a list of deposits, or one, adds to each balance and to each word.
  pub record IsCredited (input : BatchInputV5) (deposits : List DepositV5) (state state' : StateMap)
      : Type 0 where
    pub balances :
        (a : Address) → balance state' a ≡ balance state a + sum_by (native_credit input a) deposits
    pub words :
        (a : Address) (s : U256)
        → word state' a s ≡ word state a s + sum_by (token_credit input a s) deposits
    pub covered : All (IsCovered input) deposits

  module _ (input : BatchInputV5) where
    IsCredited-same :
        (deposit : DepositV5) (state state' : StateMap)
        → state ≡ state'
        → net_of input deposit ≡ 0
        → IsCovered input deposit
        → IsCredited input (deposit ∷ []) state state'
    IsCredited-same deposit state state' e z fits = record {
      covered = (fits, tt);
      balances = λ a. ground (arith, ap (λ (x : StateMap). balance x a) e);
      words = λ a s. ground (arith, ap (λ (x : StateMap). word x a s) e);
    }

    module _ (deposit : DepositV5) (state state' : StateMap) (live : deposit.refunded ≡ false)
        (fees : ℕ) (totalled : admission_fees deposit.inbox_id 0 input.admissions ≡ ok fees)
        (ran : apply_deposit_credit input deposit state ≡ ok state') where
      net_is : net_of input deposit ≡ deposit.amount - fees
      net_is = ground (arith, admission_fees_lem deposit.inbox_id 0 input.admissions fees totalled)

      fees_fit :
          (deposit.asset ≢ 0
            → deposit.amount - fees ≢ 0
            → room_token input.policy.exit deposit.asset ≢ none)
          → IsCovered input deposit
      unfolding apply_deposit_credit
      fees_fit bound alive =
          let total = admission_fees_lem deposit.inbox_id 0 input.admissions fees totalled in
          let fit : fees ≤ deposit.amount = ground arith in
          (
            omega (arith, fit, total),
            (λ token some_left. bound token (omega (arith, fit, total, some_left))),
          )

      live_credit : IsCredited input (deposit ∷ []) state state'
      unfolding apply_deposit_credit
      live_credit = elim (ℕ_discrete (deposit.amount - fees) 0) [
        | yes nothing ↦
            IsCredited-same deposit state state' (ground arith) (net_is ∙ nothing)
              (fees_fit (λ token some_left. absurd (some_left nothing)))
        | no positive ↦ elim (ℕ_discrete deposit.asset 0) [
          | yes native ↦
              let credited : credit_native deposit (deposit.amount - fees) state ≡ ok state' =
                ground arith in
              let lem = credit_native_lem deposit (deposit.amount - fees) state state' credited in
              record {
                covered = (fees_fit (λ token some_left. absurd (token native)), tt);
                balances = λ a. ground (arith, net_is, (lem a).0);
                words = λ a s. ground (arith, (lem a).1 s);
              }
          | no token ↦ elim (Option-cases (token_binding input deposit.asset)) [
            | inl absent ↦ absurd (ground arith)
            | inr (bound, named) ↦
                let known : room_token input.policy.exit deposit.asset ≡ some bound =
                  sym (token_binding-room_token input deposit.asset) ∙ named in
                let credited : credit_token bound deposit (deposit.amount - fees) state
                    ≡ ok state' =
                  ground arith in
                let lem =
                  credit_token_lem bound deposit (deposit.amount - fees) state state' credited in
                record {
                  covered = (fees_fit (λ token some_left e. ground (arith, e, known)), tt);
                  balances = λ a. ground (arith, (lem a).0);
                  words = λ a s. ground (arith, net_is, known, (lem a).1 s);
                }
          ]
        ]
      ]

    apply_deposit_credit-IsCredited :
        (deposit : DepositV5) (state state' : StateMap)
        → apply_deposit_credit input deposit state ≡ ok state'
        → IsCredited input (deposit ∷ []) state state'
    unfolding apply_deposit_credit
    apply_deposit_credit-IsCredited deposit state state' h = elim (Bool-cases deposit.refunded) [
      | inl refunded ↦
          IsCredited-same deposit state state' (ground arith) (ground arith)
            (λ alive. absurd (ground arith))
      | inr live ↦ elim (Result-cases (admission_fees deposit.inbox_id 0 input.admissions)) [
        | inr (x, failed) ↦ absurd (ground arith)
        | inl (fees, totalled) ↦ live_credit deposit state state' live fees totalled h
      ]
    ]

    apply_deposit_credits-IsCredited :
        (deposits : List DepositV5) (state state' : StateMap)
        → apply_deposit_credits input deposits state ≡ ok state'
        → IsCredited input deposits state state'
    unfolding apply_deposit_credits
    apply_deposit_credits-IsCredited [] state state' h = record {
      covered = tt;
      balances = λ a. ground arith;
      words = λ a s. ground arith;
    }
    apply_deposit_credits-IsCredited (deposit ∷ deposits) state state' h =
        elim (Result-cases (apply_deposit_credit input deposit state)) [
          | inr (x, failed) ↦ absurd (ground arith)
          | inl (next, ran) ↦
              let one = apply_deposit_credit-IsCredited deposit state next ran in
              let rest = apply_deposit_credits-IsCredited deposits next state' (ground arith) in
              record {
                covered = (one.covered.0, rest.covered);
                balances = λ a. omega (arith, one.balances a, rest.balances a);
                words = λ a s. omega (arith, one.words a s, rest.words a s);
              }
        ]

    -- The deposits that a batch consumes arrive exactly once: when the credits go through, the fees of
    -- the admissions that name a deposit fit in it unless it is refunded, the native balance of each
    -- address grows by its native deposits without those fees, each storage word grows by the token
    -- deposits whose first ERC-20 binding in the exit policy gives that word, without their fees, and a
    -- refund, like every other address and word, adds nothing; a token deposit with a rest has such a
    -- binding.
    pub apply_deposit_credits_v5-credits :
        (state state' : StateMap)
        → apply_deposit_credits_v5 input state ≡ ok state'
        → All (IsCovered input) input.deposits
          × ((a : Address)
              → balance state' a ≡ balance state a + sum_by (native_credit input a) input.deposits)
          × ((a : Address) (s : U256)
              → word state' a s ≡ word state a s + sum_by (token_credit input a s) input.deposits)
    unfolding apply_deposit_credits_v5
    apply_deposit_credits_v5-credits state state' h =
        let c = apply_deposit_credits-IsCredited input.deposits state state' h in
        (c.covered, c.balances, c.words)
