-- ===== src/RoomV5/Liabilities/CreditSteps.antt =====
-- What one deposit credits, and what the two kinds of credit write.
use native.Mathlib.Decide.{ℕ_discrete}
use zkdeal_prover.Prelude.{
  ℕ, ◌+◌, ◌-◌, ◌≡◌, sym, ap, ◌∙◌, ◌&&◌, some, List, [], ◌∷◌, ◌==◌, if◌then◌else◌, refl, is_some_and,
  sum_by, find?, Option, none, arith, ok, Option-cases, Bool-cases, inl, inr,
}
use zkdeal_prover.Prelude.Map.{lookup, insert, lookup-insert, lookup-nil}
use zkdeal_prover.StfTypes.Scalars.{Address, U256}
use zkdeal_prover.StfTypes.Abi.{Keccak}
use zkdeal_prover.StfTypes.V5.{
  ExitBindingV5, ExitAssetBindingV5, AdmissionRecordV5, DepositV5, BatchInputV5,
}
use zkdeal_prover.State.{StateMap, AccountRecord, account_or_default, stored_word, word_at}
use zkdeal_prover.RoomV5.Storage.{mapping_slot_v5, read_storage_v5}
use zkdeal_prover.RoomV5.Liabilities.{
  checked_add_v5, admission_fees, credit_native, token_binding, credit_token,
}

-- The native balance of an address; an absent account has none.
abbrev pub balance : StateMap → Address → U256
balance state a = (account_or_default (lookup a state.accounts)).balance

-- The word of a slot.
abbrev pub word : StateMap → Address → U256 → U256
word state a s = stored_word (lookup a state.accounts) s

-- The fees of the admissions that name a deposit.
abbrev pub fees_of : List AdmissionRecordV5 → ℕ → ℕ
fees_of admissions inbox_id =
    sum_by
      (λ (admission : AdmissionRecordV5).
        if admission.receipt.deposit_inbox_id == inbox_id
        then admission.receipt.admission_fee
        else 0)
      admissions

-- The first ERC-20 binding of an asset.
abbrev pub first_token : List ExitAssetBindingV5 → Address → Option ExitAssetBindingV5
first_token [] asset = none
first_token (bound ∷ assets) asset =
    if bound.kind == 1 && bound.asset == asset then some bound else first_token assets asset

-- The one that the exit policy of a room has.
abbrev pub room_token : Option ExitBindingV5 → Address → Option ExitAssetBindingV5
room_token none asset = none
room_token (some exit) asset = first_token exit.assets asset

find_token-first_token :
    (assets : List ExitAssetBindingV5) (asset : Address)
    → find? (λ (bound : ExitAssetBindingV5). bound.asset == asset && bound.kind == 1) assets
      ≡ first_token assets asset
find_token-first_token [] asset = refl
find_token-first_token (bound ∷ assets) asset = ground (arith, find_token-first_token assets asset)

pub token_binding-room_token :
    (input : BatchInputV5) (asset : Address)
    → token_binding input asset ≡ room_token input.policy.exit asset
unfolding token_binding
token_binding-room_token input asset = elim (Option-cases input.policy.exit) [
  | inl absent ↦ ground (arith, absent)
  | inr (exit, bound) ↦ ground (arith, bound, find_token-first_token exit.assets asset)
]

-- What a deposit credits: its amount without the fees, nothing for a refund.
abbrev pub net_of : BatchInputV5 → DepositV5 → ℕ
net_of input deposit =
    if deposit.refunded then 0 else deposit.amount - fees_of input.admissions deposit.inbox_id

-- The part that goes to the native balance of `a`.
abbrev pub native_credit : BatchInputV5 → Address → DepositV5 → ℕ
native_credit input a deposit =
    if deposit.asset == 0 && deposit.beneficiary == a then net_of input deposit else 0

pub admission_fees_lem :
    (inbox_id fees : ℕ) (admissions : List AdmissionRecordV5) (total : ℕ)
    → admission_fees inbox_id fees admissions ≡ ok total
    → total ≡ fees + fees_of admissions inbox_id
unfolding admission_fees checked_add_v5
admission_fees_lem inbox_id fees [] total h = ground arith
admission_fees_lem inbox_id fees (admission ∷ admissions) total h =
    elim (Bool-cases (admission.receipt.deposit_inbox_id == inbox_id)) [
      | inl named ↦ ground (
        arith,
        admission_fees_lem inbox_id (fees + admission.receipt.admission_fee) admissions total,
      )
      | inr other ↦ ground (arith, admission_fees_lem inbox_id fees admissions total)
    ]

pub credit_native_lem :
    (deposit : DepositV5) (net : U256) (state state' : StateMap)
    → credit_native deposit net state ≡ ok state'
    → (a : Address)
    → (balance state' a ≡ balance state a + (if deposit.beneficiary == a then net else 0))
      × ((s : U256) → word state' a s ≡ word state a s)
unfolding credit_native checked_add_v5
credit_native_lem deposit net state state' h a =
    let old = account_or_default (lookup deposit.beneficiary state.accounts) in
    let updated : AccountRecord = record old { balance = old.balance + net } in
    let written : state'.accounts ≡ insert deposit.beneficiary updated state.accounts =
      ground arith in
    let read : lookup a state'.accounts
        ≡ (if deposit.beneficiary == a then some updated else lookup a state.accounts) =
      ap (lookup a) written ∙ lookup-insert a deposit.beneficiary updated state.accounts in
    elim (ℕ_discrete deposit.beneficiary a) [
      | yes same ↦
          let here : lookup a state.accounts ≡ lookup deposit.beneficiary state.accounts =
            ap (λ (k : ℕ). lookup k state.accounts) (sym same) in
          elim (Option-cases (lookup deposit.beneficiary state.accounts)) [
            | inl absent ↦ (
              ground (arith, read, here, absent),
              (λ s. ground (arith, read, here, absent, lookup-nil {V = U256} s)),
            )
            | inr (account, found) ↦
                (ground (arith, read, here, found), (λ s. ground (arith, read, here, found)))
          ]
      | no other ↦ (ground (arith, read), (λ s. ground (arith, read)))
    ]

module _ ⦃keccak : Keccak⦄ where
  -- The part that goes to slot `s` of the contract `a`.
  abbrev pub token_credit : BatchInputV5 → Address → U256 → DepositV5 → ℕ
  token_credit input a s deposit =
      if deposit.asset == 0
      then 0
      else if is_some_and (room_token input.policy.exit deposit.asset)
          (λ bound. bound.token == a && mapping_slot_v5 deposit.beneficiary bound.balance_slot == s)
      then net_of input deposit
      else 0

  pub credit_token_lem :
      (bound : ExitAssetBindingV5) (deposit : DepositV5) (net : U256) (state state' : StateMap)
      → credit_token bound deposit net state ≡ ok state'
      → (a : Address)
      → (balance state' a ≡ balance state a)
        × ((s : U256)
            → word state' a s
              ≡ word state a s
                + (if bound.token == a
                      && mapping_slot_v5 deposit.beneficiary bound.balance_slot == s
                    then net
                    else 0))
  unfolding credit_token checked_add_v5 read_storage_v5
  credit_token_lem bound deposit net state state' h a =
      elim (Option-cases (lookup bound.token state.accounts)) [
        | inl absent ↦ absurd (ground arith)
        | inr (account, found) ↦
            let slot = mapping_slot_v5 deposit.beneficiary bound.balance_slot in
            let updated : AccountRecord = record account {
              storage = insert slot (word_at (lookup slot account.storage) + net) account.storage;
            } in
            let written : state'.accounts ≡ insert bound.token updated state.accounts =
              ground (arith, found) in
            let read : lookup a state'.accounts
                ≡ (if bound.token == a then some updated else lookup a state.accounts) =
              ap (lookup a) written ∙ lookup-insert a bound.token updated state.accounts in
            elim (ℕ_discrete bound.token a) [
              | yes same ↦
                  let here : lookup a state.accounts ≡ some account =
                    ap (λ (k : ℕ). lookup k state.accounts) (sym same) ∙ found in
                  (
                    ground (arith, read, here),
                    (λ s. ground (
                      arith,
                      read,
                      here,
                      lookup-insert s slot (word_at (lookup slot account.storage) + net)
                          account.storage,
                      ap (λ (k : ℕ). lookup k account.storage) {x = slot} {y = s},
                    )),
                  )
              | no other ↦ (ground (arith, read), (λ s. ground (arith, read)))
            ]
      ]
