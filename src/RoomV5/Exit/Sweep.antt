-- ===== src/RoomV5/Exit/Sweep.antt =====
-- The close sweep pays out a residual exactly, pro rata, and never more than it.
use zkdeal_prover.Prelude.{
  ℕ, ◌+◌, ◌-◌, ◌*◌, ◌/◌, ◌<◌, ◌≤◌, ◌≡◌, refl, List, [], ◌∷◌, arith, ◌==◌, ok, Result-cases,
  Bool-cases, inl, inr, length, sum_by, sum_by-append, All, All-append,
}
use zkdeal_prover.Prelude.Map.{Map}
use zkdeal_prover.StfTypes.Scalars.{Address, U256}
use zkdeal_prover.StfTypes.Abi.{Keccak}
use zkdeal_prover.StfTypes.V5.{ExitAssetBindingV5, ExitBindingV5}
use zkdeal_prover.State.{StateMap, AccountRecord}
use zkdeal_prover.RoomV5.Exit.{
  ExitRecordV5, collect_balances, distribute, sweep_asset, is_swept, sweep_balance,
}

abbrev pub leaf_amount : ExitRecordV5 → ℕ
leaf_amount leaf = leaf.amount

abbrev pub balance_of : Address × U256 → ℕ
balance_of entry = entry.1

-- A leaf names its asset and pays something.
abbrev pub IsLeaf : Address → ExitRecordV5 → Type 0
IsLeaf asset leaf = (leaf.asset ≡ asset) × (0 < leaf.amount)

module _ ⦃keccak : Keccak⦄ (asset : Address) (residual total : U256) where
  abbrev share_of : U256 → U256
  share_of balance = residual * balance / total

  -- A round of the loop that does not refuse, with a share or without one.
  distribute-inv :
      (address balance : ℕ) (balances : List (Address × U256)) (d : U256)
      (r : List ExitRecordV5 × U256)
      → distribute asset residual total ((address, balance) ∷ balances) d ≡ ok r
      → (rest : List ExitRecordV5 × U256) × (distribute asset residual total balances
            (d + share_of balance)
          ≡ ok rest)
        × (r.1 ≡ rest.1)
        × (sum_by leaf_amount r.0 ≡ share_of balance + sum_by leaf_amount rest.0)
  unfolding distribute
  distribute-inv address balance balances d r h = elim (Bool-cases (share_of balance == 0)) [
    | inl zero_share ↦
        let z : share_of balance ≡ 0 = ground arith in
        let same : d + share_of balance ≡ d = omega arith in
        (r, rw same (ground arith), refl, omega (arith, z))
    | inr paid ↦
        elim (Result-cases (distribute asset residual total balances (d + share_of balance))) [
          | inr (x, e) ↦ absurd (ground arith)
          | inl (rest, e) ↦ (rest, e, ground arith, ground arith)
        ]
  ]

  distribute-nil :
      (d : U256) (r : List ExitRecordV5 × U256)
      → distribute asset residual total [] d ≡ ok r
      → (r.1 ≡ d) × (sum_by leaf_amount r.0 ≡ 0)
  unfolding distribute
  distribute-nil d r h = ground arith

  pub distribute-sum :
      (balances : List (Address × U256)) (d : U256) (r : List ExitRecordV5 × U256)
      → distribute asset residual total balances d ≡ ok r
      → r.1 ≡ d + sum_by leaf_amount r.0
  distribute-sum [] d r h = omega (arith, distribute-nil d r h)
  distribute-sum ((address, balance) ∷ balances) d r h =
      let round = distribute-inv address balance balances d r h in
      omega
        (arith, round.2, round.3, distribute-sum balances (d + share_of balance) round.0 round.1)

  -- Each share is the floor of the exact one, so the sum stays below by less than one for each.
  share_bounds :
      (balance : U256)
      → 0 < total
      → (share_of balance * total ≤ residual * balance)
        × (residual * balance + 1 ≤ (share_of balance + 1) * total)
  share_bounds balance pos = (grind arith, grind arith)

  pub distribute_bounds :
      (balances : List (Address × U256)) (d : U256) (r : List ExitRecordV5 × U256)
      → 0 < total
      → distribute asset residual total balances d ≡ ok r
      → (r.1 * total ≤ d * total + residual * sum_by balance_of balances)
        × (d * total + residual * sum_by balance_of balances + length balances
            ≤ (r.1 + length balances) * total)
  distribute_bounds [] d r pos h = rw (distribute-nil d r h).0 (omega arith, omega arith)
  distribute_bounds ((address, balance) ∷ balances) d r pos h =
      let round = distribute-inv address balance balances d r h in
      let rest = distribute_bounds balances (d + share_of balance) round.0 pos round.1 in
      let bounds = share_bounds balance pos in
      rw round.2 (omega (arith, rest.0, bounds.0), omega (arith, rest.1, bounds.1))

  pub distribute-IsLeaf :
      (balances : List (Address × U256)) (d : U256) (r : List ExitRecordV5 × U256)
      → distribute asset residual total balances d ≡ ok r
      → All (IsLeaf asset) r.0
  unfolding distribute
  distribute-IsLeaf [] d r h = ground arith
  distribute-IsLeaf ((address, balance) ∷ balances) d r h =
      elim (Bool-cases (share_of balance == 0)) [
        | inl none_paid ↦ distribute-IsLeaf balances d r (ground arith)
        | inr paid ↦
            elim (Result-cases (distribute asset residual total balances (d + share_of balance))) [
              | inr (x, e) ↦ absurd (ground arith)
              | inl (rest, e) ↦
                  ground (arith, distribute-IsLeaf balances (d + share_of balance) rest e)
            ]
      ]

module _ ⦃keccak : Keccak⦄ (bound : ExitAssetBindingV5) (state : StateMap) where
  -- A round over the accounts: the entry is passed over, or its balance is taken.
  pub collect_balances-sum :
      (accounts : Map AccountRecord) (t : U256) (r : List (Address × U256) × U256)
      → collect_balances bound state accounts t ≡ ok r
      → r.1 ≡ t + sum_by balance_of r.0
  unfolding collect_balances
  collect_balances-sum [] t r h = ground arith
  collect_balances-sum ((address, account) ∷ accounts) t r h =
      elim (Bool-cases (is_swept address account)) [
        | inr skipped ↦ collect_balances-sum accounts t r (ground arith)
        | inl swept ↦ elim (Result-cases (sweep_balance bound state address account)) [
          | inr (x, e) ↦ absurd (ground arith)
          | inl (balance, e) ↦ elim (Bool-cases (balance == 0)) [
            | inl empty ↦ collect_balances-sum accounts t r (ground arith)
            | inr taken ↦
                elim (Result-cases (collect_balances bound state accounts (t + balance))) [
                  | inr (x, e') ↦ absurd (ground arith)
                  | inl (rest, e') ↦
                      ground (arith, collect_balances-sum accounts (t + balance) rest e')
                ]
          ]
        ]
      ]

module _ ⦃keccak : Keccak⦄ (binding : ExitBindingV5) (state : StateMap) (bound : ExitAssetBindingV5)
    (residual : U256) where
  pub sweep_asset-sum :
      (leaves : List ExitRecordV5)
      → sweep_asset binding state bound residual ≡ ok leaves
      → sum_by leaf_amount leaves ≡ residual
  unfolding sweep_asset
  sweep_asset-sum leaves h = elim (Result-cases (collect_balances bound state state.accounts 0)) [
    | inr (x, e) ↦ ground arith
    | inl (found, e) ↦ elim (Result-cases (distribute bound.asset residual found.1 found.0 0)) [
      | inr (x, e') ↦ ground arith
      | inl (paid, e') ↦
          let sum = distribute-sum bound.asset residual found.1 found.0 0 paid e' in
          let joined = λ (dust : List ExitRecordV5). sum_by-append {0} leaf_amount paid.0 dust in
          ground (
            arith,
            joined [],
            joined (
                record {
                  recipient = binding.fallback_recipient;
                  asset = bound.asset;
                  amount = residual - paid.1;
                }
                ∷ []),
          )
    ]
  ]

  pub sweep_asset-IsLeaf :
      (leaves : List ExitRecordV5)
      → sweep_asset binding state bound residual ≡ ok leaves
      → All (IsLeaf bound.asset) leaves
  unfolding sweep_asset
  sweep_asset-IsLeaf leaves h =
      elim (Result-cases (collect_balances bound state state.accounts 0)) [
        | inr (x, e) ↦ ground arith
        | inl (found, e) ↦ elim (Result-cases (distribute bound.asset residual found.1 found.0 0)) [
          | inr (x, e') ↦ ground arith
          | inl (paid, e') ↦
              let shares = distribute-IsLeaf bound.asset residual found.1 found.0 0 paid e' in
              let joined =
                λ (dust : List ExitRecordV5). All-append (IsLeaf bound.asset) paid.0 dust shares in
              ground (
                arith,
                joined [],
                joined (
                    record {
                      recipient = binding.fallback_recipient;
                      asset = bound.asset;
                      amount = residual - paid.1;
                    }
                    ∷ []),
              )
        ]
      ]
