-- ===== src/StfTypes/V5/Trees.antt =====
-- The positional roster and withdrawal trees of zkvm/crates/stf-types/src/v5/hash.rs.
use zkdeal_prover.Prelude.{
  ℕ, not, ◌||◌, Option, none, some, List, [], ◌∷◌, ◌++◌, ltb, leb, ◌==◌, if◌then◌else◌, is_some_and,
  is_empty, set, replicate,
}
use zkdeal_prover.StfTypes.Scalars.{B256}
use zkdeal_prover.StfTypes.Limits.{max_positional_capacity_v5, max_withdrawal_capacity_v5}
use zkdeal_prover.StfTypes.Abi.{Keccak, b256_bytes}
use zkdeal_prover.StfTypes.Levels.{fold_levels}
use zkdeal_prover.StfTypes.V5.Witness.{RosterMemberV5, WithdrawalV5}
use zkdeal_prover.StfTypes.V5.Hash.{roster_leaf, withdrawal_leaf_v5}
use zkdeal_prover.Words.{is_power_of_two}

module _ ⦃keccak : Keccak⦄ where
  unfoldable pub node_hash : B256 → B256 → B256
  node_hash left right = keccak.keccak256 (b256_bytes left ++ b256_bytes right)

  -- The loop over the members that fills the leaves; `none` is its `return None`.
  unfoldable pub place_members : ℕ → Option ℕ → List RosterMemberV5 → List B256 → Option (List B256)
  place_members capacity previous [] leaves = some leaves
  place_members capacity previous (member ∷ members) leaves =
      let rest =
        place_members capacity (some member.index) members
          (set leaves member.index (roster_leaf member)) in
      if leb capacity member.index
        || member.member == 0
        || member.joined_epoch == 0
        || is_some_and previous (λ prior. leb member.index prior)
      then none
      else rest

  unfoldable pub roster_root_v5 : List RosterMemberV5 → ℕ → Option B256
  roster_root_v5 members capacity =
      if capacity == 0 || not (is_power_of_two capacity) || ltb max_positional_capacity_v5 capacity
      then none
      else elim (place_members capacity none members (replicate capacity 0)) [
        | none ↦ none
        | some leaves ↦ fold_levels node_hash capacity leaves
      ]

  unfoldable pub place_withdrawals :
      B256 → ℕ → ℕ → ℕ → Option ℕ → List WithdrawalV5 → List B256 → Option (List B256)
  place_withdrawals domain room epoch capacity previous [] leaves = some leaves
  place_withdrawals domain room epoch capacity previous (withdrawal ∷ withdrawals) leaves =
      let rest =
        place_withdrawals domain room epoch capacity (some withdrawal.index) withdrawals
          (set leaves withdrawal.index (withdrawal_leaf_v5 domain room epoch withdrawal)) in
      if leb capacity withdrawal.index
        || withdrawal.recipient == 0
        || withdrawal.amount == 0
        || is_some_and previous (λ prior. leb withdrawal.index prior)
      then none
      else rest

  unfoldable pub withdrawal_root_v5 : B256 → ℕ → ℕ → List WithdrawalV5 → ℕ → Option B256
  withdrawal_root_v5 domain room epoch withdrawals capacity =
      if is_empty withdrawals
      then some 0
      else if capacity == 0
          || not (is_power_of_two capacity)
          || ltb max_withdrawal_capacity_v5 capacity
      then none
      else elim (place_withdrawals domain room epoch capacity none withdrawals
          (replicate capacity 0)) [
            | none ↦ none
            | some leaves ↦ fold_levels node_hash capacity leaves
          ]
