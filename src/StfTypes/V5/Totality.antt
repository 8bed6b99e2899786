-- ===== src/StfTypes/V5/Totality.antt =====
-- The rounds that the trees of zkvm/crates/stf-types/src/v5/hash.rs take.
use zkdeal_prover.Prelude.{
  ℕ, ◌<◌, ◌≤◌, ◌≡◌, ◌≢◌, refl, true, false, Option, none, some, List, [], ◌∷◌, leb, is_some_and,
  length, set, replicate, arith, length-set, length-replicate, ◌∙◌,
}
use zkdeal_prover.StfTypes.Scalars.{B256}
use zkdeal_prover.StfTypes.Abi.{Keccak}
use zkdeal_prover.StfTypes.V5.Witness.{WithdrawalV5, RosterMemberV5}
use zkdeal_prover.StfTypes.V5.Hash.{withdrawal_leaf_v5, roster_leaf}
use zkdeal_prover.StfTypes.Levels.{pow_above, fold_levels-some}
use zkdeal_prover.StfTypes.V5.Trees.{
  node_hash, place_withdrawals, withdrawal_root_v5, place_members, roster_root_v5,
}
use zkdeal_prover.Words.{is_power_of_two}
use zkdeal_prover.Words.Powers.{is_power_of_two_sound}

-- The withdrawals of a tree with `capacity` leaves: ascending positions within the capacity, each with
-- a recipient and an amount.
abbrev pub ArePlaced : ℕ → Option ℕ → List WithdrawalV5 → Type 0
ArePlaced capacity previous [] = Unit
ArePlaced capacity previous (withdrawal ∷ withdrawals) =
    (withdrawal.index < capacity)
    × (withdrawal.recipient ≢ 0)
    × (withdrawal.amount ≢ 0)
    × (is_some_and previous (λ prior. leb withdrawal.index prior) ≡ false)
    × ArePlaced capacity (some withdrawal.index) withdrawals

-- The members of a roster with `capacity` positions: ascending positions within the capacity, each with
-- an account and an epoch.
abbrev pub AreSeated : ℕ → Option ℕ → List RosterMemberV5 → Type 0
AreSeated capacity previous [] = Unit
AreSeated capacity previous (member ∷ members) =
    (member.index < capacity)
    × (member.member ≢ 0)
    × (member.joined_epoch ≢ 0)
    × (is_some_and previous (λ prior. leb member.index prior) ≡ false)
    × AreSeated capacity (some member.index) members

module _ ⦃keccak : Keccak⦄ where
  module _ (domain : B256) (room epoch capacity : ℕ) where
    place_withdrawals-some :
        (previous : Option ℕ) (withdrawals : List WithdrawalV5) (leaves : List B256)
        → ArePlaced capacity previous withdrawals
        → (placed : List B256) × (place_withdrawals domain room epoch capacity previous withdrawals
              leaves
            ≡ some placed)
          × (length placed ≡ length leaves)
    unfolding place_withdrawals
    place_withdrawals-some previous [] leaves h = (leaves, refl, refl)
    place_withdrawals-some previous (withdrawal ∷ withdrawals) leaves h =
        let (placed, ran, size) =
          place_withdrawals-some (some withdrawal.index) withdrawals
            (set leaves withdrawal.index (withdrawal_leaf_v5 domain room epoch withdrawal)) h.4 in
        (
          placed,
          ground (arith, ran),
          size
              ∙ length-set leaves withdrawal.index
                  (withdrawal_leaf_v5 domain room epoch withdrawal),
        )

    -- Every well-formed allocation has a withdrawal root: when the capacity is a power of two within
    -- the bound and the withdrawals stand at ascending positions below it, each with a recipient and
    -- an amount, a root is computed.
    withdrawal_root_v5-total :
        (withdrawals : List WithdrawalV5)
        → is_power_of_two capacity ≡ true
        → capacity ≤ 32_768
        → ArePlaced capacity none withdrawals
        → (root : B256) × (withdrawal_root_v5 domain room epoch withdrawals capacity ≡ some root)
    unfolding withdrawal_root_v5
    withdrawal_root_v5-total [] power bound well = (0, refl)
    withdrawal_root_v5-total (withdrawal ∷ rest) power bound well =
        let (k, small, e) = is_power_of_two_sound capacity power in
        let (placed, ran, size) =
          place_withdrawals-some none (withdrawal ∷ rest) (replicate capacity 0) well in
        let (root, folded) =
          fold_levels-some node_hash k capacity placed (size ∙ length-replicate capacity 0 ∙ e)
            (omega (arith, pow_above k, e)) in
        let positive : capacity ≢ 0 = omega (arith, pow_above k, e) in
        (root, ground (arith, power, bound, positive, ran, folded))

  module _ (capacity : ℕ) where
    place_members-some :
        (previous : Option ℕ) (members : List RosterMemberV5) (leaves : List B256)
        → AreSeated capacity previous members
        → (placed : List B256) × (place_members capacity previous members leaves ≡ some placed)
          × (length placed ≡ length leaves)
    unfolding place_members
    place_members-some previous [] leaves h = (leaves, refl, refl)
    place_members-some previous (member ∷ members) leaves h =
        let (placed, ran, size) =
          place_members-some (some member.index) members
            (set leaves member.index (roster_leaf member)) h.4 in
        (placed, ground (arith, ran), size ∙ length-set leaves member.index (roster_leaf member))

    -- Every well-formed roster has a root: when the capacity is a power of two within the bound and the
    -- members stand at ascending positions below it, each with an account and an epoch, a root is
    -- computed.
    roster_root_v5-total :
        (members : List RosterMemberV5)
        → is_power_of_two capacity ≡ true
        → capacity ≤ 256
        → AreSeated capacity none members
        → (root : B256) × (roster_root_v5 members capacity ≡ some root)
    unfolding roster_root_v5
    roster_root_v5-total members power bound well =
        let (k, small, e) = is_power_of_two_sound capacity power in
        let (placed, ran, size) = place_members-some none members (replicate capacity 0) well in
        let (root, folded) =
          fold_levels-some node_hash k capacity placed (size ∙ length-replicate capacity 0 ∙ e)
            (omega (arith, pow_above k, e)) in
        let positive : capacity ≢ 0 = omega (arith, pow_above k, e) in
        (root, ground (arith, power, bound, positive, ran, folded))
