-- ===== src/RoomV5/Liabilities/Settled.antt =====
-- What acceptance of a batch says about its liabilities.
use zkdeal_prover.Prelude.{
  ℕ, ◌+◌, ◌<◌, ◌≡◌, ◌≢◌, Bool, true, false, none, some, Option, List, [], ◌∷◌, arith, ◌==◌, ok, any,
  AllPairs, ◌∙◌, ok-inv,
}
use zkdeal_prover.Prelude.Map.{Map, amount_at, remove, lookup-remove_ne}
use zkdeal_prover.StfTypes.Scalars.{Address, U256}
use zkdeal_prover.StfTypes.V5.{AssetLiabilityV5}
use zkdeal_prover.RoomV5.Liabilities.{settle_asset, settle_assets}

-- One asset's record moves by what the batch consumes and withdraws, and by nothing else.
pub record IsConserved (pre post : AssetLiabilityV5) (deposit withdrawal : U256) : Type 0 where
  pub same_asset : post.asset ≡ pre.asset
  pub pending : post.pending + deposit ≡ pre.pending
  pub controlled : post.controlled + withdrawal ≡ pre.controlled + deposit
  pub claimable : post.claimable ≡ pre.claimable + withdrawal
  pub paid : post.paid ≡ pre.paid

settle_asset-IsConserved :
    (close : Bool) (pre post : AssetLiabilityV5) (previous : Option Address)
    (deposit withdrawal : U256)
    → settle_asset close pre post previous deposit withdrawal ≡ ok tt
    → IsConserved pre post deposit withdrawal
unfolding settle_asset
settle_asset-IsConserved close pre post previous deposit withdrawal h = ground arith

-- `previous` is the asset of the round before, if there was one.
abbrev pub IsAfter : Option Address → Address → Type 0
IsAfter none asset = Unit
IsAfter (some previous) asset = previous < asset

settle_asset-IsAfter :
    (close : Bool) (pre post : AssetLiabilityV5) (previous : Option Address)
    (deposit withdrawal : U256)
    → settle_asset close pre post previous deposit withdrawal ≡ ok tt
    → IsAfter previous pre.asset
unfolding settle_asset
settle_asset-IsAfter close pre post none deposit withdrawal h = tt
settle_asset-IsAfter close pre post (some previous) deposit withdrawal h = ground arith

settle_asset-close :
    (close : Bool) (pre post : AssetLiabilityV5) (previous : Option Address)
    (deposit withdrawal : U256)
    → settle_asset close pre post previous deposit withdrawal ≡ ok tt
    → close ≡ true
    → post.controlled ≡ 0
unfolding settle_asset
settle_asset-close close pre post previous deposit withdrawal h c = ground arith

IsAfter-trans :
    (previous : Option Address) (a b : Address) → IsAfter previous a → a < b → IsAfter previous b
IsAfter-trans none a b h l = tt
IsAfter-trans (some previous) a b h l = omega arith

-- A round of the loop that does not refuse.
settle_assets-inv :
    (close : Bool) (pre post : AssetLiabilityV5) (pres posts : List AssetLiabilityV5)
    (previous : Option Address) (d w : Map U256) (left : Map U256 × Map U256)
    → settle_assets close (pre ∷ pres) (post ∷ posts) previous d w ≡ ok left
    → (settle_asset close pre post previous (amount_at pre.asset d) (amount_at pre.asset w) ≡ ok tt)
      × (settle_assets close pres posts (some pre.asset) (remove pre.asset d) (remove pre.asset w)
          ≡ ok left)
unfolding settle_assets
settle_assets-inv close pre post pres posts previous d w left h =
    let (u, e, next) =
      ok-inv (settle_asset close pre post previous (amount_at pre.asset d) (amount_at pre.asset w))
        _ h in
    (e, next)

amount_at-remove_ne :
    (a k : Address) (m : Map U256) → k < a → amount_at a (remove k m) ≡ amount_at a m
amount_at-remove_ne a k m l = ground (arith, lookup-remove_ne a k m (omega arith))

module _ (f g : Address → ℕ) (close : Bool) where
  -- What the loop establishes for each pair, where `f` and `g` give the totals of each asset.
  abbrev pub IsSettledPair : AssetLiabilityV5 → AssetLiabilityV5 → Type 0
  IsSettledPair pre post =
      IsConserved pre post (f pre.asset) (g pre.asset) × (close ≡ true → post.controlled ≡ 0)

  pub settle_assets-settled :
      (pres posts : List AssetLiabilityV5) (previous : Option Address) (d w : Map U256)
      (left : Map U256 × Map U256)
      → settle_assets close pres posts previous d w ≡ ok left
      → ((a : Address) → IsAfter previous a → amount_at a d ≡ f a)
      → ((a : Address) → IsAfter previous a → amount_at a w ≡ g a)
      → AllPairs IsSettledPair pres posts
  settle_assets-settled [] posts previous d w left h hf hg = tt
  settle_assets-settled (pre ∷ pres) [] previous d w left h hf hg = tt
  settle_assets-settled (pre ∷ pres) (post ∷ posts) previous d w left h hf hg =
      let (e, next) = settle_assets-inv close pre post pres posts previous d w left h in
      let after = settle_asset-IsAfter close pre post previous _ _ e in
      let ef = hf pre.asset after in
      let eg = hg pre.asset after in
      (
        (
          rw (← ef, ← eg) (settle_asset-IsConserved close pre post previous _ _ e),
          settle_asset-close close pre post previous _ _ e,
        ),
        settle_assets-settled pres posts (some pre.asset) (remove pre.asset d) (remove pre.asset w)
            left next
            (λ a l.
              amount_at-remove_ne a pre.asset d l
              ∙ hf a (IsAfter-trans previous pre.asset a after l))
            (λ a l.
              amount_at-remove_ne a pre.asset w l
              ∙ hg a (IsAfter-trans previous pre.asset a after l)),
      )

-- Totals of an asset that no record names are left over.
pub settle_assets-left :
    (asset : Address) (close : Bool) (pres posts : List AssetLiabilityV5)
    (previous : Option Address) (d w : Map U256) (left : Map U256 × Map U256)
    → settle_assets close pres posts previous d w ≡ ok left
    → any (λ (pre : AssetLiabilityV5). pre.asset == asset) pres ≡ false
    → (amount_at asset left.0 ≡ amount_at asset d) × (amount_at asset left.1 ≡ amount_at asset w)
settle_assets-left asset close [] posts previous d w left h n = unfold settle_assets in ground arith
settle_assets-left asset close (pre ∷ pres) [] previous d w left h n =
    unfold settle_assets in ground arith
settle_assets-left asset close (pre ∷ pres) (post ∷ posts) previous d w left h n =
    let (e, next) = settle_assets-inv close pre post pres posts previous d w left h in
    let other : asset ≢ pre.asset = ground arith in
    ground (
      arith,
      settle_assets-left asset close pres posts (some pre.asset) (remove pre.asset d)
          (remove pre.asset w) left next,
      lookup-remove_ne asset pre.asset d other,
      lookup-remove_ne asset pre.asset w other,
    )
