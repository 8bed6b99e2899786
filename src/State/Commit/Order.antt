-- ===== src/State/Commit/Order.antt =====
-- What a commit does to each account, and that the order of its changes does not matter.
use zkdeal_prover.Prelude.{
  ◌≡◌, ◌≢◌, refl, sym, ap, ◌∙◌, not, Option, none, some, List, [], ◌∷◌, if◌then◌else◌, arith,
}
use native.Mathlib.Decide.{ℕ_discrete}
use zkdeal_prover.Prelude.Map.{
  lookup, IsAscending, IsAscending-ext, lookup-insert, lookup-remove_ne, lookup-remove_self,
}
use zkdeal_prover.StfTypes.Scalars.{Address}
use zkdeal_prover.StfTypes.Abi.{Keccak}
use zkdeal_prover.State.{AccountRecord, StateMap, account_or_default, is_empty_account}
use zkdeal_prover.State.Commit.{
  Account, merge_account, drop_account, keep_account, commit_account, commit,
}
use zkdeal_prover.State.Canonical.{IsCanonical, commit_account-IsCanonical, commit-IsCanonical}

-- No address is changed twice, as in a hash map.
abbrev pub AreDistinct : List (Address × Account) → Type 0
AreDistinct [] = Unit
AreDistinct ((a, account) ∷ changes) = (lookup a changes ≡ none) × AreDistinct changes

module _ ⦃keccak : Keccak⦄ where
  -- The account after a change: nothing changes when it is not touched; it is gone when it destructs
  -- itself or ends up empty; else it is the merged one.
  abbrev pub committed : Account → Option AccountRecord → Option AccountRecord
  committed account before =
      let merged = merge_account account (account_or_default before) in
      if not account.is_touched
      then before
      else if account.is_selfdestructed
      then none
      else if is_empty_account merged
      then none
      else some merged

  abbrev pub committed_by : Option Account → Option AccountRecord → Option AccountRecord
  committed_by none before = before
  committed_by (some account) before = committed account before

  commit_account_self :
      (a : Address) (account : Account) (state : StateMap)
      → IsAscending state.accounts
      → lookup a (commit_account state a account).accounts
        ≡ committed account (lookup a state.accounts)
  unfolding commit_account drop_account keep_account
  commit_account_self a account state h =
      let merged = merge_account account (account_or_default (lookup a state.accounts)) in
      ground (arith, lookup-insert a a merged state.accounts, lookup-remove_self a state.accounts h)

  commit_account_other :
      (j a : Address) (account : Account) (state : StateMap)
      → j ≢ a
      → lookup j (commit_account state a account).accounts ≡ lookup j state.accounts
  unfolding commit_account drop_account keep_account
  commit_account_other j a account state ne =
      let merged = merge_account account (account_or_default (lookup a state.accounts)) in
      ground
        (arith, lookup-insert j a merged state.accounts, lookup-remove_ne j a state.accounts ne)

  -- A commit changes each account by the change that names it, and no other account.
  pub commit-lookup :
      (state : StateMap) (changes : List (Address × Account))
      → IsCanonical state
      → AreDistinct changes
      → (a : Address)
      → lookup a (commit state changes).accounts
        ≡ committed_by (lookup a changes) (lookup a state.accounts)
  unfolding commit lookup
  commit-lookup state [] h d a = refl
  commit-lookup state ((k, account) ∷ changes) h d a =
      let next = commit_account state k account in
      let rest = commit-lookup next changes (commit_account-IsCanonical k account state h) d.1 in
      elim (ℕ_discrete k a) [
        | yes same ↦ rest a ∙ ground (arith, same, d.0, commit_account_self k account state h.0)
        | no other ↦
            rest a
            ∙ ground (arith, other, commit_account_other a k account state (λ e. other (sym e)))
      ]

  -- The EVM hands its changes over in the order of a hash map. Two orders of the same changes, in which
  -- no address comes twice, leave a canonical state with the same accounts.
  pub commit-order :
      (state : StateMap) (one other : List (Address × Account))
      → IsCanonical state
      → AreDistinct one
      → AreDistinct other
      → ((a : Address) → lookup a one ≡ lookup a other)
      → (commit state one).accounts ≡ (commit state other).accounts
  commit-order state one other h d e same =
      IsAscending-ext (commit state one).accounts (commit state other).accounts
        (commit-IsCanonical state one h).0 (commit-IsCanonical state other h).0
        (λ a.
          commit-lookup state one h d a
          ∙ ap (λ (change : Option Account). committed_by change (lookup a state.accounts)) (same a)
          ∙ sym (commit-lookup state other h e a))
