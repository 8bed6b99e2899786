-- ===== src/State/Canonical/RoundTrip.antt =====
-- A canonical state survives the way out and back in: `to_input_state`, then `from_input`.
use mathlib.Core.List.{append_assoc, append-nil}
use zkdeal_prover.Prelude.{ℕ, ◌≡◌, ◌<◌, refl, sym, ap, ◌∙◌, [], ◌∷◌, ◌++◌, arith}
use zkdeal_prover.Prelude.Map.{Map, insert, Above, IsAscending}
use zkdeal_prover.StfTypes.Scalars.{U256}
use zkdeal_prover.State.{AccountRecord, StateMap}
use zkdeal_prover.State.Install.{
  collect_storage, record_of, collect_accounts, from_input, state_of, to_input_accounts,
  to_input_state,
}
use zkdeal_prover.State.Canonical.{IsNonZero, AreCanonical, IsCanonical}

module _ {ℓ} {V : Type ℓ} where
  Above-middle :
      (j k : ℕ) (v : V) (before after : Map V) → Above j (before ++ ((k, v) ∷ after)) → j < k
  Above-middle j k v [] after h = h.0
  Above-middle j k v (entry ∷ before) after h = Above-middle j k v before after h.1

  -- A key above all others goes to the end.
  insert_last :
      (k : ℕ) (v : V) (before after : Map V)
      → IsAscending (before ++ ((k, v) ∷ after))
      → insert k v before ≡ before ++ ((k, v) ∷ [])
  unfolding insert
  insert_last k v [] after h = refl
  insert_last k v ((j, w) ∷ before) after h =
      ground (arith, Above-middle j k v before after h.0, insert_last k v before after h.1)

collect_storage_lem :
    (words before : Map U256)
    → IsAscending (before ++ words)
    → IsNonZero words
    → collect_storage words before ≡ before ++ words
unfolding collect_storage
collect_storage_lem [] before a n = sym (append-nil before)
collect_storage_lem ((k, v) ∷ words) before a n =
    let joined = append_assoc before ((k, v) ∷ []) words in
    let rest = collect_storage_lem words (before ++ ((k, v) ∷ [])) (rw joined a) n.1 in
    ground (arith, insert_last k v before words a, rest, joined, n.0)

record_of-state_of :
    (account : AccountRecord)
    → IsAscending account.storage
    → IsNonZero account.storage
    → record_of (state_of account) ≡ account
record_of-state_of account a n =
    ap (λ (words : Map U256). record account { storage = words })
      (collect_storage_lem account.storage [] a n)

collect_accounts_lem :
    (accounts before : Map AccountRecord)
    → IsAscending (before ++ accounts)
    → AreCanonical accounts
    → collect_accounts (to_input_accounts accounts) before ≡ before ++ accounts
unfolding collect_accounts to_input_accounts
collect_accounts_lem [] before a c = sym (append-nil before)
collect_accounts_lem ((k, account) ∷ accounts) before a c =
    let joined = append_assoc before ((k, account) ∷ []) accounts in
    let rest = collect_accounts_lem accounts (before ++ ((k, account) ∷ [])) (rw joined a) c.1 in
    rw c.0.0 (
      ap (λ (r : AccountRecord). collect_accounts (to_input_accounts accounts) (insert k r before))
        (record_of-state_of account c.0.1 c.0.2)
      ∙ ap (collect_accounts (to_input_accounts accounts)) (insert_last k account before accounts a)
      ∙ rest
      ∙ joined)

-- A canonical state that is written out as the input of the next block and read back in has the
-- accounts it had.
pub from_input-to_input_state :
    (state : StateMap)
    → IsCanonical state
    → (from_input (to_input_state state)).accounts ≡ state.accounts
unfolding from_input to_input_state
from_input-to_input_state state h = collect_accounts_lem state.accounts [] h.0 h.1
