-- ===== src/RoomV5/Liabilities/Tests.antt =====
-- Concrete batches, and the theorems at them.
use zkdeal_prover.Prelude.{
  ℕ, ◌+◌, ◌≡◌, refl, Bool, true, false, List, [], ◌∷◌, ok, err, AllPairs, sum_by, length,
}
use zkdeal_prover.StfTypes.Abi.Sample.{sample_keccak}
use zkdeal_prover.StfTypes.V5.{AssetLiabilityV5, DepositV5, WithdrawalV5, BatchInputV5}
use zkdeal_prover.StfTypes.V5.Defaults.{default_journal, default_input}
use zkdeal_prover.StfTypes.V5.Hash.{inbox_records_hash_v5, liabilities_hash_v5, withdrawal_leaf_v5}
use zkdeal_prover.StfTypes.V5.Evaluate.{evaluate}
use zkdeal_prover.RoomV5.Refusal.{withdrawal_exceeds_controlled}
use zkdeal_prover.RoomV5.Liabilities.{
  validate_liabilities_v5, collect_deposits, collect_withdrawals, settle_assets, settle_asset,
}
use zkdeal_prover.RoomV5.Liabilities.Totals.{consumed, withdrawn, AreCrossed}
use zkdeal_prover.RoomV5.Liabilities.Settled.{IsConserved}
use zkdeal_prover.RoomV5.Liabilities.Conservation.{
  custody, validate_liabilities_v5-conserves, validate_liabilities_v5-custody,
  validate_liabilities_v5-close, validate_liabilities_v5-listed, validate_liabilities_v5-crosses,
}

abbrev liability : ℕ → ℕ → ℕ → ℕ → AssetLiabilityV5
liability asset pending controlled claimable = record {
  asset = asset;
  pending = pending;
  controlled = controlled;
  claimable = claimable;
  paid = 1;
}

-- Deposits of 40 and 8 into assets 5 and 9; the second is refunded.
abbrev deposits : List DepositV5
deposits =
    record {
      inbox_id = 4;
      depositor = 11;
      beneficiary = 12;
      asset = 5;
      amount = 40;
      queued_at_block = 3;
      consumed = false;
      refunded = false;
    }
    ∷ record {
      inbox_id = 5;
      depositor = 13;
      beneficiary = 13;
      asset = 9;
      amount = 8;
      queued_at_block = 3;
      consumed = false;
      refunded = true;
    }
    ∷ []

abbrev withdrawals : ℕ → List WithdrawalV5
withdrawals amount =
    record { index = 0; roster_epoch = 2; recipient = 12; asset = 5; amount = amount } ∷ []

abbrev pre_liabilities : List AssetLiabilityV5
pre_liabilities = liability 5 100 50 10 ∷ liability 9 20 0 7 ∷ []

-- A batch that withdraws `amount` of asset 5, with the liabilities that follow from it.
abbrev batch : Bool → ℕ → List AssetLiabilityV5 → BatchInputV5
batch close amount post_liabilities = record default_input {
  journal = record default_journal {
    room_id = 7;
    inbox_cursor_before = 3;
    inbox_cursor_after = 5;
    outbox_epoch = 1;
    close = close;
    inbox_records_hash = inbox_records_hash_v5 deposits;
    pre_liabilities_hash = liabilities_hash_v5 pre_liabilities;
    post_liabilities_hash = liabilities_hash_v5 post_liabilities;
    withdrawal_root =
        withdrawal_leaf_v5 0 7 1
          (record { index = 0; roster_epoch = 2; recipient = 12; asset = 5; amount = amount });
  };
  pre_liabilities = pre_liabilities;
  post_liabilities = post_liabilities;
  deposits = deposits;
  withdrawals = withdrawals amount;
  withdrawal_capacity = 1;
}

abbrev open_batch : BatchInputV5
open_batch = batch false 30 (liability 5 60 60 40 ∷ liability 9 20 0 7 ∷ [])

abbrev closing_batch : BatchInputV5
closing_batch = batch true 90 (liability 5 60 0 100 ∷ liability 9 20 0 7 ∷ [])

open_batch_valid : validate_liabilities_v5 open_batch ≡ ok tt
unfolding validate_liabilities_v5 collect_deposits collect_withdrawals settle_assets settle_asset
    evaluate
open_batch_valid = refl

closing_batch_valid : validate_liabilities_v5 closing_batch ≡ ok tt
unfolding validate_liabilities_v5 collect_deposits collect_withdrawals settle_assets settle_asset
    evaluate
closing_batch_valid = refl

-- One unit more than was controlled is refused.
overdrawn :
    validate_liabilities_v5 (batch false 91 (liability 5 60 0 101 ∷ liability 9 20 0 7 ∷ []))
    ≡ err withdrawal_exceeds_controlled
unfolding validate_liabilities_v5 collect_deposits collect_withdrawals settle_assets settle_asset
    evaluate
overdrawn = refl

validate_liabilities_v5-conserves_example :
    AllPairs
      (λ pre post.
        IsConserved pre post
          (consumed pre.asset open_batch.deposits)
          (withdrawn pre.asset open_batch.withdrawals))
      open_batch.pre_liabilities
      open_batch.post_liabilities
validate_liabilities_v5-conserves_example =
    validate_liabilities_v5-conserves open_batch open_batch_valid

validate_liabilities_v5-custody_example :
    sum_by custody open_batch.post_liabilities ≡ sum_by custody open_batch.pre_liabilities
validate_liabilities_v5-custody_example =
    validate_liabilities_v5-custody open_batch open_batch_valid

validate_liabilities_v5-close_example :
    AllPairs
      (λ pre post.
        (post.controlled ≡ 0)
        × (withdrawn pre.asset closing_batch.withdrawals
            ≡ pre.controlled + consumed pre.asset closing_batch.deposits))
      closing_batch.pre_liabilities
      closing_batch.post_liabilities
validate_liabilities_v5-close_example =
    validate_liabilities_v5-close closing_batch closing_batch_valid refl

validate_liabilities_v5-listed_example :
    (consumed 6 open_batch.deposits ≡ 0) × (withdrawn 6 open_batch.withdrawals ≡ 0)
validate_liabilities_v5-listed_example =
    validate_liabilities_v5-listed open_batch open_batch_valid 6 refl

validate_liabilities_v5-crosses_example :
    AreCrossed 3 open_batch.deposits × (◌≡◌ {A = ℕ} 5 (3 + length open_batch.deposits))
validate_liabilities_v5-crosses_example =
    validate_liabilities_v5-crosses open_batch open_batch_valid
