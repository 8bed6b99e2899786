-- ===== src/RoomV5/Liabilities/CreditTests.antt =====
-- A batch with a native deposit, a token deposit and a refund, and the credits that it makes.
use zkdeal_prover.Prelude.{
  ℕ, ◌+◌, ◌≡◌, refl, Bool, true, false, none, some, [], ◌∷◌, ok, err, sum_by, All,
}
use zkdeal_prover.StfTypes.Scalars.{Address, U256}
use zkdeal_prover.StfTypes.Abi.Sample.{sample_keccak}
use zkdeal_prover.StfTypes.V5.{DepositV5, AdmissionRecordV5, BatchInputV5}
use zkdeal_prover.StfTypes.V5.Defaults.{default_policy, default_input}
use zkdeal_prover.StfTypes.V5.Evaluate.{evaluate}
use zkdeal_prover.State.{StateMap}
use zkdeal_prover.RoomV5.Refusal.{fees_exceed_deposit}
use zkdeal_prover.RoomV5.Storage.{mapping_slot_v5, read_storage_v5}
use zkdeal_prover.RoomV5.Liabilities.{
  checked_add_v5, admission_fees, credit_native, token_binding, credit_token, apply_deposit_credit,
  apply_deposit_credits, apply_deposit_credits_v5,
}
use zkdeal_prover.RoomV5.Liabilities.CreditSteps.{balance, word, native_credit, token_credit}
use zkdeal_prover.RoomV5.Liabilities.Credits.{IsCovered, apply_deposit_credits_v5-credits}

abbrev deposit : ℕ → Address → Bool → DepositV5
deposit inbox_id asset refunded = record {
  inbox_id = inbox_id;
  depositor = 11;
  beneficiary = 12;
  asset = asset;
  amount = 40;
  queued_at_block = 3;
  consumed = false;
  refunded = refunded;
}

-- An admission that takes a fee out of the deposit 4.
abbrev admission : U256 → AdmissionRecordV5
admission fee = record {
  receipt = record {
    admission_id = 1;
    transaction_hash = 0;
    deposit_inbox_id = 4;
    deposit_content_hash = 0;
    deadline_block = 0;
    maximum_batch_index = 0;
    bond_epoch = 0;
    admission_fee = fee;
    signature = [];
  };
  outcome = record {
    admission_id = 1;
    transaction_hash = 0;
    status = 0;
    l2_block_number = 0;
    transaction_index = 0;
    reason_hash = 0;
  };
}

-- Asset 9 is the token contract 60 of the room, with its balances at slot 1.
abbrev batch : U256 → BatchInputV5
batch fee = record default_input {
  policy = record default_policy {
    exit = some (record {
      queue_contract = 50;
      count_slot = 0;
      records_base_slot = 1;
      assets = record { asset = 9; kind = 1; token = 60; balance_slot = 1 } ∷ [];
      fallback_recipient = 70;
    });
  };
  admissions = admission fee ∷ [];
  deposits = deposit 4 0 false ∷ deposit 5 9 false ∷ deposit 6 0 true ∷ [];
}

abbrev state_of : U256 → U256 → StateMap
state_of native token = record {
  accounts =
      (12, record { nonce = 0; balance = native; code = []; storage = [] })
      ∷ (
        60,
        record {
          nonce = 1;
          balance = 0;
          code = 1 ∷ [];
          storage = (mapping_slot_v5 12 1, token) ∷ [];
        },
      )
      ∷ [];
  block_hashes = [];
  access_accounts = none;
  access_storage = none;
  access_violation = none;
  prepared_code = [];
  prepared_code_addresses = [];
}

batch_credited : apply_deposit_credits_v5 (batch 3) (state_of 5 6) ≡ ok (state_of 42 46)
unfolding apply_deposit_credits_v5 apply_deposit_credits apply_deposit_credit admission_fees
    credit_native token_binding credit_token checked_add_v5 mapping_slot_v5 read_storage_v5 evaluate
batch_credited = refl

-- Fees above the deposit refuse the batch.
overcharged : apply_deposit_credits_v5 (batch 41) (state_of 5 6) ≡ err fees_exceed_deposit
unfolding apply_deposit_credits_v5 apply_deposit_credits apply_deposit_credit admission_fees
    credit_native token_binding credit_token checked_add_v5 mapping_slot_v5 read_storage_v5 evaluate
overcharged = refl

apply_deposit_credits_v5-credits_example :
    All (IsCovered (batch 3)) (batch 3).deposits
    × ((a : Address)
        → balance (state_of 42 46) a
          ≡ balance (state_of 5 6) a + sum_by (native_credit (batch 3) a) (batch 3).deposits)
    × ((a : Address) (s : U256)
        → word (state_of 42 46) a s
          ≡ word (state_of 5 6) a s + sum_by (token_credit (batch 3) a s) (batch 3).deposits)
apply_deposit_credits_v5-credits_example =
    apply_deposit_credits_v5-credits (batch 3) (state_of 5 6) (state_of 42 46) batch_credited
