-- ===== src/TxEnv/Tests.antt =====
-- A concrete transaction, and the theorem at it.
use zkdeal_prover.Prelude.{◌-◌, ◌^◌, ◌≤◌, ◌≡◌, ◌≢◌, refl, none, some, [], ◌∷◌, ok, err}
use zkdeal_prover.TxEnv.{
  TxEnvelope, Envelopes, TxEnv, tx_env_from_raw, is_blob_or_set_code, validate_envelope,
  tx_env_from_raw-policy, trailing_bytes, blob_or_set_code,
}

abbrev envelope : TxEnvelope
envelope = record {
  tx_type = 2;
  nonce = 4;
  gas_limit = 21000;
  max_fee_per_gas = 0;
  max_priority_fee_per_gas = some 0;
  access_list = none;
  signature = [];
  chain_id = some 7;
  kind = some 50;
  value = 3;
  input = [];
}

-- A decoder that takes one byte.
abbrev envelopes : Envelopes
envelopes = record {
  decode_2718 = λ raw. elim raw [ [] ↦ none | byte ∷ bytes ↦ some (envelope, bytes) ];
  recover_signer = λ envelope'. some 21;
}

abbrev tx : TxEnv
tx = record {
  tx_type = 2;
  caller = 21;
  gas_limit = 21000;
  gas_price = 0;
  access_list = [];
  kind = some 50;
  value = 3;
  call_data = [];
  nonce = 4;
  chain_id = some 7;
  gas_priority_fee = some 0;
}

tx_taken : tx_env_from_raw envelopes (2 ∷ []) 7 ≡ ok tx
unfolding tx_env_from_raw is_blob_or_set_code validate_envelope
tx_taken = refl

tail_refused : tx_env_from_raw envelopes (2 ∷ 0 ∷ []) 7 ≡ err trailing_bytes
unfolding tx_env_from_raw is_blob_or_set_code validate_envelope
tail_refused = refl

blob_refused : tx_env_from_raw envelopes (3 ∷ []) 7 ≡ err blob_or_set_code
unfolding tx_env_from_raw is_blob_or_set_code validate_envelope
blob_refused = refl

tx_env_from_raw-policy_example :
    (tx.tx_type ≤ 2)
    × (tx.chain_id ≡ some 7)
    × (tx.gas_price ≡ 0)
    × (tx.nonce ≢ 2 ^ 64 - 1)
    × ((e : TxEnvelope) × (envelopes.decode_2718 (2 ∷ []) ≡ some (e, []))
        × (envelopes.recover_signer e ≡ some tx.caller))
tx_env_from_raw-policy_example = tx_env_from_raw-policy envelopes (2 ∷ []) 7 tx tx_taken
