-- ===== src/TxEnv.antt =====
-- The room's transaction policy: zkvm/crates/stf-core/src/txenv.rs.
mod Tests
use zkdeal_prover.Prelude.{
  ℕ, ◌-◌, ◌^◌, ◌≤◌, ◌≡◌, ◌≢◌, refl, ap, ◌∙◌, Bool, true, false, not, ◌&&◌, ◌||◌, Option, none, some,
  List, [], ◌∷◌, ltb, leb, ◌==◌, ◌!=◌, if◌then◌else◌, is_some_and, is_empty, is_empty-eq-nil, arith,
  Result, ok, err, ◌>>=◌, ◌>>◌, reject_if, ok_or, Option-cases, inl, inr,
}
use zkdeal_prover.StfTypes.Scalars.{Address, U256, Bytes}

-- One constructor for each refusal of the function.
pub data TxRefusal : Type 0 where
  blob_or_set_code undecodable trailing_bytes unsupported_type reserved_nonce gas_price_set :
      TxRefusal
  priority_fee_set chain_id_absent chain_id_differs signer_unrecoverable : TxRefusal

-- What the function reads of alloy's TxEnvelope. A `kind` of `none` is a creation. The access list is
-- handed on to the EVM and read by no modelled code.
pub record TxEnvelope : Type 0 where
  pub tx_type : ℕ
  pub nonce : ℕ
  pub gas_limit : ℕ
  pub max_fee_per_gas : ℕ
  pub max_priority_fee_per_gas : Option ℕ
  pub chain_id : Option ℕ
  pub kind : Option Address
  pub value : U256
  pub input : Bytes
  pub access_list : Option (List (Address × List U256))
  pub signature : Bytes

-- The decoder of alloy-consensus, which returns the envelope and the bytes behind it, and its
-- recovery of the signer. Nothing is assumed of them.
pub record Envelopes : Type 0 where
  pub decode_2718 : Bytes → Option (TxEnvelope × Bytes)
  pub recover_signer : TxEnvelope → Option Address

pub record TxEnv : Type 0 where
  pub tx_type : ℕ
  pub caller : Address
  pub gas_limit : ℕ
  pub gas_price : ℕ
  pub kind : Option Address
  pub value : U256
  pub call_data : Bytes
  pub nonce : ℕ
  pub chain_id : Option ℕ
  pub access_list : List (Address × List U256)
  pub gas_priority_fee : Option ℕ

-- `matches!(raw.first(), Some(0x03 | 0x04))`
unfoldable pub is_blob_or_set_code : Bytes → Bool
is_blob_or_set_code [] = false
is_blob_or_set_code (byte ∷ bytes) = byte == 3 || byte == 4

-- The tests on a decoded envelope: its type, its nonce, the fees and the chain id. Legacy, EIP-2930
-- and EIP-1559 have the types 0, 1 and 2.
unfoldable pub validate_envelope : ℕ → TxEnvelope → Result TxRefusal (Unit {0})
validate_envelope expected_chain_id envelope = do
  reject_if (ltb 2 envelope.tx_type) unsupported_type
  reject_if (envelope.nonce == 2 ^ 64 - 1) reserved_nonce
  reject_if (envelope.max_fee_per_gas != 0) gas_price_set
  reject_if (is_some_and envelope.max_priority_fee_per_gas (λ fee. fee != 0)) priority_fee_set
  id ← ok_or envelope.chain_id chain_id_absent
  reject_if (id != expected_chain_id) chain_id_differs

unfoldable pub tx_env_from_raw : Envelopes → Bytes → ℕ → Result TxRefusal TxEnv
unfolding is_blob_or_set_code validate_envelope
tx_env_from_raw envelopes raw expected_chain_id = do
  reject_if (is_blob_or_set_code raw) blob_or_set_code
  decoded ← ok_or (envelopes.decode_2718 raw) undecodable
  reject_if (not (is_empty decoded.1)) trailing_bytes
  validate_envelope expected_chain_id decoded.0
  caller ← ok_or (envelopes.recover_signer decoded.0) signer_unrecoverable
  ok (record {
    tx_type = decoded.0.tx_type;
    caller = caller;
    gas_limit = decoded.0.gas_limit;
    gas_price = decoded.0.max_fee_per_gas;
    kind = decoded.0.kind;
    value = decoded.0.value;
    call_data = decoded.0.input;
    nonce = decoded.0.nonce;
    chain_id = decoded.0.chain_id;
    access_list = elim decoded.0.access_list [ none ↦ [] | some list ↦ list ];
    gas_priority_fee = decoded.0.max_priority_fee_per_gas;
  })

-- A transaction that is taken is a legacy, EIP-2930 or EIP-1559 one for the expected chain, pays no
-- gas price, and does not use the last nonce; its bytes are an envelope with nothing behind it, whose
-- signer is the caller.
pub tx_env_from_raw-policy :
    (envelopes : Envelopes) (raw : Bytes) (chain_id : ℕ) (tx : TxEnv)
    → tx_env_from_raw envelopes raw chain_id ≡ ok tx
    → (tx.tx_type ≤ 2)
      × (tx.chain_id ≡ some chain_id)
      × (tx.gas_price ≡ 0)
      × (tx.nonce ≢ 2 ^ 64 - 1)
      × ((envelope : TxEnvelope) × (envelopes.decode_2718 raw ≡ some (envelope, []))
          × (envelopes.recover_signer envelope ≡ some tx.caller))
unfolding tx_env_from_raw validate_envelope
tx_env_from_raw-policy envelopes raw chain_id tx h =
    elim (Option-cases (envelopes.decode_2718 raw)) [
      | inl absent ↦ absurd (ground arith)
      | inr (decoded, found) ↦ elim (Option-cases (envelopes.recover_signer decoded.0)) [
        | inl absent ↦ absurd (ground arith)
        | inr (caller, recovered) ↦ elim (Option-cases decoded.0.chain_id) [
          | inl absent ↦ absurd (ground arith)
          | inr (id, named) ↦ (
            ground arith,
            ground (arith, named),
            ground arith,
            ground arith,
            (
              decoded.0,
              found
                  ∙ ap (λ (rest : Bytes). some (decoded.0, rest))
                      (is_empty-eq-nil decoded.1 (ground arith)),
              ground (arith, recovered),
            ),
          )
        ]
      ]
    ]
