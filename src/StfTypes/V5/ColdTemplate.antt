-- ===== src/StfTypes/V5/ColdTemplate.antt =====
-- The registration of a room template on L1: ColdTemplateInputV5 of zkvm/crates/stf-types/src/v5/types.rs,
-- its identity and its statement of v5/hash.rs.
use zkdeal_prover.Prelude.{◌*◌, ◌-◌, [], ◌∷◌, ◌++◌, length, replicate}
use zkdeal_prover.StfTypes.Scalars.{B256, Bytes}
use zkdeal_prover.StfTypes.Abi.{Keccak, b256_bytes, abi_u64_word_v5}
use zkdeal_prover.StfTypes.Compact.{CompactStateWitnessV4}
use zkdeal_prover.StfTypes.V5.Policy.{ExecutionPolicyV5}

pub record ColdTemplateInputV5 : Type 0 where
  pub template_id : B256
  pub initial_state_root : B256
  pub policy_hash : B256
  pub proof_program_id : B256
  pub proof_system_version : B256
  pub policy : ExecutionPolicyV5
  pub compact_state : CompactStateWitnessV4

-- The bytes of "zkdeal/cold-template-id/v5".
abbrev pub cold_template_id_tag : Bytes
cold_template_id_tag =
    122 ∷ 107 ∷ 100 ∷ 101 ∷ 97 ∷ 108 ∷ 47 ∷ 99 ∷ 111 ∷ 108 ∷ 100 ∷ 45 ∷ 116 ∷ 101 ∷ 109 ∷ 112 ∷ 108
    ∷ 97 ∷ 116 ∷ 101 ∷ 45 ∷ 105 ∷ 100 ∷ 47 ∷ 118 ∷ 53 ∷ []

-- The bytes of "zkdeal/cold-template/v6".
abbrev pub cold_template_label : Bytes
cold_template_label =
    122 ∷ 107 ∷ 100 ∷ 101 ∷ 97 ∷ 108 ∷ 47 ∷ 99 ∷ 111 ∷ 108 ∷ 100 ∷ 45 ∷ 116 ∷ 101 ∷ 109 ∷ 112 ∷ 108
    ∷ 97 ∷ 116 ∷ 101 ∷ 47 ∷ 118 ∷ 54 ∷ []

module _ ⦃keccak : Keccak⦄ where
  unfoldable pub cold_template_id_v5 : B256 → B256 → B256 → B256
  cold_template_id_v5 initial_state_root policy_hash proof_system_version = keccak.keccak256 (
      b256_bytes (keccak.keccak256 cold_template_id_tag)
      ++ (b256_bytes initial_state_root
          ++ (b256_bytes policy_hash ++ b256_bytes proof_system_version)))

  unfoldable pub cold_template_statement_v6 : ColdTemplateInputV5 → B256 → B256
  cold_template_statement_v6 input genesis_data_hash = keccak.keccak256 (
      abi_u64_word_v5 (32 * 7)
      ++ (b256_bytes input.template_id
          ++ (b256_bytes input.initial_state_root
              ++ (b256_bytes input.policy_hash
                  ++ (b256_bytes input.proof_program_id
                      ++ (b256_bytes input.proof_system_version
                          ++ (b256_bytes genesis_data_hash
                              ++ (abi_u64_word_v5 (length cold_template_label)
                                  ++ (cold_template_label
                                      ++ replicate (32 - length cold_template_label) 0)))))))))
