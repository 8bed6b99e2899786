-- ===== src/StfTypes/V5/PolicyHash.antt =====
-- The commitment to the certified policy: `execution_policy_hash_v5` of
-- zkvm/crates/stf-types/src/v5/hash.rs.
use zkdeal_prover.Prelude.{ℕ, Bool, Option, none, some, List, [], ◌∷◌, ◌++◌, length, if◌then◌else◌}
use zkdeal_prover.Words.{be_bytes}
use zkdeal_prover.StfTypes.Scalars.{B256, Bytes}
use zkdeal_prover.StfTypes.Abi.{Keccak, b256_bytes}
use zkdeal_prover.StfTypes.V5.Policy.{
  CertifiedImportBindingV5, CodeCommitmentV5, CallRuleV5, StorageNamespaceV5,
  ParticipantRegistryBindingV5, ExitAssetBindingV5, ExitBindingV5, ExecutionPolicyV5,
}

-- The bytes of "zkdeal/execution-policy/v5".
abbrev pub execution_policy_tag : Bytes
execution_policy_tag =
    122 ∷ 107 ∷ 100 ∷ 101 ∷ 97 ∷ 108 ∷ 47 ∷ 101 ∷ 120 ∷ 101 ∷ 99 ∷ 117 ∷ 116 ∷ 105 ∷ 111 ∷ 110 ∷ 45
    ∷ 112 ∷ 111 ∷ 108 ∷ 105 ∷ 99 ∷ 121 ∷ 47 ∷ 118 ∷ 53 ∷ []

-- `u8::from(flag)`
abbrev pub flag_byte : Bool → ℕ
flag_byte flag = if flag then 1 else 0

-- The entries of a list in a row, behind its length as eight bytes.
unfoldable pub encode_all {ℓ} : {A : Type ℓ} → (A → Bytes) → List A → Bytes
encode_all encode [] = []
encode_all encode (x ∷ xs) = encode x ++ encode_all encode xs

unfoldable pub encode_list {ℓ} : {A : Type ℓ} → (A → Bytes) → List A → Bytes
unfolding encode_all
encode_list encode xs = be_bytes 8 (length xs) ++ encode_all encode xs

unfoldable pub encode_code : CodeCommitmentV5 → Bytes
encode_code code = be_bytes 20 code.address ++ b256_bytes code.runtime_code_hash

unfoldable pub encode_call : CallRuleV5 → Bytes
unfolding encode_list
encode_call call =
    be_bytes 20 call.caller
    ++ (be_bytes 20 call.target
        ++ (encode_list (be_bytes 4) call.selectors ++ encode_list (be_bytes 1) call.kinds))

unfoldable pub encode_namespace : StorageNamespaceV5 → Bytes
encode_namespace namespace =
    be_bytes 20 namespace.contract
    ++ (be_bytes 32 namespace.slot_prefix
        ++ (be_bytes 2 namespace.prefix_bits ++ be_bytes 1 (flag_byte namespace.writable)))

unfoldable pub encode_import : CertifiedImportBindingV5 → Bytes
encode_import binding =
    b256_bytes binding.adapter_id
    ++ (b256_bytes binding.adapter_version
        ++ (be_bytes 20 binding.source
            ++ (be_bytes 32 binding.source_key
                ++ (be_bytes 20 binding.room_contract ++ be_bytes 32 binding.room_slot))))

unfoldable pub encode_registry : Option ParticipantRegistryBindingV5 → Bytes
encode_registry none = be_bytes 1 0
encode_registry (some binding) =
    be_bytes 1 1
    ++ (be_bytes 20 binding.contract
        ++ (be_bytes 32 binding.root_slot
            ++ (be_bytes 32 binding.epoch_slot
                ++ (be_bytes 32 binding.count_slot ++ be_bytes 32 binding.capacity_slot))))

unfoldable pub encode_exit_asset : ExitAssetBindingV5 → Bytes
encode_exit_asset asset =
    be_bytes 20 asset.asset
    ++ (be_bytes 1 asset.kind ++ (be_bytes 20 asset.token ++ be_bytes 32 asset.balance_slot))

-- A policy without an exit binding appends nothing.
unfoldable pub encode_exit : Option ExitBindingV5 → Bytes
unfolding encode_list encode_exit_asset
encode_exit none = []
encode_exit (some exit) =
    be_bytes 1 1
    ++ (be_bytes 20 exit.queue_contract
        ++ (be_bytes 32 exit.count_slot
            ++ (be_bytes 32 exit.records_base_slot
                ++ (encode_list (λ asset. encode_exit_asset asset) exit.assets
                    ++ be_bytes 20 exit.fallback_recipient))))

-- The bytes that are hashed, behind the tag.
unfoldable pub encode_policy : ExecutionPolicyV5 → Bytes
unfolding encode_list encode_code encode_call encode_namespace encode_import encode_registry
    encode_exit
encode_policy policy =
    be_bytes 1 policy.state_commitment
    ++ (be_bytes 8 policy.max_blocks_per_batch
        ++ (be_bytes 8 policy.max_transactions_per_block
            ++ (be_bytes 8 policy.max_gas_per_block
                ++ (be_bytes 8 policy.max_memory_bytes
                    ++ (be_bytes 1 (flag_byte policy.allow_contract_creation)
                        ++ (be_bytes 1 (flag_byte policy.allow_self_destruct)
                            ++ (encode_list (λ code. encode_code code) policy.code
                                ++ (encode_list (λ call. encode_call call) policy.calls
                                    ++ (encode_list (λ namespace. encode_namespace namespace)
                                          policy.storage
                                        ++ (encode_list (λ binding. encode_import binding)
                                              policy.imports
                                            ++ (encode_registry policy.participant_registry
                                                ++ encode_exit policy.exit)))))))))))

unfoldable pub execution_policy_hash_v5 : ⦃keccak : Keccak⦄ → ExecutionPolicyV5 → B256
unfolding encode_policy
execution_policy_hash_v5 ⦃keccak⦄ policy =
    keccak.keccak256 (execution_policy_tag ++ encode_policy policy)
