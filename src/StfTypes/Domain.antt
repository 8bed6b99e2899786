-- ===== src/StfTypes/Domain.antt =====
-- The deployment-scoped chain id of a room: zkvm/crates/stf-types/src/domain.rs.
use zkdeal_prover.Prelude.{ℕ, ◌+◌, ◌/◌, ◌^◌, ◌<◌, ◌≤◌, [], ◌∷◌, ◌++◌, replicate, arith}
use zkdeal_prover.StfTypes.Scalars.{B256, Bytes}
use zkdeal_prover.StfTypes.Abi.{Keccak, b256_bytes}
use zkdeal_prover.Words.{be_bytes}

-- The bytes of "RoomChainIdV5(bytes32 deploymentDomain,uint256 roomId)".
abbrev pub room_chain_id_tag : Bytes
room_chain_id_tag =
    82 ∷ 111 ∷ 111 ∷ 109 ∷ 67 ∷ 104 ∷ 97 ∷ 105 ∷ 110 ∷ 73 ∷ 100 ∷ 86 ∷ 53 ∷ 40 ∷ 98 ∷ 121 ∷ 116
    ∷ 101 ∷ 115 ∷ 51 ∷ 50 ∷ 32 ∷ 100 ∷ 101 ∷ 112 ∷ 108 ∷ 111 ∷ 121 ∷ 109 ∷ 101 ∷ 110 ∷ 116 ∷ 68
    ∷ 111 ∷ 109 ∷ 97 ∷ 105 ∷ 110 ∷ 44 ∷ 117 ∷ 105 ∷ 110 ∷ 116 ∷ 50 ∷ 53 ∷ 54 ∷ 32 ∷ 114 ∷ 111 ∷ 111
    ∷ 109 ∷ 73 ∷ 100 ∷ 41 ∷ []

module _ ⦃keccak : Keccak⦄ where
  -- The first eight bytes of the digest, shifted right by 14, are below 2^50, so that the bit 50 that
  -- `|` sets is added.
  unfoldable pub room_chain_id_v5 : B256 → ℕ → ℕ
  room_chain_id_v5 deployment_id room_id =
      let digest = keccak.keccak256 (
        b256_bytes (keccak.keccak256 room_chain_id_tag)
        ++ (b256_bytes deployment_id ++ (replicate 24 0 ++ be_bytes 8 room_id))) in
      digest / 2 ^ 192 / 2 ^ 14 + 2 ^ 50

  -- Every room's chain id has exactly 51 bits.
  room_chain_id_v5_bounds :
      (deployment_id : B256) (room_id : ℕ)
      → (2 ^ 50 ≤ room_chain_id_v5 deployment_id room_id)
        × (room_chain_id_v5 deployment_id room_id < 2 ^ 51)
  unfolding room_chain_id_v5
  room_chain_id_v5_bounds deployment_id room_id =
      let bound = keccak.keccak256_bounds (
        b256_bytes (keccak.keccak256 room_chain_id_tag)
        ++ (b256_bytes deployment_id ++ (replicate 24 0 ++ be_bytes 8 room_id))) in
      (omega arith, omega (arith, bound))
