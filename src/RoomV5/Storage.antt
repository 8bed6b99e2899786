-- ===== src/RoomV5/Storage.antt =====
-- The state access of zkvm/crates/stf-core/src/room_v5/exit.rs: mapping slots and guarded reads.
use zkdeal_prover.Prelude.{◌++◌, replicate, Result, ok, err, if◌then◌else◌}
use zkdeal_prover.Prelude.Map.{lookup}
use zkdeal_prover.StfTypes.Scalars.{Address, U256}
use zkdeal_prover.StfTypes.Abi.{Keccak}
use zkdeal_prover.State.{StateMap, outside_envelope, stored_word}
use zkdeal_prover.Words.{be_bytes}
use zkdeal_prover.RoomV5.Refusal.{Refusal, storage_outside_envelope}

-- The slot of `mapping[account]` for a Solidity mapping at `slot`.
unfoldable pub mapping_slot_v5 : ⦃keccak : Keccak⦄ → Address → U256 → U256
mapping_slot_v5 ⦃keccak⦄ account slot =
    keccak.keccak256 (replicate 12 0 ++ be_bytes 20 account ++ be_bytes 32 slot)

unfoldable pub read_storage_v5 : StateMap → Address → U256 → Result Refusal U256
read_storage_v5 state address slot =
    if outside_envelope state address slot
    then err storage_outside_envelope
    else ok (stored_word (lookup address state.accounts) slot)
