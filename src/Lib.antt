-- ===== src/Lib.antt =====
-- A model of the zkdeal prover's state-transition function for long-lived rooms.
--
-- A room is a small EVM rollup whose escrow lives on L1. One batch of it is a journal (the
-- public statement) and a private witness; the guest program recomputes everything that the
-- journal says and refuses the batch otherwise. The engine is zkvm/crates/stf-core/src/room_v5.
-- Around the EVM execution it credits the deposits that the batch consumes, checks the escrow
-- accounting of every asset, checks the roster of approvers with its queued additions and
-- removals, mirrors authenticated L1 storage into the room, checks the operator's receipts and
-- the forced transactions, and in rooms without approvers derives every withdrawal from the
-- proved state of a queue contract.
--
-- Where the code is modelled:
--   StfTypes           zkvm/crates/stf-types/src: the records of v5/types.rs (StfTypes/V5/Witness,
--                      Policy, Journal, Input), the ABI words of abi.rs (StfTypes/Abi), the list
--                      commitments and the trees of v5/hash.rs (StfTypes/V5/Hash, Imported,
--                      Trees), batch_data.rs and domain.rs (StfTypes/BatchData, Domain), the
--                      aggregates of hosting.rs (StfTypes/Hosting/Aggregate) and its blobs
--                      (StfTypes/Hosting/Blob)
--   State              zkvm/crates/stf-core/src/db: the records of mod.rs, how a state is built and
--                      prepared (State/Install), what revm reads and commits by evm.rs (State/Read,
--                      State/Commit), the two state roots of roots.rs (State/Roots)
--   Compact            zkvm/crates/stf-core/src/compact.rs: verify_compact_state_v4
--   Policy             zkvm/crates/stf-core/src/policy: the schema of mod.rs, from_v5 (Policy/FromV5),
--                      the checks of enforce.rs (Policy/Enforce, Policy/Calls) and the entry test of
--                      inspector.rs (Policy/Calls); the policy's hash stands in StfTypes/V5/PolicyHash
--   StfError           zkvm/crates/stf-core/src/error.rs
--   Block              zkvm/crates/stf-core/src/block.rs: execute_block_on_state and what it calls
--   RoomV5/Batch       room_v5/mod.rs: execute_batch_v5, which composes all of the others, with
--                      execute_cold_template_v5 and derive_forced_rejection_reason_v5
--   RoomV5/Liabilities room_v5/liabilities.rs: apply_deposit_credits_v5, validate_liabilities_v5
--   RoomV5/Exit        room_v5/exit.rs: read_exit_records_v5, derive_close_sweep_v5,
--                      withdrawal_tree_capacity_v5 and what they call; validate_exit_v5 stands in
--                      RoomV5/Exit/Allocation
--   RoomV5/Roster      room_v5/roster.rs: active_roster_map_v5, validate_roster_transition_v5
--   RoomV5/Import      room_v5/import.rs: verify_and_apply_import_v5 with its storage mirrors, and
--                      participant_state_v5
--   RoomV5/Admission   room_v5/admission.rs: validate_admissions_v5 and forced_rejection_reason_v5;
--                      validate_processed_outcome_v5 stands in RoomV5/Executed
--   TxEnv              zkvm/crates/stf-core/src/txenv.rs: tx_env_from_raw
--   RoomV5/Storage     mapping_slot_v5 and read_storage_v5 of room_v5/exit.rs
-- Prelude and Words are the shared vocabulary: Boolean tests, lists, results, finite maps, checked
-- u64 and U256 arithmetic, big-endian bytes.
--
-- A function keeps the name that it has in the source; a loop is a function of its own. A
-- record keeps the field names. The data of a StfError::LongLivedRoom is its message, so each
-- message is a constructor of RoomV5/Refusal, and a fallible function returns a Result. A
-- mutable argument is passed in and returned. A BTreeMap is an association list with ascending
-- keys, a BTreeSet an ascending list.
--
-- Numbers are the native natural numbers. u64 and U256 values stand for themselves; every
-- checked addition, subtraction and multiplication of the source is one here, with its bound 2
-- ^ 64 or 2 ^ 256, and the one saturating addition of the import is one too. An address is a
-- number below 2 ^ 160 and a hash one below 2 ^ 256, so the zero address is 0. `len() as u64`
-- counts list cells.
--
-- The width of `usize` is an argument of the blob functions of StfTypes/Hosting/Blob, whose product
-- wraps around; elsewhere `usize` has 64 bits.
--
-- Keccak-256 is a third-party function: the record Keccak of StfTypes/Abi is its interface, a
-- function from bytes to digests below 2 ^ 256, and each definition takes an instance of it. No
-- theorem assumes that it is free of collisions.
--
-- The other packages are interfaces in the same way: Trie (alloy-trie and alloy-rlp on account
-- leaves), Envelopes of TxEnv (alloy-consensus), Rlp of StfTypes/BatchData (alloy-rlp), Bytecodes of
-- State/Install, Evm of Block (revm) and ScalarField of StfTypes/Hosting/Blob (bls12_381). Evm is a
-- function from a policy, a block environment, a state and a transaction to the changes that revm
-- hands to DatabaseCommit, the gas, and the violation that the inspector of the policy latched; the
-- commit of those changes is the repository's own code and is modelled. Machine of Block holds Trie,
-- Envelopes, Rlp, Bytecodes and Evm, of which no theorem assumes anything. Of scalars it is assumed
-- that a number below 2 ^ 248 is the canonical form of one, and that a scalar is written as the number
-- that it was read from.
--
-- Loops are structural, with three exceptions. fold_levels takes the capacity of its tree as its
-- number of rounds: each round halves the level, so a capacity of 2 ^ k leaves is done after k + 1
-- rounds. is_power_of_two and next_power_of_two make at most one step for each of the 64 bits of the
-- argument.
--
-- Not modelled: the EVM itself (revm) and the callbacks by which the policy inspector watches
-- nested calls in it, Merkle-Patricia proofs (alloy-trie), signatures, proof-work counters, the v4
-- batches, their settlement and the v4 policy constructor, the opening of a blob in
-- stf-types/src/hosting.rs (its challenge, evaluation and witness), the wire codecs, the risc0 and
-- Ligetron hosts, vendored code, and the TypeScript agent and scripts.
--
pub mod Prelude
pub mod Words
pub mod StfTypes
pub mod State
pub mod TxEnv
pub mod Trie
pub mod Compact
pub mod Policy
pub mod StfError
pub mod Block
pub mod RoomV5
