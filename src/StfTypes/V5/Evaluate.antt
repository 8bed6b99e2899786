-- ===== src/StfTypes/V5/Evaluate.antt =====
-- One name for the commitments' definitions, for tests that evaluate them: to unfold `evaluate` is
-- to unfold all that its line lists.
use zkdeal_prover.Prelude.Map.{lookup, insert, remove}
use zkdeal_prover.Words.{
  be_bytes, is_power_of_two, power_of_two_within, next_power_of_two, smallest_power,
}
use zkdeal_prover.StfTypes.Abi.{
  abi_u64_word_v5, abi_bool_word_v5, abi_address_word_v5, abi_u256_word_v5, b256_bytes,
  concat_words, keccak_words_v5,
}
use zkdeal_prover.StfTypes.Abi.Sample.{read_bytes}
use zkdeal_prover.StfTypes.V5.Hash.{
  inbox_records_hash_v5, liabilities_hash_v5, withdrawal_leaf_v5, roster_leaf,
  roster_changes_hash_v5,
}
use zkdeal_prover.StfTypes.Levels.{fold_levels, next_level}
use zkdeal_prover.StfTypes.V5.Trees.{
  withdrawal_root_v5, roster_root_v5, place_withdrawals, place_members, node_hash,
}

unfoldable pub evaluate : Unit {0}
unfolding lookup insert remove be_bytes is_power_of_two power_of_two_within next_power_of_two
    smallest_power abi_u64_word_v5 abi_bool_word_v5 abi_address_word_v5 abi_u256_word_v5 b256_bytes
    concat_words keccak_words_v5 read_bytes inbox_records_hash_v5 liabilities_hash_v5
    withdrawal_leaf_v5 roster_leaf roster_changes_hash_v5 withdrawal_root_v5 roster_root_v5
    place_withdrawals place_members fold_levels next_level node_hash
evaluate = tt
