-- ===== src/StfTypes/Limits.antt =====
-- The resource bounds of zkvm/crates/stf-types/src/limits.rs that the modelled code reads.
use zkdeal_prover.Prelude.{ℕ, ◌*◌}

abbrev pub max_positional_capacity_v5 : ℕ
max_positional_capacity_v5 = 256

abbrev pub max_withdrawal_capacity_v5 : ℕ
max_withdrawal_capacity_v5 = 32_768

abbrev pub max_compact_proof_nodes_v4 : ℕ
max_compact_proof_nodes_v4 = 4_096

abbrev pub max_exit_assets_v5 : ℕ
max_exit_assets_v5 = 256

abbrev pub max_compact_accounts_v4 : ℕ
max_compact_accounts_v4 = 128

abbrev pub max_compact_storage_slots_v4 : ℕ
max_compact_storage_slots_v4 = 2_048

abbrev pub max_compact_code_bytes_v4 : ℕ
max_compact_code_bytes_v4 = 2 * 1024 * 1024

abbrev pub max_batch_witness_bytes_v4 : ℕ
max_batch_witness_bytes_v4 = 8 * 1024 * 1024

abbrev pub batch_journal_version_v6 : ℕ
batch_journal_version_v6 = 6

abbrev pub journal_version : ℕ
journal_version = 2
