-- ===== src/StfTypes/V5/Journal.antt =====
-- The public journal of a batch, from zkvm/crates/stf-types/src/v5/types.rs.
use zkdeal_prover.Prelude.{ℕ, Bool}
use zkdeal_prover.StfTypes.Scalars.{B256}

pub record BatchJournalV5 : Type 0 where
  pub protocol_version : ℕ
  pub deployment_domain : B256
  pub room_id : ℕ
  pub authorization_mode : ℕ
  pub cold_template_id : B256
  pub proof_program_id : B256
  pub proof_system_version : B256
  pub policy_hash : B256
  pub batch_index : ℕ
  pub start_l2_block : ℕ
  pub end_l2_block : ℕ
  pub pre_state_root : B256
  pub post_state_root : B256
  pub batch_data_hash : B256
  pub canonical_data_hash : B256
  pub pre_participant_root : B256
  pub post_participant_root : B256
  pub pre_participant_epoch : ℕ
  pub post_participant_epoch : ℕ
  pub pre_participant_count : ℕ
  pub post_participant_count : ℕ
  pub participant_capacity : ℕ
  pub pre_roster_root : B256
  pub post_roster_root : B256
  pub pre_roster_epoch : ℕ
  pub post_roster_epoch : ℕ
  pub pre_active_count : ℕ
  pub post_active_count : ℕ
  pub roster_change_cursor_before : ℕ
  pub roster_change_cursor_after : ℕ
  pub inbox_cursor_before : ℕ
  pub inbox_cursor_after : ℕ
  pub inbox_records_hash : B256
  pub admission_cursor_before : ℕ
  pub admission_cursor_after : ℕ
  pub admission_records_hash : B256
  pub forced_cursor_before : ℕ
  pub forced_cursor_after : ℕ
  pub forced_outcomes_hash : B256
  pub import_cursor_before : ℕ
  pub import_cursor_after : ℕ
  pub imported_l1_block : ℕ
  pub imported_l1_header_hash : B256
  pub imported_l1_state_root : B256
  pub import_root : B256
  pub outbox_epoch : ℕ
  pub withdrawal_root : B256
  pub pre_liabilities_hash : B256
  pub post_liabilities_hash : B256
  pub roster_changes_hash : B256
  pub l1_inclusion_deadline : ℕ
  pub close : Bool
