-- ===== src/RoomV5/Refusal.antt =====
-- The refusals of zkvm/crates/stf-core/src/room_v5, the texts under `StfError::LongLivedRoom`:
-- one constructor for each message, without the values that a message interpolates.

pub data Refusal : Type 0 where
  -- liabilities.rs
  admission_fee_total_overflow fees_exceed_deposit beneficiary_outside_envelope : Refusal
  beneficiary_balance_overflow no_token_binding token_balance_overflow token_account_absent :
      Refusal
  unprovable_without_exit_binding liability_preimages_differ inbox_records_differ : Refusal
  inbox_id_overflow malformed_deposit deposit_total_overflow inbox_cursor_overflow : Refusal
  inbox_cursor_differs withdrawal_total_overflow invalid_withdrawal_tree withdrawal_tree_differs :
      Refusal
  liabilities_not_aligned deposit_exceeds_pending claimable_overflow controlled_overflow : Refusal
  withdrawal_exceeds_controlled liabilities_not_conserved close_leaves_controlled : Refusal
  unsupported_asset : Refusal
  -- exit.rs
  storage_outside_envelope wider_than_address exit_count_exceeds_u64 exit_slot_overflow : Refusal
  malformed_exit_record exit_capacity_exceeded unknown_exit_kind sweep_total_overflow : Refusal
  sweep_share_overflow sweep_distributed_overflow sweep_exceeds_residual exit_count_regressed :
      Refusal
  exit_total_overflow exit_records_exceed_controlled withdrawals_not_derived : Refusal
  -- roster.rs
  invalid_roster_preimage roster_root_differs duplicate_member approvers_in_validity_room : Refusal
  unknown_authorization_mode active_count_differs roster_cursor_backwards roster_changes_differ :
      Refusal
  roster_epoch_overflow roster_epoch_differs request_id_overflow invalid_request : Refusal
  invalid_add remove_inactive remove_differs no_withdrawal_allocation invalid_allocation : Refusal
  unknown_action post_roster_differs : Refusal
  -- import.rs
  import_fields_without_witness import_metadata_differs account_proof_too_large : Refusal
  account_proof_invalid storage_keys_unsorted proof_nodes_overflow storage_proof_too_large : Refusal
  storage_proof_invalid storage_keys_differ mirrors_incomplete mirror_differs : Refusal
  mirror_key_absent mirror_outside_envelope mirror_contract_absent : Refusal
  no_participant_registry registry_contract_absent registry_exceeds_u64 registry_invalid : Refusal
  -- admission.rs
  rejected_outcome_invalid processed_outcome_invalid block_absent transaction_absent : Refusal
  outcome_differs admission_cursor_backwards admission_records_differ : Refusal
  forced_cursor_backwards forced_outcomes_differ admissions_in_unanimous_room : Refusal
  unknown_admission_mode canonical_data_differs admission_id_overflow : Refusal
  admission_receipt_invalid unfunded_admission_charged deposit_hash_omitted : Refusal
  admission_deposit_differs rejected_yet_executed forced_id_overflow forced_identity_invalid :
      Refusal
  forced_executable forced_reason_differs : Refusal
  -- mod.rs
  template_identity_invalid template_state_incomplete batch_identity_invalid : Refusal
  cold_template_differs block_count_invalid block_range_overflow block_range_differs : Refusal
  incomplete_prestate opening_registry_differs no_signed_caller block_height_overflow : Refusal
  timestamp_precedes environment_differs intermediate_root_differs : Refusal
  terminal_state_differs closing_registry_differs : Refusal
  -- room_state_root_v5 of block.rs
  unknown_state_commitment : Refusal
