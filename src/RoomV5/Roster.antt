-- ===== src/RoomV5/Roster.antt =====
-- The positional approver roster and its queued transitions:
-- zkvm/crates/stf-core/src/room_v5/roster.rs.
pub mod Active
pub mod Transition
pub mod Accepted
mod Tests
use zkdeal_prover.Prelude.{
  ℕ, ◌+◌, Bool, true, false, not, ◌&&◌, ◌||◌, Option, none, some, List, [], ◌∷◌, map, ltb, leb,
  ◌==◌, ◌!=◌, if◌then◌else◌, is_none, is_empty, length, contains, any, find?, collect_set, Result,
  ok, err, ◌>>=◌, ◌>>◌, reject_if, ok_or,
}
use zkdeal_prover.Prelude.Map.{Map, lookup, insert, remove}
use zkdeal_prover.Words.{checked_add_u64, checked_sub}
use zkdeal_prover.StfTypes.Scalars.{Address, B256}
use zkdeal_prover.StfTypes.Abi.{Keccak}
use zkdeal_prover.StfTypes.V5.{
  RosterMemberV5, RosterChangeV5, WithdrawalV5, BatchJournalV5, BatchInputV5,
}
use zkdeal_prover.StfTypes.V5.Hash.{roster_changes_hash_v5, withdrawal_leaf_v5}
use zkdeal_prover.StfTypes.V5.Trees.{roster_root_v5}
use zkdeal_prover.RoomV5.Refusal.{
  Refusal, invalid_roster_preimage, roster_root_differs, duplicate_member,
  approvers_in_validity_room, unknown_authorization_mode, active_count_differs,
  roster_cursor_backwards, roster_changes_differ, roster_epoch_overflow, roster_epoch_differs,
  request_id_overflow, invalid_request, invalid_add, remove_inactive, remove_differs,
  no_withdrawal_allocation, invalid_allocation, unknown_action, post_roster_differs,
}

-- The loop that indexes the members, with the accounts seen so far.
pub index_members :
    List RosterMemberV5 → List Address → Map RosterMemberV5 → Result Refusal (Map RosterMemberV5)
index_members [] addresses by_index = ok by_index
index_members (member ∷ members) addresses by_index = do
  reject_if (contains member.member addresses || not (is_none (lookup member.index by_index)))
      duplicate_member
  index_members members (member.member ∷ addresses) (insert member.index member by_index)

same_member : RosterMemberV5 → RosterMemberV5 → Bool
same_member a b = a.index == b.index && a.member == b.member && a.joined_epoch == b.joined_epoch

-- `==` on maps of members.
pub same_members : Map RosterMemberV5 → Map RosterMemberV5 → Bool
unfolding same_member
same_members [] [] = true
same_members [] (b ∷ bs) = false
same_members (a ∷ as') [] = false
same_members ((i, a) ∷ as') ((j, b) ∷ bs) = i == j && same_member a b && same_members as' bs

-- `expected.values().any(|member| member.member == account)`
pub has_account : Address → Map RosterMemberV5 → Bool
has_account account members =
    any (λ (entry : ℕ × RosterMemberV5). entry.1.member == account) members

-- An addition takes a free index for an account that is not active yet.
pub add_member :
    BatchJournalV5 → RosterChangeV5 → Map RosterMemberV5 → Result Refusal (Map RosterMemberV5)
add_member journal change expected = do
  reject_if
      (change.member == 0
        || change.joined_epoch != journal.post_roster_epoch
        || change.withdrawal_commitment != 0
        || has_account change.member expected
        || not (is_none (lookup change.index expected)))
      invalid_add
  ok (
      insert change.index
        (record {
          index = change.index;
          member = change.member;
          joined_epoch = change.joined_epoch;
        })
        expected)

module _ ⦃keccak : Keccak⦄ where
  -- A removal names an active member, and its withdrawal is the one that was committed to.
  pub remove_member :
      BatchInputV5 → RosterChangeV5 → Map RosterMemberV5 → Result Refusal (Map RosterMemberV5)
  remove_member input change expected = do
    let journal = input.journal
    removed ← ok_or (lookup change.index expected) remove_inactive
    reject_if
        (removed.member != change.member
          || removed.joined_epoch != change.joined_epoch
          || change.withdrawal_commitment == 0)
        remove_differs
    withdrawal ←
        ok_or (find? (λ (one : WithdrawalV5). one.index == change.index) input.withdrawals)
          no_withdrawal_allocation
    reject_if
        (withdrawal.recipient != change.member
          || withdrawal.roster_epoch != journal.post_roster_epoch
          || withdrawal_leaf_v5 journal.deployment_domain journal.room_id journal.outbox_epoch
              withdrawal
            != change.withdrawal_commitment)
        invalid_allocation
    ok (remove change.index expected)

  -- The dispatch on `change.action`.
  pub apply_change :
      BatchInputV5 → RosterChangeV5 → Map RosterMemberV5 → Result Refusal (Map RosterMemberV5)
  unfolding add_member remove_member
  apply_change input change expected =
      if change.action == 0
      then add_member input.journal change expected
      else if change.action == 1
      then remove_member input change expected
      else err unknown_action

  -- The loop over the queued operations.
  pub apply_changes :
      BatchInputV5
      → ℕ
      → List RosterChangeV5
      → Map RosterMemberV5
      → Result Refusal (Map RosterMemberV5)
  apply_changes input offset [] expected = ok expected
  apply_changes input offset (change ∷ changes) expected = do
    request_id ←
        ok_or (checked_add_u64 input.journal.roster_change_cursor_before (offset + 1))
          request_id_overflow
    reject_if
        (change.request_id != request_id || ltb change.deadline input.journal.l1_inclusion_deadline)
        invalid_request
    expected' ← apply_change input change expected
    apply_changes input (offset + 1) changes expected'

  pub active_roster_map_v5 : List RosterMemberV5 → ℕ → B256 → Result Refusal (Map RosterMemberV5)
  active_roster_map_v5 members capacity expected_root = do
    computed ← ok_or (roster_root_v5 members capacity) invalid_roster_preimage
    reject_if (computed != expected_root) roster_root_differs
    index_members members [] []

  -- A validity-only room carries no approvers at all.
  unfoldable pub carries_approvers : BatchInputV5 → Bool
  carries_approvers input =
      let journal = input.journal in
      journal.pre_roster_root != 0
      || journal.post_roster_root != 0
      || journal.pre_active_count != 0
      || journal.post_active_count != 0
      || journal.pre_roster_epoch != journal.post_roster_epoch
      || journal.roster_change_cursor_before != journal.roster_change_cursor_after
      || not (is_empty input.pre_roster)
      || not (is_empty input.post_roster)
      || not (is_empty input.roster_changes)
      || journal.roster_changes_hash != roster_changes_hash_v5 []

  -- The part of the transition behind the test of the authorization mode.
  pub validate_unanimous_transition : BatchInputV5 → Result Refusal (List Address)
  validate_unanimous_transition input = do
    let journal = input.journal
    expected ← active_roster_map_v5 input.pre_roster input.roster_capacity journal.pre_roster_root
    post ← active_roster_map_v5 input.post_roster input.roster_capacity journal.post_roster_root
    reject_if
        (length expected != journal.pre_active_count || length post != journal.post_active_count)
        active_count_differs
    change_count ←
        ok_or (checked_sub journal.roster_change_cursor_after journal.roster_change_cursor_before)
          roster_cursor_backwards
    reject_if
        (change_count != length input.roster_changes
          || roster_changes_hash_v5 input.roster_changes != journal.roster_changes_hash)
        roster_changes_differ
    expected_post_epoch ←
        ok_or
          (checked_add_u64 journal.pre_roster_epoch
            (if is_empty input.roster_changes then 0 else 1))
          roster_epoch_overflow
    reject_if (journal.post_roster_epoch != expected_post_epoch) roster_epoch_differs
    expected' ← apply_changes input 0 input.roster_changes expected
    reject_if (not (same_members expected' post)) post_roster_differs
    ok (collect_set (map (λ (member : RosterMemberV5). member.member) input.pre_roster))

  unfoldable pub validate_roster_transition_v5 : BatchInputV5 → Result Refusal (List Address)
  unfolding carries_approvers
  validate_roster_transition_v5 input =
      if input.journal.authorization_mode == 1
      then (if carries_approvers input then err approvers_in_validity_room else ok [])
      else if input.journal.authorization_mode != 0
      then err unknown_authorization_mode
      else validate_unanimous_transition input
