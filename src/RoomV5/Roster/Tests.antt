-- ===== src/RoomV5/Roster/Tests.antt =====
-- One removal and one addition in a roster of two, and the theorems at them.
use zkdeal_prover.Prelude.{
  ℕ, ◌+◌, ◌≡◌, refl, List, [], ◌∷◌, ok, length, is_empty, if◌then◌else◌, set_insert, collect_set,
}
use zkdeal_prover.Prelude.Map.{Map, lookup}
use zkdeal_prover.StfTypes.Abi.Sample.{sample_keccak}
use zkdeal_prover.StfTypes.V5.{RosterMemberV5, RosterChangeV5, WithdrawalV5, BatchInputV5}
use zkdeal_prover.StfTypes.V5.Defaults.{default_journal, default_input}
use zkdeal_prover.StfTypes.V5.Hash.{withdrawal_leaf_v5, roster_leaf, roster_changes_hash_v5}
use zkdeal_prover.StfTypes.V5.Trees.{node_hash}
use zkdeal_prover.StfTypes.V5.Evaluate.{evaluate}
use zkdeal_prover.RoomV5.Roster.{
  active_roster_map_v5, index_members, has_account, apply_change, apply_changes, same_members,
  validate_unanimous_transition, validate_roster_transition_v5,
}
use zkdeal_prover.RoomV5.Roster.Active.{IsMembership}
use zkdeal_prover.RoomV5.Roster.Transition.{ArePaid, after_changes, additions, removals}
use zkdeal_prover.RoomV5.Roster.Accepted.{
  validate_roster_transition_v5-refines, validate_roster_transition_v5-counts,
  validate_roster_transition_v5-pays,
}

abbrev member : ℕ → ℕ → ℕ → RosterMemberV5
member index account epoch = record { index = index; member = account; joined_epoch = epoch }

abbrev payout : WithdrawalV5
payout = record { index = 1; roster_epoch = 2; recipient = 12; asset = 0; amount = 30 }

abbrev changes : List RosterChangeV5
changes =
    record {
      action = 1;
      request_id = 1;
      index = 1;
      joined_epoch = 1;
      deadline = 9;
      member = 12;
      withdrawal_commitment = withdrawal_leaf_v5 0 0 0 payout;
    }
    ∷ record {
      action = 0;
      request_id = 2;
      index = 1;
      joined_epoch = 2;
      deadline = 9;
      member = 13;
      withdrawal_commitment = 0;
    }
    ∷ []

abbrev pre_roster : List RosterMemberV5
pre_roster = member 0 11 1 ∷ member 1 12 1 ∷ []

abbrev post_roster : List RosterMemberV5
post_roster = member 0 11 1 ∷ member 1 13 2 ∷ []

abbrev batch : BatchInputV5
batch = record default_input {
  journal = record default_journal {
    pre_roster_root = node_hash (roster_leaf (member 0 11 1)) (roster_leaf (member 1 12 1));
    post_roster_root = node_hash (roster_leaf (member 0 11 1)) (roster_leaf (member 1 13 2));
    pre_roster_epoch = 1;
    post_roster_epoch = 2;
    pre_active_count = 2;
    post_active_count = 2;
    roster_change_cursor_after = 2;
    roster_changes_hash = roster_changes_hash_v5 changes;
  };
  roster_capacity = 2;
  pre_roster = pre_roster;
  post_roster = post_roster;
  roster_changes = changes;
  withdrawals = payout ∷ [];
}

batch_valid : validate_roster_transition_v5 batch ≡ ok (11 ∷ 12 ∷ [])
unfolding validate_roster_transition_v5 validate_unanimous_transition active_roster_map_v5
    index_members apply_changes apply_change has_account same_members set_insert collect_set
    evaluate
batch_valid = refl

validate_roster_transition_v5-refines_example :
    (pre post : Map RosterMemberV5) × (active_roster_map_v5 batch.pre_roster batch.roster_capacity
        batch.journal.pre_roster_root
      ≡ ok pre)
    × (active_roster_map_v5 batch.post_roster batch.roster_capacity batch.journal.post_roster_root
        ≡ ok post)
    × ((i : ℕ) → lookup i post ≡ after_changes batch.roster_changes (λ j. lookup j pre) i)
    × IsMembership post
validate_roster_transition_v5-refines_example =
    validate_roster_transition_v5-refines batch (11 ∷ 12 ∷ []) batch_valid refl

validate_roster_transition_v5-counts_example :
    (batch.journal.post_active_count + removals batch.roster_changes
      ≡ batch.journal.pre_active_count + additions batch.roster_changes)
    × (batch.journal.roster_change_cursor_after
        ≡ batch.journal.roster_change_cursor_before + length batch.roster_changes)
    × (batch.journal.post_roster_epoch
        ≡ batch.journal.pre_roster_epoch + (if is_empty batch.roster_changes then 0 else 1))
validate_roster_transition_v5-counts_example =
    validate_roster_transition_v5-counts batch (11 ∷ 12 ∷ []) batch_valid refl

validate_roster_transition_v5-pays_example :
    (pre : Map RosterMemberV5) × (active_roster_map_v5 batch.pre_roster batch.roster_capacity
        batch.journal.pre_roster_root
      ≡ ok pre)
    × ArePaid batch batch.roster_changes (λ j. lookup j pre)
validate_roster_transition_v5-pays_example =
    validate_roster_transition_v5-pays batch (11 ∷ 12 ∷ []) batch_valid refl
