-- ===== src/RoomV5/Roster/Accepted.antt =====
-- The properties of `validate_roster_transition_v5`.
use zkdeal_prover.Prelude.{
  ℕ, ◌+◌, ◌≡◌, refl, ap, true, some, List, [], ◌∷◌, map, arith, if◌then◌else◌, is_empty, length, ok,
  Result-cases, Option-cases, inl, inr, ◌∙◌, collect_set,
}
use zkdeal_prover.Prelude.Map.{Map, lookup}
use zkdeal_prover.StfTypes.Scalars.{Address, B256}
use zkdeal_prover.StfTypes.Abi.{Keccak}
use zkdeal_prover.StfTypes.V5.{RosterMemberV5, BatchInputV5}
use zkdeal_prover.StfTypes.V5.Hash.{roster_changes_hash_v5}
use zkdeal_prover.StfTypes.V5.Trees.{roster_root_v5}
use zkdeal_prover.RoomV5.Roster.{
  same_members, active_roster_map_v5, apply_changes, validate_unanimous_transition,
  validate_roster_transition_v5,
}
use zkdeal_prover.RoomV5.Roster.Active.{IsMembership, index_members_lem}
use zkdeal_prover.RoomV5.Roster.Transition.{
  ArePaid, IsRun, apply_changes-IsRun, after_changes, additions, removals,
}

same_members_sound : (as' bs : Map RosterMemberV5) → same_members as' bs ≡ true → as' ≡ bs
unfolding same_members
same_members_sound [] [] h = refl
same_members_sound [] (b ∷ bs) h = cc
same_members_sound (a ∷ as') [] h = cc
same_members_sound ((i, a) ∷ as') ((j, b) ∷ bs) h = ground (arith, same_members_sound as' bs)

module _ ⦃keccak : Keccak⦄ where
  active_roster_map_v5-IsMembership :
      (members : List RosterMemberV5) (capacity : ℕ) (root : B256) (m : Map RosterMemberV5)
      → active_roster_map_v5 members capacity root ≡ ok m
      → IsMembership m × (length m ≡ length members) × (roster_root_v5 members capacity ≡ some root)
  unfolding active_roster_map_v5
  active_roster_map_v5-IsMembership members capacity root m h =
      elim (Option-cases (roster_root_v5 members capacity)) [
        | inl absent ↦ absurd (ground arith)
        | inr (computed, e) ↦
            let (r, size) = index_members_lem members m (ground arith) in (r, size, ground arith)
      ]

module _ ⦃keccak : Keccak⦄ (input : BatchInputV5) where
  -- What an accepted transition of a unanimous room establishes.
  pub record IsTransition (callers : List Address) : Type 0 where
    pub pre : Map RosterMemberV5
    pub post : Map RosterMemberV5
    pub opened :
        active_roster_map_v5 input.pre_roster input.roster_capacity input.journal.pre_roster_root
        ≡ ok pre
    pub closed :
        active_roster_map_v5 input.post_roster input.roster_capacity input.journal.post_roster_root
        ≡ ok post
    pub run : IsRun input input.roster_changes pre post
    pub pre_count : length pre ≡ input.journal.pre_active_count
    pub post_count : length post ≡ input.journal.post_active_count
    pub cursor :
        input.journal.roster_change_cursor_after
        ≡ input.journal.roster_change_cursor_before + length input.roster_changes
    pub hash : roster_changes_hash_v5 input.roster_changes ≡ input.journal.roster_changes_hash
    pub epoch :
        input.journal.post_roster_epoch
        ≡ input.journal.pre_roster_epoch + (if is_empty input.roster_changes then 0 else 1)
    pub authors :
        callers ≡ collect_set (map (λ (member : RosterMemberV5). member.member) input.pre_roster)

  module _ (callers : List Address) (pre post last : Map RosterMemberV5)
      (opened : active_roster_map_v5 input.pre_roster input.roster_capacity
          input.journal.pre_roster_root
        ≡ ok pre)
      (closed : active_roster_map_v5 input.post_roster input.roster_capacity
          input.journal.post_roster_root
        ≡ ok post)
      (applied : apply_changes input 0 input.roster_changes pre ≡ ok last)
      (valid : validate_unanimous_transition input ≡ ok callers) where
    same_post : last ≡ post
    unfolding validate_unanimous_transition
    same_post = same_members_sound last post (ground arith)

    IsTransition-parts : IsTransition callers
    unfolding validate_unanimous_transition
    IsTransition-parts = record {
      pre = pre;
      post = post;
      opened = opened;
      closed = closed;
      run =
          apply_changes-IsRun input 0 input.roster_changes pre post (applied ∙ ap ok same_post)
            (active_roster_map_v5-IsMembership input.pre_roster input.roster_capacity
              input.journal.pre_roster_root pre opened).0;
      pre_count = ground arith;
      post_count = ground arith;
      cursor = ground arith;
      hash = ground arith;
      epoch = ground arith;
      authors = ground arith;
    }

  transition :
      (callers : List Address)
      → validate_unanimous_transition input ≡ ok callers
      → IsTransition callers
  unfolding validate_unanimous_transition
  transition callers valid =
      elim (Result-cases (
        active_roster_map_v5 input.pre_roster input.roster_capacity
          input.journal.pre_roster_root)) [
            | inr (x, e) ↦ absurd (ground arith)
            | inl (pre, opened) ↦
                elim (Result-cases (
                  active_roster_map_v5 input.post_roster input.roster_capacity
                    input.journal.post_roster_root)) [
                      | inr (x, e) ↦ absurd (ground arith)
                      | inl (post, closed) ↦
                          elim (Result-cases (apply_changes input 0 input.roster_changes pre)) [
                            | inr (x, e) ↦ absurd (ground arith)
                            | inl (last, applied) ↦
                                IsTransition-parts callers pre post last opened closed applied valid
                          ]
                    ]
          ]

  module _ (callers : List Address) (valid : validate_roster_transition_v5 input ≡ ok callers) where
    module _ (unanimous : input.journal.authorization_mode ≡ 0) where
      accepted-IsTransition : IsTransition callers
      unfolding validate_roster_transition_v5
      accepted-IsTransition = transition callers (ground arith)

      -- In a unanimous room an accepted transition takes the roster that the pre root commits to to the
      -- one that the post root commits to, and index by index the second is the first with the queued
      -- operations made in order: an addition sets its index, any other operation clears it. In the
      -- second the indices ascend and no two members share an account.
      pub validate_roster_transition_v5-refines :
          (pre post : Map RosterMemberV5) × (active_roster_map_v5 input.pre_roster
              input.roster_capacity input.journal.pre_roster_root
            ≡ ok pre)
          × (active_roster_map_v5 input.post_roster input.roster_capacity
                input.journal.post_roster_root
              ≡ ok post)
          × ((i : ℕ) → lookup i post ≡ after_changes input.roster_changes (λ j. lookup j pre) i)
          × IsMembership post
      validate_roster_transition_v5-refines =
          let t = accepted-IsTransition in
          (t.pre, t.post, t.opened, t.closed, t.run.view, t.run.roster)

      -- In a unanimous room an accepted transition accounts for its counters: the active count moves
      -- by the additions less the removals, the cursor by the number of operations, and the epoch by
      -- one exactly when there is an operation.
      pub validate_roster_transition_v5-counts :
          (input.journal.post_active_count + removals input.roster_changes
            ≡ input.journal.pre_active_count + additions input.roster_changes)
          × (input.journal.roster_change_cursor_after
              ≡ input.journal.roster_change_cursor_before + length input.roster_changes)
          × (input.journal.post_roster_epoch
              ≡ input.journal.pre_roster_epoch + (if is_empty input.roster_changes then 0 else 1))
      validate_roster_transition_v5-counts =
          let t = accepted-IsTransition in
          (omega (arith, t.run.size, t.pre_count, t.post_count), t.cursor, t.epoch)

      -- In a unanimous room an accepted transition pays each member that it removes: in the roster
      -- that the pre root commits to, with the operations before it made, there is a member at its
      -- index, with the account and the epoch that it names; the first withdrawal at that index goes
      -- to that member, in the post epoch, and its leaf is the commitment that the operation carries.
      pub validate_roster_transition_v5-pays :
          (pre : Map RosterMemberV5) × (active_roster_map_v5 input.pre_roster input.roster_capacity
              input.journal.pre_roster_root
            ≡ ok pre)
          × ArePaid input input.roster_changes (λ j. lookup j pre)
      validate_roster_transition_v5-pays =
          let t = accepted-IsTransition in (t.pre, t.opened, t.run.paid)
