-- ===== src/RoomV5/Roster/Transition.antt =====
-- What the queued operations do to a roster, against a plain reading of the queue.
use native.Mathlib.Decide.{ℕ_discrete}
use zkdeal_prover.Prelude.{
  ℕ, ◌+◌, ◌≡◌, ◌≢◌, refl, sym, false, Option, none, some, List, [], ◌∷◌, arith, ◌==◌, if◌then◌else◌,
  length, ok, Result-cases, Bool-cases, Option-cases, inl, inr, find?, ◌∙◌,
}
use zkdeal_prover.Prelude.Map.{
  Map, lookup, insert, remove, length-insert, length-remove, lookup-insert, lookup-remove_ne,
  lookup-remove_self,
}
use zkdeal_prover.StfTypes.Abi.{Keccak}
use zkdeal_prover.StfTypes.V5.{RosterMemberV5, RosterChangeV5, WithdrawalV5, BatchInputV5}
use zkdeal_prover.StfTypes.V5.Hash.{withdrawal_leaf_v5}
use zkdeal_prover.RoomV5.Roster.{
  add_member, remove_member, apply_change, apply_changes, has_account,
}
use zkdeal_prover.RoomV5.Roster.Active.{IsMembership, insert-IsMembership, remove-IsMembership}

-- The roster as a function from an index to its member, and one operation of the queue on it.
abbrev pub Members : Type 0
Members = ℕ → Option RosterMemberV5

abbrev pub after_change : RosterChangeV5 → Members → Members
after_change change members i =
    if change.index == i
    then (if change.action == 0
        then some (record {
          index = change.index;
          member = change.member;
          joined_epoch = change.joined_epoch;
        })
        else none)
    else members i

abbrev pub after_changes : List RosterChangeV5 → Members → Members
after_changes [] members = members
after_changes (change ∷ changes) members = after_changes changes (after_change change members)

abbrev pub additions : List RosterChangeV5 → ℕ
additions [] = 0
additions (change ∷ changes) = (if change.action == 0 then 1 else 0) + additions changes

abbrev pub removals : List RosterChangeV5 → ℕ
removals [] = 0
removals (change ∷ changes) = (if change.action == 1 then 1 else 0) + removals changes

module _ ⦃keccak : Keccak⦄ (input : BatchInputV5) where
  -- The withdrawal that pays the member that an operation removes from a roster, as it committed to it.
  abbrev pub IsPaid : Members → RosterChangeV5 → Type 0
  IsPaid members change =
      change.action ≡ 1
      → (removed : RosterMemberV5) × (withdrawal : WithdrawalV5) × (members change.index
          ≡ some removed)
        × (removed.member ≡ change.member)
        × (removed.joined_epoch ≡ change.joined_epoch)
        × (find? (λ (one : WithdrawalV5). one.index == change.index) input.withdrawals
            ≡ some withdrawal)
        × (withdrawal.recipient ≡ removed.member)
        × (withdrawal.roster_epoch ≡ input.journal.post_roster_epoch)
        × (withdrawal_leaf_v5 input.journal.deployment_domain input.journal.room_id
              input.journal.outbox_epoch withdrawal
            ≡ change.withdrawal_commitment)

  -- The removals of a queue, each from the roster that the operations before it leave.
  abbrev pub ArePaid : List RosterChangeV5 → Members → Type 0
  ArePaid [] members = Unit
  ArePaid (change ∷ changes) members =
      IsPaid members change × ArePaid changes (after_change change members)

  ArePaid-ext :
      (changes : List RosterChangeV5) (f g : Members)
      → ((i : ℕ) → f i ≡ g i)
      → ArePaid changes f
      → ArePaid changes g
  ArePaid-ext [] f g e h = tt
  ArePaid-ext (change ∷ changes) f g e h = (
    (λ action.
        let (removed, withdrawal, known, account, epoch, found, recipient, roster, leaf) =
          h.0 action in
        (
          removed,
          withdrawal,
          sym (e change.index) ∙ known,
          account,
          epoch,
          found,
          recipient,
          roster,
          leaf,
        )),
    ArePaid-ext changes (after_change change f) (after_change change g) (λ j. ground (arith, e j))
        h.1,
  )

  -- One operation that is not refused.
  pub record IsStep (change : RosterChangeV5) (m m' : Map RosterMemberV5) : Type 0 where
    pub roster : IsMembership m'
    pub size : length m' + removals (change ∷ []) ≡ length m + additions (change ∷ [])
    pub view : (i : ℕ) → lookup i m' ≡ after_change change (λ j. lookup j m) i
    pub paid : IsPaid (λ j. lookup j m) change

  add_member-IsStep :
      (change : RosterChangeV5) (m m' : Map RosterMemberV5)
      → add_member input.journal change m ≡ ok m'
      → change.action ≡ 0
      → IsMembership m
      → IsStep change m m'
  unfolding add_member
  add_member-IsStep change m m' h action r =
      let free : lookup change.index m ≡ none = ground arith in
      let new : has_account change.member m ≡ false = ground arith in
      let v : RosterMemberV5 = record {
        index = change.index;
        member = change.member;
        joined_epoch = change.joined_epoch;
      } in
      let same : m' ≡ insert change.index v m = ground arith in
      rw same (record {
        roster = insert-IsMembership change.index v m r refl free new;
        size = ground (arith, length-insert change.index v m free);
        view = λ i. ground (arith, lookup-insert i change.index v m);
        paid = λ removal. absurd (omega arith);
      })

  remove_member-IsPaid :
      (change : RosterChangeV5) (m m' : Map RosterMemberV5)
      → remove_member input change m ≡ ok m'
      → IsPaid (λ j. lookup j m) change
  unfolding remove_member
  remove_member-IsPaid change m m' h action = elim (Option-cases (lookup change.index m)) [
    | inl missing ↦ absurd (ground arith)
    | inr (removed, known) ↦
        elim (Option-cases
          (find? (λ (one : WithdrawalV5). one.index == change.index) input.withdrawals)) [
            | inl absent ↦ absurd (ground arith)
            | inr (withdrawal, found) ↦ (
              removed,
              withdrawal,
              known,
              ground arith,
              ground arith,
              found,
              ground arith,
              ground arith,
              ground arith,
            )
          ]
  ]

  remove_member-removes :
      (change : RosterChangeV5) (m m' : Map RosterMemberV5)
      → remove_member input change m ≡ ok m'
      → (m' ≡ remove change.index m) × (lookup change.index m ≢ none)
  unfolding remove_member
  remove_member-removes change m m' h = (ground arith, λ e. ground arith)

  lookup-remove_if :
      (i k : ℕ) (m : Map RosterMemberV5)
      → IsMembership m
      → lookup i (remove k m) ≡ (if k == i then none else lookup i m)
  lookup-remove_if i k m r = elim (ℕ_discrete k i) [
    | yes e ↦ rw (← e) (lookup-remove_self k m r.ascending ∙ ground arith)
    | no ne ↦ lookup-remove_ne i k m (λ e. ne (sym e)) ∙ ground arith
  ]

  remove_member-IsStep :
      (change : RosterChangeV5) (m m' : Map RosterMemberV5)
      → remove_member input change m ≡ ok m'
      → change.action ≡ 1
      → IsMembership m
      → IsStep change m m'
  remove_member-IsStep change m m' h action r =
      let (same, known) = remove_member-removes change m m' h in
      elim (Option-cases (lookup change.index m)) [
        | inl absent ↦ absurd (known absent)
        | inr (v, found) ↦ rw same (record {
          roster = remove-IsMembership change.index m r;
          size = ground (arith, length-remove change.index v m found);
          view = λ i. ground (arith, lookup-remove_if i change.index m r);
          paid = remove_member-IsPaid change m m' h;
        })
      ]

  apply_change-IsStep :
      (change : RosterChangeV5) (m m' : Map RosterMemberV5)
      → apply_change input change m ≡ ok m'
      → IsMembership m
      → IsStep change m m'
  unfolding apply_change
  apply_change-IsStep change m m' h r = elim (Bool-cases (change.action == 0)) [
    | inl add ↦ add_member-IsStep change m m' (ground arith) (ground arith) r
    | inr other ↦ remove_member-IsStep change m m' (ground arith) (ground arith) r
  ]

  -- A run of the whole queue that is not refused.
  pub record IsRun (changes : List RosterChangeV5) (m m' : Map RosterMemberV5) : Type 0 where
    pub roster : IsMembership m'
    pub size : length m' + removals changes ≡ length m + additions changes
    pub view : (i : ℕ) → lookup i m' ≡ after_changes changes (λ j. lookup j m) i
    pub paid : ArePaid changes (λ j. lookup j m)

  after_changes-ext :
      (changes : List RosterChangeV5) (f g : Members)
      → ((i : ℕ) → f i ≡ g i)
      → (i : ℕ) → after_changes changes f i ≡ after_changes changes g i
  after_changes-ext [] f g e i = e i
  after_changes-ext (change ∷ changes) f g e i =
      after_changes-ext changes (after_change change f) (after_change change g)
        (λ j. ground (arith, e j)) i

  pub apply_changes-IsRun :
      (offset : ℕ) (changes : List RosterChangeV5) (m m' : Map RosterMemberV5)
      → apply_changes input offset changes m ≡ ok m'
      → IsMembership m
      → IsRun changes m m'
  unfolding apply_changes
  apply_changes-IsRun offset [] m m' h r =
      let same : m' ≡ m = ground arith in
      rw same (record { roster = r; size = refl; view = λ i. refl; paid = tt })
  apply_changes-IsRun offset (change ∷ changes) m m' h r =
      elim (Result-cases (apply_change input change m)) [
        | inr (x, e) ↦ absurd (ground arith)
        | inl (m₁, e) ↦
            let step = apply_change-IsStep change m m₁ e r in
            let rest = apply_changes-IsRun (offset + 1) changes m₁ m' (ground arith) step.roster in
            record {
              roster = rest.roster;
              size = omega (arith, step.size, rest.size);
              view = λ i.
                  rest.view i
                  ∙ after_changes-ext changes (λ j. lookup j m₁)
                      (after_change change (λ j. lookup j m)) step.view i;
              paid = (
                step.paid,
                ArePaid-ext changes (λ j. lookup j m₁) (after_change change (λ j. lookup j m))
                    step.view rest.paid,
              );
            }
      ]
