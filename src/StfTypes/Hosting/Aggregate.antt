-- ===== src/StfTypes/Hosting/Aggregate.antt =====
-- Aggregates: `validate_aggregate_v1` of zkvm/crates/stf-types/src/hosting.rs.
use zkdeal_prover.Prelude.{
  sym, ap, ◌∙◌, All, map, length-map, ℕ, ◌≡◌, ◌≢◌, ◌≤◌, ◌<◌, ◌↔◌, refl, Bool, false, ◌||◌, List, [],
  ◌∷◌, ltb, ◌==◌, ◌!=◌, if◌then◌else◌, is_empty, length, any, arith, Result, ok, ◌>>◌, reject_if,
}
use zkdeal_prover.StfTypes.Scalars.{B256}
use zkdeal_prover.StfTypes.Abi.{Keccak, abi_u64_word_v5, b256_bytes, keccak_words_v5}
use zkdeal_prover.StfTypes.Hosting.{
  AggregateMemberStatementV1, AggregateInputV1, HostingStatementError, bad_aggregate_count,
  zero_room, duplicate_room, zero_room_program, incomplete_equivalence, max_aggregate_rooms_v1,
  aggregate_statement_label, abi_b256_array_hash, aggregate_member_hash_v1, aggregate_statement_v1,
}

-- The room is among those of the members before it.
abbrev pub is_prior_room : ℕ → List AggregateMemberStatementV1 → Bool
is_prior_room room_id prior =
    any (λ (member : AggregateMemberStatementV1). member.room_id == room_id) prior

-- One of the two equivalence fields is zero and the other is not.
abbrev pub is_equivalence_incomplete : AggregateMemberStatementV1 → Bool
is_equivalence_incomplete member =
    if member.equivalence_program_id == 0
    then member.equivalence_statement != 0
    else member.equivalence_statement == 0

-- The loop over the members, with those before.
unfoldable pub validate_members :
    List AggregateMemberStatementV1
    → List AggregateMemberStatementV1
    → Result HostingStatementError (Unit {0})
validate_members prior [] = ok tt
validate_members prior (member ∷ members) = do
  reject_if (member.room_id == 0) zero_room
  reject_if (member.room_program_id == 0) zero_room_program
  reject_if (is_prior_room member.room_id prior) duplicate_room
  reject_if (is_equivalence_incomplete member) incomplete_equivalence
  validate_members (member ∷ prior) members

unfoldable pub validate_aggregate_v1 :
    ⦃keccak : Keccak⦄ → AggregateInputV1 → Result HostingStatementError B256
unfolding validate_members
validate_aggregate_v1 input = do
  reject_if (is_empty input.members || ltb max_aggregate_rooms_v1 (length input.members))
      bad_aggregate_count
  validate_members [] input.members
  ok (aggregate_statement_v1 input)

-- What the round of one member tests.
abbrev IsChecked : List AggregateMemberStatementV1 → AggregateMemberStatementV1 → Type 0
IsChecked prior member =
    (member.room_id ≢ 0)
    × (member.room_program_id ≢ 0)
    × (is_prior_room member.room_id prior ≡ false)
    × ((member.equivalence_program_id ≡ 0) ↔ (member.equivalence_statement ≡ 0))

abbrev AreChecked : List AggregateMemberStatementV1 → List AggregateMemberStatementV1 → Type 0
AreChecked prior [] = Unit
AreChecked prior (member ∷ members) = IsChecked prior member × AreChecked (member ∷ prior) members

is_equivalence_incomplete_lem :
    (member : AggregateMemberStatementV1)
    → is_equivalence_incomplete member ≡ false
    → (member.equivalence_program_id ≡ 0) ↔ (member.equivalence_statement ≡ 0)
is_equivalence_incomplete_lem member h = ((λ e. ground (arith, e)), (λ e. ground (arith, e)))

is_equivalence_complete :
    (member : AggregateMemberStatementV1)
    → ((member.equivalence_program_id ≡ 0) ↔ (member.equivalence_statement ≡ 0))
    → is_equivalence_incomplete member ≡ false
is_equivalence_complete member h = ground (arith, h.0, h.1)

validate_members-AreChecked :
    (prior members : List AggregateMemberStatementV1)
    → (validate_members prior members ≡ ok tt) ↔ AreChecked prior members
unfolding validate_members
validate_members-AreChecked prior [] = ((λ h. tt), (λ h. refl))
validate_members-AreChecked prior (member ∷ members) =
    let rest = validate_members-AreChecked (member ∷ prior) members in
    (
      (λ h. (
        (
          ground arith,
          ground arith,
          ground arith,
          is_equivalence_incomplete_lem member (ground arith),
        ),
        rest.0 (ground arith),
      )),
      (λ h.
          let complete = is_equivalence_complete member h.0.3 in
          let later = rest.1 h.1 in ground (arith, h.0.0, h.0.1, h.0.2, complete, later)),
    )

-- A member has a room and its program, and either both fields of an equivalence proof or none.
abbrev pub IsMember : AggregateMemberStatementV1 → Type 0
IsMember member =
    (member.room_id ≢ 0)
    × (member.room_program_id ≢ 0)
    × ((member.equivalence_program_id ≡ 0) ↔ (member.equivalence_statement ≡ 0))

-- No two members have one room.
abbrev pub AreDistinct : List AggregateMemberStatementV1 → Type 0
AreDistinct [] = Unit
AreDistinct (member ∷ members) =
    All (λ (later : AggregateMemberStatementV1). later.room_id ≢ member.room_id) members
    × AreDistinct members

-- No member has the room of a member before it.
AreApart : List AggregateMemberStatementV1 → List AggregateMemberStatementV1 → Type 0
AreApart prior members =
    All
      (λ (member : AggregateMemberStatementV1).
        All (λ (before : AggregateMemberStatementV1). member.room_id ≢ before.room_id) prior)
      members

is_prior_room_iff :
    (room_id : ℕ) (prior : List AggregateMemberStatementV1)
    → (is_prior_room room_id prior ≡ false)
      ↔ All (λ (before : AggregateMemberStatementV1). room_id ≢ before.room_id) prior
is_prior_room_iff room_id [] = ((λ h. tt), (λ h. refl))
is_prior_room_iff room_id (before ∷ prior) =
    let rest = is_prior_room_iff room_id prior in
    (
      (λ h. (ground (arith, h), rest.0 (ground (arith, h)))),
      (λ h. let later = rest.1 h.1 in ground (arith, h.0, later)),
    )

module _ (member : AggregateMemberStatementV1) (prior : List AggregateMemberStatementV1) where
  unfolding_apart :
      (members : List AggregateMemberStatementV1)
      → AreApart (member ∷ prior) members ↔ (
          All (λ (later : AggregateMemberStatementV1). later.room_id ≢ member.room_id) members
          × AreApart prior members)
  unfolding AreApart
  unfolding_apart [] = ((λ h. (tt, tt)), (λ h. tt))
  unfolding_apart (later ∷ members) =
      let rest = unfolding_apart members in
      (
        (λ h. let r = rest.0 h.1 in ((h.0.0, r.0), (h.0.1, r.1))),
        (λ h. ((h.0.0, h.1.0), rest.1 (h.0.1, h.1.1))),
      )

AreChecked-AreMembers :
    (prior members : List AggregateMemberStatementV1)
    → AreChecked prior members
      ↔ (All IsMember members × AreDistinct members × AreApart prior members)
unfolding AreApart
AreChecked-AreMembers prior [] = ((λ h. (tt, tt, tt)), (λ h. tt))
AreChecked-AreMembers prior (member ∷ members) =
    let rest = AreChecked-AreMembers (member ∷ prior) members in
    let apart = unfolding_apart member prior members in
    let alone = is_prior_room_iff member.room_id prior in
    (
      (λ h.
          let r = rest.0 h.1 in
          let a = apart.0 r.2 in (((h.0.0, h.0.1, h.0.3), r.0), (a.0, r.1), (alone.0 h.0.2, a.1))),
      (λ h.
          let later = rest.1 (h.0.1, h.1.1, apart.1 (h.1.0, h.2.1)) in
          ((h.0.0.0, h.0.0.1, alone.1 h.2.0, h.0.0.2), later)),
    )

AreApart-nil : (members : List AggregateMemberStatementV1) → AreApart [] members
unfolding AreApart
AreApart-nil [] = tt
AreApart-nil (member ∷ members) = (tt, AreApart-nil members)

-- The statement over the members, written out: the digest of the label, of the deployment and of the
-- ABI encoding of the list of the members' digests, each of which is over the five fields.
abbrev pub statement_over : ⦃keccak : Keccak⦄ → B256 → List AggregateMemberStatementV1 → B256
statement_over ⦃keccak⦄ deployment_domain members = keccak_words_v5 (
    b256_bytes (keccak.keccak256 aggregate_statement_label)
    ∷ b256_bytes deployment_domain
    ∷ b256_bytes (
        keccak_words_v5 (
          abi_u64_word_v5 32
          ∷ abi_u64_word_v5 (length members)
          ∷ map
              (λ (member : AggregateMemberStatementV1). b256_bytes (
                keccak_words_v5 (
                  abi_u64_word_v5 member.room_id
                  ∷ b256_bytes member.room_program_id
                  ∷ b256_bytes member.journal_hash
                  ∷ b256_bytes member.equivalence_program_id
                  ∷ b256_bytes member.equivalence_statement
                  ∷ [])))
              members))
    ∷ [])

map-map :
    {A B C : Type 0} (f : A → B) (g : B → C) (xs : List A)
    → map g (map f xs) ≡ map (λ (x : A). g (f x)) xs
map-map f g [] = refl
map-map f g (x ∷ xs) = ap (g (f x) ∷◌) (map-map f g xs)

aggregate_statement_v1-statement_over :
    ⦃keccak : Keccak⦄ (input : AggregateInputV1)
    → aggregate_statement_v1 input ≡ statement_over input.deployment_domain input.members
unfolding aggregate_statement_v1 aggregate_member_hash_v1 abi_b256_array_hash
aggregate_statement_v1-statement_over input =
    let hash = λ (member : AggregateMemberStatementV1). aggregate_member_hash_v1 member in
    let size = length-map input.members hash in
    let words = map-map hash (λ (value : B256). b256_bytes value) input.members in cc (size, words)

length-positive :
    (members : List AggregateMemberStatementV1) → is_empty members ≡ false → 0 < length members
length-positive [] h = ground (arith, h)
length-positive (member ∷ members) h = omega arith

-- An aggregate is accepted exactly when it has one to eight members, each with a room and a program and
-- with both fields of an equivalence proof or with none, and no two of them have one room. The result is
-- the digest of the label, the deployment and the digests of all members in order.
pub validate_aggregate_v1-AreMembers :
    ⦃keccak : Keccak⦄ (input : AggregateInputV1) (statement : B256)
    → (validate_aggregate_v1 input ≡ ok statement) ↔ (
        (0 < length input.members)
        × (length input.members ≤ 8)
        × All IsMember input.members
        × AreDistinct input.members
        × (statement ≡ statement_over input.deployment_domain input.members))
unfolding validate_aggregate_v1
validate_aggregate_v1-AreMembers input statement =
    let checked = validate_members-AreChecked [] input.members in
    let members = AreChecked-AreMembers [] input.members in
    let over = aggregate_statement_v1-statement_over input in
    (
      (λ h.
          let valid = members.0 (checked.0 (ground arith)) in
          let same : statement ≡ aggregate_statement_v1 input = ground arith in
          (
            length-positive input.members (ground arith),
            ground arith,
            valid.0,
            valid.1,
            same ∙ over,
          )),
      (λ h.
          let valid = checked.1 (members.1 (h.2, h.3, AreApart-nil input.members)) in
          let same = h.4 ∙ sym over in ground (arith, h.0, h.1, valid, same)),
    )
