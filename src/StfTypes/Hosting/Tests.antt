-- ===== src/StfTypes/Hosting/Tests.antt =====
-- An aggregate of two rooms, one with calldata and one with an equivalence proof.
use zkdeal_prover.Prelude.{◌≡◌, ◌≤◌, ◌<◌, ◌↔◌, refl, List, [], ◌∷◌, All, ok, err}
use zkdeal_prover.StfTypes.Abi.Sample.{sample_keccak}
use zkdeal_prover.StfTypes.Hosting.{
  AggregateMemberStatementV1, AggregateInputV1, duplicate_room, incomplete_equivalence,
  bad_aggregate_count,
}
use zkdeal_prover.StfTypes.Hosting.Aggregate.{
  IsMember, AreDistinct, statement_over, validate_members, validate_aggregate_v1,
  validate_aggregate_v1-AreMembers,
}

abbrev calldata_member : AggregateMemberStatementV1
calldata_member = record {
  room_id = 1;
  room_program_id = 17;
  journal_hash = 34;
  equivalence_program_id = 0;
  equivalence_statement = 0;
}

abbrev blob_member : AggregateMemberStatementV1
blob_member = record {
  room_id = 2;
  room_program_id = 17;
  journal_hash = 35;
  equivalence_program_id = 5;
  equivalence_statement = 6;
}

abbrev half_member : AggregateMemberStatementV1
half_member = record {
  room_id = 3;
  room_program_id = 17;
  journal_hash = 36;
  equivalence_program_id = 5;
  equivalence_statement = 0;
}

abbrev input_of : List AggregateMemberStatementV1 → AggregateInputV1
input_of members = record { deployment_domain = 51; members = members }

duplicate_example :
    validate_aggregate_v1 ⦃keccak = sample_keccak⦄
      (input_of (calldata_member ∷ calldata_member ∷ []))
    ≡ err duplicate_room
unfolding validate_aggregate_v1 validate_members
duplicate_example = refl

half_example :
    validate_aggregate_v1 ⦃keccak = sample_keccak⦄ (input_of (calldata_member ∷ half_member ∷ []))
    ≡ err incomplete_equivalence
unfolding validate_aggregate_v1 validate_members
half_example = refl

empty_example :
    validate_aggregate_v1 ⦃keccak = sample_keccak⦄ (input_of []) ≡ err bad_aggregate_count
unfolding validate_aggregate_v1
empty_example = refl

abbrev members : List AggregateMemberStatementV1
members = calldata_member ∷ blob_member ∷ []

validate_aggregate_v1-AreMembers_example :
    (validate_aggregate_v1 ⦃keccak = sample_keccak⦄ (input_of members)
      ≡ ok (statement_over ⦃keccak = sample_keccak⦄ 51 members))
    ↔ ((0 < 2)
        × (2 ≤ 8)
        × All IsMember members
        × AreDistinct members
        × (statement_over ⦃keccak = sample_keccak⦄ 51 members
            ≡ statement_over ⦃keccak = sample_keccak⦄ 51 members))
validate_aggregate_v1-AreMembers_example =
    validate_aggregate_v1-AreMembers ⦃keccak = sample_keccak⦄ (input_of members)
      (statement_over ⦃keccak = sample_keccak⦄ 51 members)
