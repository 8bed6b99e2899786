-- ===== src/RoomV5/Roster/Active.antt =====
-- The invariant of a roster map, which indexing establishes and every queued operation keeps.
use zkdeal_prover.Prelude.{
  ℕ, ◌+◌, ◌≡◌, refl, false, ◌||◌, none, List, [], ◌∷◌, arith, ◌==◌, length, contains, ok,
}
use zkdeal_prover.Prelude.Map.{
  Map, lookup, insert, remove, IsAscending, insert-IsAscending, remove-IsAscending, length-insert,
}
use zkdeal_prover.StfTypes.Scalars.{Address}
use zkdeal_prover.StfTypes.V5.{RosterMemberV5}
use zkdeal_prover.RoomV5.Roster.{index_members, has_account}

-- No two active members share an account.
abbrev pub AreDistinct : Map RosterMemberV5 → Type 0
AreDistinct [] = Unit
AreDistinct ((i, a) ∷ m) = (has_account a.member m ≡ false) × AreDistinct m

-- Every member stands at its own index.
abbrev pub AreKeyed : Map RosterMemberV5 → Type 0
AreKeyed [] = Unit
AreKeyed ((i, a) ∷ m) = (a.index ≡ i) × AreKeyed m

pub record IsMembership (m : Map RosterMemberV5) : Type 0 where
  pub ascending : IsAscending m
  pub keyed : AreKeyed m
  pub distinct : AreDistinct m

has_account-insert :
    (x : Address) (k : ℕ) (v : RosterMemberV5) (m : Map RosterMemberV5)
    → lookup k m ≡ none
    → has_account x (insert k v m) ≡ (v.member == x || has_account x m)
unfolding has_account insert lookup
has_account-insert x k v [] h = refl
has_account-insert x k v ((i, a) ∷ m) h = ground (arith, has_account-insert x k v m)

has_account-remove :
    (x : Address) (k : ℕ) (m : Map RosterMemberV5)
    → has_account x m ≡ false
    → has_account x (remove k m) ≡ false
unfolding has_account remove
has_account-remove x k [] h = refl
has_account-remove x k ((i, a) ∷ m) h = ground (arith, has_account-remove x k m)

insert-AreDistinct :
    (k : ℕ) (v : RosterMemberV5) (m : Map RosterMemberV5)
    → lookup k m ≡ none
    → has_account v.member m ≡ false
    → AreDistinct m
    → AreDistinct (insert k v m)
unfolding insert lookup has_account
insert-AreDistinct k v [] h n d = (refl, tt)
insert-AreDistinct k v ((i, a) ∷ m) h n d =
    ground (arith, insert-AreDistinct k v m, has_account-insert a.member k v m)

remove-AreDistinct : (k : ℕ) (m : Map RosterMemberV5) → AreDistinct m → AreDistinct (remove k m)
unfolding remove
remove-AreDistinct k [] d = tt
remove-AreDistinct k ((i, a) ∷ m) d =
    ground (arith, remove-AreDistinct k m d.1, has_account-remove a.member k m)

insert-AreKeyed :
    (k : ℕ) (v : RosterMemberV5) (m : Map RosterMemberV5)
    → v.index ≡ k
    → AreKeyed m
    → AreKeyed (insert k v m)
unfolding insert
insert-AreKeyed k v [] e d = (e, tt)
insert-AreKeyed k v ((i, a) ∷ m) e d = ground (arith, insert-AreKeyed k v m e d.1)

remove-AreKeyed : (k : ℕ) (m : Map RosterMemberV5) → AreKeyed m → AreKeyed (remove k m)
unfolding remove
remove-AreKeyed k [] d = tt
remove-AreKeyed k ((i, a) ∷ m) d = ground (arith, remove-AreKeyed k m d.1)

pub insert-IsMembership :
    (k : ℕ) (v : RosterMemberV5) (m : Map RosterMemberV5)
    → IsMembership m
    → v.index ≡ k
    → lookup k m ≡ none
    → has_account v.member m ≡ false
    → IsMembership (insert k v m)
insert-IsMembership k v m r e free new = record {
  ascending = insert-IsAscending k v m r.ascending;
  keyed = insert-AreKeyed k v m e r.keyed;
  distinct = insert-AreDistinct k v m free new r.distinct;
}

pub remove-IsMembership :
    (k : ℕ) (m : Map RosterMemberV5) → IsMembership m → IsMembership (remove k m)
remove-IsMembership k m r = record {
  ascending = remove-IsAscending k m r.ascending;
  keyed = remove-AreKeyed k m r.keyed;
  distinct = remove-AreDistinct k m r.distinct;
}

-- The accounts seen so far cover those of the map.
abbrev Covers : List Address → Map RosterMemberV5 → Type 0
Covers addresses m = (x : Address) → contains x addresses ≡ false → has_account x m ≡ false

index_members-IsMembership :
    (members : List RosterMemberV5) (addresses : List Address) (m m' : Map RosterMemberV5)
    → index_members members addresses m ≡ ok m'
    → IsMembership m
    → Covers addresses m
    → IsMembership m' × (length m' ≡ length m + length members)
unfolding index_members
index_members-IsMembership [] addresses m m' h r c = ground arith
index_members-IsMembership (member ∷ members) addresses m m' h r c =
    let free : lookup member.index m ≡ none = ground arith in
    let new : contains member.member addresses ≡ false = ground arith in
    let rest =
      index_members-IsMembership members (member.member ∷ addresses) (insert member.index member m)
        m' (ground arith)
        (insert-IsMembership member.index member m r refl free (c member.member new))
        (λ x absent. ground (arith, has_account-insert x member.index member m free, c x)) in
    (rest.0, omega (arith, rest.1, length-insert member.index member m free))

IsMembership-nil : IsMembership []
IsMembership-nil = record { ascending = tt; keyed = tt; distinct = tt }

-- The members of a list that indexing accepts form a roster of the same size.
pub index_members_lem :
    (members : List RosterMemberV5) (m : Map RosterMemberV5)
    → index_members members [] [] ≡ ok m
    → IsMembership m × (length m ≡ length members)
unfolding has_account
index_members_lem members m h =
    let (r, size) =
      index_members-IsMembership members [] [] m h IsMembership-nil (λ x absent. refl) in
    (r, omega (arith, size))
