-- ===== src/RoomV5/Exit/Queue.antt =====
-- The words of the exit queue: what its reader returns, and what the withdrawals made of it say.
use zkdeal_prover.Prelude.{
  ℕ, zero, suc, ◌+◌, ◌-◌, ◌*◌, ◌<◌, ◌≡◌, refl, true, List, [], ◌∷◌, arith, ok, Result-cases, inl,
  inr, length, ap,
}
use zkdeal_prover.Prelude.Map.{lookup}
use zkdeal_prover.StfTypes.Scalars.{Address, U256}
use zkdeal_prover.StfTypes.V5.{ExitBindingV5, WithdrawalV5}
use zkdeal_prover.State.{StateMap, stored_word}
use zkdeal_prover.RoomV5.Storage.{read_storage_v5}
use zkdeal_prover.RoomV5.Exit.{
  ExitRecordV5, address_from_word_v5, exit_record_count_v5, read_exit_record, read_records,
  read_exit_records_v5,
}
use zkdeal_prover.RoomV5.Exit.Allocation.{number_withdrawals}
use zkdeal_prover.RoomV5.Exit.Payout.{is_bound}

-- The word of the queue contract at a slot.
abbrev pub queue_word : ExitBindingV5 → StateMap → U256 → U256
queue_word binding state slot = stored_word (lookup binding.queue_contract state.accounts) slot

-- The three words of the record at an index.
abbrev pub IsStoredAt : ExitBindingV5 → StateMap → ℕ → Address → Address → U256 → Type 0
IsStoredAt binding state index recipient asset amount =
    (recipient ≡ queue_word binding state (binding.records_base_slot + index * 3))
    × (asset ≡ queue_word binding state (binding.records_base_slot + index * 3 + 1))
    × (amount ≡ queue_word binding state (binding.records_base_slot + index * 3 + 2))

-- A record that the queue holds at an index: its words, a recipient, an amount and a bound asset.
abbrev pub IsRecord : ExitBindingV5 → StateMap → ℕ → ExitRecordV5 → Type 0
IsRecord binding state index one =
    IsStoredAt binding state index one.recipient one.asset one.amount
    × (0 < one.recipient)
    × (0 < one.amount)
    × (is_bound one.asset binding.assets ≡ true)

-- Records that the queue holds one after the other, from an index on.
abbrev pub AreRecords : ExitBindingV5 → StateMap → ℕ → List ExitRecordV5 → Type 0
AreRecords binding state index [] = Unit
AreRecords binding state index (one ∷ records) =
    IsRecord binding state index one × AreRecords binding state (index + 1) records

address_from_word_v5-same :
    (word : U256) (address : Address) → address_from_word_v5 word ≡ ok address → address ≡ word
unfolding address_from_word_v5
address_from_word_v5-same word address h = ground arith

read_storage_v5-word :
    (binding : ExitBindingV5) (state : StateMap) (slot word : U256)
    → read_storage_v5 state binding.queue_contract slot ≡ ok word
    → word ≡ queue_word binding state slot
unfolding read_storage_v5
read_storage_v5-word binding state slot word h = ground arith

read_exit_record-IsRecord :
    (binding : ExitBindingV5) (state : StateMap) (index : ℕ) (one : ExitRecordV5)
    → read_exit_record binding state index ≡ ok one
    → IsRecord binding state index one
unfolding read_exit_record read_storage_v5 address_from_word_v5
read_exit_record-IsRecord binding state index one h =
    ((ground arith, ground arith, ground arith), ground arith, ground arith, ground arith)

read_records-AreRecords :
    (binding : ExitBindingV5) (state : StateMap) (index rounds : ℕ) (records : List ExitRecordV5)
    → read_records binding state index rounds ≡ ok records
    → AreRecords binding state index records × (length records ≡ rounds)
unfolding read_records
read_records-AreRecords binding state index zero records h =
    let same : [] ≡ records = ground arith in rw (← same) (tt, refl)
read_records-AreRecords binding state index (suc rounds) records h =
    elim (Result-cases (read_exit_record binding state index)) [
      | inr (x, e) ↦ absurd (ground arith)
      | inl (one, e) ↦ elim (Result-cases (read_records binding state (index + 1) rounds)) [
        | inr (x, e') ↦ absurd (ground arith)
        | inl (rest, e') ↦
            let joined : records ≡ one ∷ rest = ground arith in
            let (stored, count) =
              read_records-AreRecords binding state (index + 1) rounds rest e' in
            rw joined ((read_exit_record-IsRecord binding state index one e, stored), ap suc count)
      ]
    ]

-- The reader returns the records of a range, one for each index in order: each has the three words that
-- the queue contract stores for its index, and a recipient, an amount and a bound asset.
pub read_exit_records_v5-AreRecords :
    (binding : ExitBindingV5) (state : StateMap) (from to : ℕ) (records : List ExitRecordV5)
    → read_exit_records_v5 binding state from to ≡ ok records
    → AreRecords binding state from records × (length records ≡ to - from)
unfolding read_exit_records_v5
read_exit_records_v5-AreRecords binding state from to records h =
    read_records-AreRecords binding state from (to - from) records h

pub exit_record_count_v5-word :
    (binding : ExitBindingV5) (state : StateMap) (count : ℕ)
    → exit_record_count_v5 binding state ≡ ok count
    → count ≡ queue_word binding state binding.count_slot
unfolding exit_record_count_v5 read_storage_v5
exit_record_count_v5-word binding state count h = ground arith

-- Withdrawals that pay what the queue holds from an index on, with ascending places in the tree.
abbrev pub ArePayouts : ExitBindingV5 → StateMap → ℕ → ℕ → ℕ → List WithdrawalV5 → Type 0
ArePayouts binding state epoch place index [] = Unit
ArePayouts binding state epoch place index (withdrawal ∷ withdrawals) =
    (withdrawal.index ≡ place)
    × (withdrawal.roster_epoch ≡ epoch)
    × IsStoredAt binding state index withdrawal.recipient withdrawal.asset withdrawal.amount
    × ArePayouts binding state epoch (place + 1) (index + 1) withdrawals

pub number_withdrawals-ArePayouts :
    (binding : ExitBindingV5) (state : StateMap) (epoch place index : ℕ)
    (records : List ExitRecordV5)
    → AreRecords binding state index records
    → ArePayouts binding state epoch place index (number_withdrawals place epoch records)
unfolding number_withdrawals
number_withdrawals-ArePayouts binding state epoch place index [] h = tt
number_withdrawals-ArePayouts binding state epoch place index (one ∷ records) h = (
  refl,
  refl,
  h.0.0,
  number_withdrawals-ArePayouts binding state epoch (place + 1) (index + 1) records h.1,
)
