-- ===== src/Policy/Calls.antt =====
-- Which calls a certified policy admits: `allows_call` and `validate_active_member_arguments` of
-- zkvm/crates/stf-core/src/policy/enforce.rs, `validate_transaction_entry` of policy/inspector.rs.
use zkdeal_prover.Prelude.{
  ℕ, ◌-◌, Bool, true, false, not, ◌&&◌, Option, none, some, List, [], ◌∷◌, leb, ◌==◌, ◌!=◌,
  if◌then◌else◌, is_some_and, is_none, length, any, find?, contains, take, drop, Result, ok, err,
  ◌>>=◌, ◌>>◌, reject_if, ok_or,
}
use zkdeal_prover.Prelude.Map.{lookup}
use zkdeal_prover.Words.{checked_add_u64, checked_mul_u64, from_be_bytes}
use zkdeal_prover.StfTypes.Scalars.{Address, Bytes, Selector}
use zkdeal_prover.Policy.{
  PolicyRefusal, abi_index_overflow, argument_missing, argument_not_an_address,
  argument_not_a_member, creation_disabled, entry_outside_envelope, AllowedCallKind, call,
  static_call, delegate_call, kind_code, CallRule, ActiveMemberArgumentRule, ExecutionPolicyV4,
  active_member_sentinel,
}

-- Whether the address is a precompile of Osaka; revm keeps the list.
abbrev pub Precompiles : Type 0
Precompiles = Address → Bool

abbrev pub is_delegate_call : AllowedCallKind → Bool
is_delegate_call delegate_call = true
is_delegate_call call = false
is_delegate_call static_call = false

-- A rule of the caller, or of the members when the caller is one.
unfoldable pub has_call_rule :
    ExecutionPolicyV4 → Address → Address → AllowedCallKind → Selector → Bool
has_call_rule policy caller target kind selector =
    let caller_rule =
      if contains caller policy.active_members then active_member_sentinel else caller in
    any
      (λ (rule : CallRule).
        rule.caller == caller_rule
        && rule.target == target
        && contains (kind_code kind) rule.kinds
        && contains selector rule.selectors)
      policy.call_rules

unfoldable pub allows_call :
    Precompiles → ExecutionPolicyV4 → Address → Address → AllowedCallKind → Option Selector → Bool
unfolding has_call_rule
allows_call is_precompile policy caller target kind selector =
    if not policy.certified
    then true
    else if is_precompile target && not (is_none (lookup caller policy.code_hashes))
    then not (is_delegate_call kind)
    else is_some_and selector
        (λ some_selector. has_call_rule policy caller target kind some_selector)

-- `bytes.get(start..end)`
unfoldable pub get_range : Bytes → ℕ → ℕ → Option Bytes
get_range bytes start end' =
    if leb start end' && leb end' (length bytes)
    then some (take (end' - start) (drop start bytes))
    else none

-- `input.get(..4)`
unfoldable pub selector_of : Bytes → Option Selector
selector_of input = if leb 4 (length input) then some (from_be_bytes 0 (take 4 input)) else none

-- The first byte of an argument word, and the one behind its last.
argument_start : ℕ → Option ℕ
argument_start word_index = elim (checked_mul_u64 word_index 32) [
  | none ↦ none
  | some words ↦ checked_add_u64 4 words
]

-- One round of the loop over the argument words.
unfoldable pub validate_argument : ExecutionPolicyV4 → Bytes → ℕ → Result PolicyRefusal (Unit {0})
unfolding argument_start
validate_argument policy input word_index = do
  start ← ok_or (argument_start word_index) abi_index_overflow
  end' ← ok_or (checked_add_u64 start 32) abi_index_overflow
  word ← ok_or (get_range input start end') argument_missing
  reject_if (any (λ (byte : ℕ). byte != 0) (take 12 word)) argument_not_an_address
  reject_if (not (contains (from_be_bytes 0 (drop 12 word)) policy.active_members))
      argument_not_a_member

unfoldable pub validate_arguments :
    ExecutionPolicyV4 → Bytes → List ℕ → Result PolicyRefusal (Unit {0})
validate_arguments policy input [] = ok tt
validate_arguments policy input (word_index ∷ word_indices) = do
  validate_argument policy input word_index
  validate_arguments policy input word_indices

unfoldable pub validate_active_member_arguments :
    ExecutionPolicyV4 → Address → Option Selector → Bytes → Result PolicyRefusal (Unit {0})
validate_active_member_arguments policy target none input = ok tt
validate_active_member_arguments policy target (some selector) input =
    elim (find?
      (λ (rule : ActiveMemberArgumentRule). rule.target == target && rule.selector == selector)
      policy.active_member_argument_rules) [
        | none ↦ ok tt
        | some rule ↦ validate_arguments policy input rule.argument_word_indices
      ]

-- The outermost frame of a transaction; a `kind` of `none` is a creation.
unfoldable pub validate_transaction_entry :
    Precompiles
    → ExecutionPolicyV4
    → Address
    → Option Address
    → Bytes
    → Result PolicyRefusal (Unit {0})
validate_transaction_entry is_precompile policy caller none input =
    if not policy.certified
    then ok tt
    else if policy.allow_contract_creation
    then ok tt
    else err creation_disabled
validate_transaction_entry is_precompile policy caller (some target) input =
    if not policy.certified then ok tt else do
      let selector = selector_of input
      reject_if (not (allows_call is_precompile policy caller target call selector))
          entry_outside_envelope
      validate_active_member_arguments policy target selector input
