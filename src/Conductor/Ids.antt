-- ===== src/Conductor/Ids.antt =====
-- The identifiers derived for an operation and its delegations (crates/moe-core/src/conductor.rs):
-- two 64-bit FNV hashes, printed in hexadecimal.
pub mod Shape
use Prim.Native.Nat.{bit_xor}
use m_i_o.Prelude.{
  ℕ, zero, suc, ◌+◌, ◌*◌, ◌/◌, ◌%◌, ◌^◌, ◌||◌, not, List, [], ◌∷◌, ◌++◌, ltb, leb, if◌then◌else◌,
  Result, ok, err, nat_eq, list_eq,
}
use m_i_o.Text.{Str, lit, bytes, len}
use m_i_o.Identifier.{valid_identifier}
use m_i_o.Conductor.Plan.{maximum_workers}

pub record ConductorOperationIds : Type 0 where
  pub operation_id : Str
  pub final_message_id : Str

pub record ConductorDelegationIds : Type 0 where
  pub message_id : Str
  pub dispatch_id : Str

pub data ConductorOperationError : Type 0 where
  invalid_identity invalid_stage invalid_outcome conflicting_replay : ConductorOperationError
  unknown_worker : ConductorOperationError

-- `u64::to_le_bytes` at 8 bytes.
unfoldable pub to_le_bytes : ℕ → ℕ → List ℕ
to_le_bytes zero n = []
to_le_bytes (suc k) n = n % 256 ∷ to_le_bytes k (n / 256)

abbrev pub u64_mod : ℕ
u64_mod = 2 ^ 64

unfoldable pub fnv_step : ℕ → ℕ → ℕ
fnv_step state byte = bit_xor state byte * 0x100000001b3 % u64_mod

-- Both states, after the same bytes; the second sees each byte with `0xa5` mixed in.
unfoldable pub hash_bytes : ℕ × ℕ → List ℕ → ℕ × ℕ
unfolding fnv_step
hash_bytes state [] = state
hash_bytes (first, second) (byte ∷ rest) =
    hash_bytes (fnv_step first byte, fnv_step second (bit_xor byte 0xa5)) rest

unfoldable pub hash_parts : ℕ × ℕ → List Str → ℕ × ℕ
unfolding hash_bytes to_le_bytes len bytes
hash_parts state [] = state
hash_parts state (part ∷ rest) =
    hash_parts (hash_bytes (hash_bytes state (to_le_bytes 8 (len part))) (bytes part)) rest

abbrev pub hex_digit : ℕ → ℕ
hex_digit d = if ltb d 10 then b'0' + d else 87 + d

-- `{:016x}` of a 64-bit value: `k` hexadecimal digits, the highest first.
unfoldable pub hex_digits : ℕ → ℕ → Str
hex_digits zero n = []
hex_digits (suc k) n = hex_digits k (n / 16) ++ hex_digit (n % 16) ∷ []

unfoldable pub stable_identifier : Str → List Str → Str
unfolding hash_parts hex_digits
stable_identifier prefix parts =
    let (first, second) = hash_parts (0xcbf29ce484222325, 0x84222325cbf29ce4) parts in
    prefix ++ b'-' ∷ (hex_digits 16 first ++ hex_digits 16 second)

-- `usize::to_string`; `n` has fewer than `n + 1` digits, and so the fuel is enough.
decimal : ℕ → ℕ → Str
decimal zero n = []
decimal (suc fuel) n =
    let rest = decimal fuel (n / 10) in
    if ltb n 10 then (b'0' + n) ∷ [] else rest ++ (b'0' + n % 10) ∷ []

unfoldable pub to_string : ℕ → Str
unfolding decimal
to_string n = decimal (suc n) n

abbrev pub operation_ids_of : Str → ConductorOperationIds
operation_ids_of id = record {
  operation_id = id;
  final_message_id = stable_identifier (lit "conductor-final-v1") (id ∷ []);
}

unfoldable pub derive : Str → Str → Result ConductorOperationError ConductorOperationIds
derive source_message_id conductor_id =
    if not (valid_identifier source_message_id) || not (valid_identifier conductor_id)
    then err invalid_identity
    else ok (
        operation_ids_of (
          stable_identifier (lit "conductor-operation-v1") (source_message_id ∷ conductor_id ∷ [])))

abbrev pub delegation_ids_of : ConductorOperationIds → Str → Str → ConductorDelegationIds
delegation_ids_of ids target_participant_id ordinal = record {
  message_id =
      stable_identifier (lit "conductor-delegation-v1")
        (ids.operation_id ∷ target_participant_id ∷ ordinal ∷ []);
  dispatch_id =
      stable_identifier (lit "conductor-dispatch-v1")
        (ids.operation_id ∷ target_participant_id ∷ ordinal ∷ []);
}

unfoldable pub delegation :
    ConductorOperationIds → Str → ℕ → Result ConductorOperationError ConductorDelegationIds
delegation ids target_participant_id ordinal =
    if not (valid_identifier target_participant_id) || leb maximum_workers ordinal
    then err invalid_identity
    else ok (delegation_ids_of ids target_participant_id (to_string ordinal))
