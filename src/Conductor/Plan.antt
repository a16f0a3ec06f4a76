-- ===== src/Conductor/Plan.antt =====
-- The plan that a conductor answers with: its types, and `parse_conductor_plan_v1`
-- (crates/moe-core/src/conductor.rs). JSON decoding is serde_json's and is a parameter.
pub mod Targets
use m_i_o.Prelude.{
  ℕ, ◌≡◌, ◌↔◌, Bool, true, false, ◌&&◌, ◌||◌, not, Option, none, some, List, [], ◌∷◌, arith, ltb,
  nat_beq, between, if◌then◌else◌, length, is_empty, find, Result, ok, err, ◌>>=◌, is_some,
  is_some_and, PartialEq, ◌==◌, eq_iff, contains, nat_eq, list_eq, option_eq,
}
use m_i_o.Text.{Str, is_utf8}
use m_i_o.Identifier.{valid_identifier, valid_bounded_text}
use m_i_o.Room.Types.{RoomParticipantKind, human, ai, kind_eq}

abbrev pub maximum_plan_bytes : ℕ
maximum_plan_bytes = 16000

abbrev pub maximum_direct_answer_bytes : ℕ
maximum_direct_answer_bytes = 100000

abbrev pub maximum_delegation_task_bytes : ℕ
maximum_delegation_task_bytes = 4000

abbrev pub maximum_workers : ℕ
maximum_workers = 3

pub record ConductorParticipant : Type 0 where
  pub id : Str
  pub kind : RoomParticipantKind
  pub can_receive_delegation : Bool

pub record ConductorPlanContext : Type 0 where
  pub owner_id : Str
  pub conductor_id : Str
  pub participants : List ConductorParticipant

pub data ConductorPlanMode : Type 0 where
  answer delegate : ConductorPlanMode

pub record ConductorDelegation : Type 0 where
  pub target_participant_id : Str
  pub task : Str

pub record ConductorPlanV1 : Type 0 where
  pub version : ℕ
  pub mode : ConductorPlanMode
  pub direct_answer : Option Str
  pub delegations : List ConductorDelegation

pub data ConductorPlanError : Type 0 where
  invalid_context invalid_utf8 envelope_too_large invalid_envelope : ConductorPlanError
  unsupported_version invalid_direct_answer invalid_delegation_count : ConductorPlanError
  invalid_delegation_task duplicate_target target_is_owner : ConductorPlanError
  target_is_conductor target_not_room_member target_is_human : ConductorPlanError
  target_unsupported : ConductorPlanError

-- `serde_json::Value`, as far as the code tells its variants apart.
pub data Value : Type 0 where
  null : Value
  string : Str → Value
  other : Value

pub record RawConductorPlanV1 : Type 0 where
  pub version : ℕ
  pub mode : ConductorPlanMode
  pub direct_answer : Value
  pub delegations : List ConductorDelegation

-- The derived `==` of the plan's types.
abbrev pub mode_beq : ConductorPlanMode → ConductorPlanMode → Bool
mode_beq answer answer = true
mode_beq delegate delegate = true
mode_beq _ _ = false

pub mode_beq_iff : (a b : ConductorPlanMode) → (mode_beq a b ≡ true) ↔ (a ≡ b)
mode_beq_iff a b = ground arith

instance abbrev pub mode_eq : PartialEq ConductorPlanMode
mode_eq = record { test = mode_beq; law = mode_beq_iff }

abbrev pub delegation_beq : ConductorDelegation → ConductorDelegation → Bool
delegation_beq a b = a.target_participant_id == b.target_participant_id && a.task == b.task

pub delegation_beq_iff : (a b : ConductorDelegation) → (delegation_beq a b ≡ true) ↔ (a ≡ b)
delegation_beq_iff a b =
    ground (arith, eq_iff a.target_participant_id b.target_participant_id, eq_iff a.task b.task)

instance abbrev pub delegation_eq : PartialEq ConductorDelegation
delegation_eq = record { test = delegation_beq; law = delegation_beq_iff }

abbrev pub plan_beq : ConductorPlanV1 → ConductorPlanV1 → Bool
plan_beq a b =
    a.version == b.version
    && a.mode == b.mode
    && a.direct_answer == b.direct_answer
    && a.delegations == b.delegations

pub plan_beq_iff : (a b : ConductorPlanV1) → (plan_beq a b ≡ true) ↔ (a ≡ b)
plan_beq_iff a b = ground (
  arith,
  eq_iff a.version b.version,
  eq_iff a.mode b.mode,
  eq_iff a.direct_answer b.direct_answer,
  eq_iff a.delegations b.delegations,
)

instance abbrev pub plan_eq : PartialEq ConductorPlanV1
plan_eq = record { test = plan_beq; law = plan_beq_iff }

abbrev pub has_id : Str → ConductorParticipant → Bool
has_id value participant = participant.id == value

-- The `any` over the participants with the set of the identifiers seen so far.
unfoldable pub bad_participants : List Str → List ConductorParticipant → Bool
bad_participants participant_ids [] = false
bad_participants participant_ids (participant ∷ rest) =
    not (valid_identifier participant.id)
    || contains participant_ids participant.id
    || bad_participants (participant.id ∷ participant_ids) rest

unfoldable pub validate_context : ConductorPlanContext → Result ConductorPlanError (Unit {0})
validate_context context =
    if not (valid_identifier owner_id)
      || not (valid_identifier conductor_id)
      || owner_id == conductor_id
    then err invalid_context
    else if bad_participants [] participants
    then err invalid_context
    else if not (is_some_and (find (has_id owner_id) participants) (λ p. p.kind == human))
        || not (is_some_and (find (has_id conductor_id) participants) (λ p. p.kind == ai))
    then err invalid_context
    else ok tt
  where
    open context use {owner_id, conductor_id, participants}

unfoldable pub validate_target :
    ConductorPlanContext → ConductorDelegation → Result ConductorPlanError (Unit {0})
validate_target context delegation =
    elim (find (has_id delegation.target_participant_id) context.participants) [
      | none ↦ err target_not_room_member
      | some participant ↦
          if not (participant.kind == ai)
          then err target_is_human
          else if not participant.can_receive_delegation
          then err target_unsupported
          else ok tt
    ]

-- The loop over the delegations, with the set of the targets seen so far.
unfoldable pub validate_delegations_from :
    List Str
    → List ConductorDelegation
    → ConductorPlanContext
    → Result ConductorPlanError (Unit {0})
validate_delegations_from targets [] context = ok tt
validate_delegations_from targets (delegation ∷ rest) context =
    if not (valid_bounded_text delegation.task maximum_delegation_task_bytes)
    then err invalid_delegation_task
    else if delegation.target_participant_id == context.owner_id
    then err target_is_owner
    else if delegation.target_participant_id == context.conductor_id
    then err target_is_conductor
    else if contains targets delegation.target_participant_id
    then err duplicate_target
    else validate_target context delegation >>= λ _.
        validate_delegations_from (delegation.target_participant_id ∷ targets) rest context

unfoldable pub validate_delegations :
    List ConductorDelegation → ConductorPlanContext → Result ConductorPlanError (Unit {0})
validate_delegations delegations context = validate_delegations_from [] delegations context

unfoldable pub direct_answer_of : Value → Result ConductorPlanError (Option Str)
direct_answer_of null = ok none
direct_answer_of (string text) = ok (some text)
direct_answer_of other = err invalid_direct_answer

-- The part of `parse_conductor_plan_v1` behind the decoding.
unfoldable pub plan_of :
    ConductorPlanContext
    → RawConductorPlanV1
    → Option Str
    → Result ConductorPlanError ConductorPlanV1
plan_of context raw direct_answer = elim raw.mode [
  | answer ↦
      if is_empty raw.delegations
        && is_some_and direct_answer (λ text. valid_bounded_text text maximum_direct_answer_bytes)
      then ok
          (record { version = 1; mode = raw.mode; direct_answer = direct_answer; delegations = [] })
      else err invalid_direct_answer
  | delegate ↦
      if is_some direct_answer || not (between 1 maximum_workers (length raw.delegations))
      then err invalid_delegation_count
      else validate_delegations raw.delegations context >>= λ _. ok (record {
        version = 1;
        mode = raw.mode;
        direct_answer = none;
        delegations = raw.delegations;
      })
]

-- `from_slice` stands for `serde_json::from_slice`.
module _ (from_slice : List ℕ → Option RawConductorPlanV1) where
  unfoldable pub parse_conductor_plan_v1 :
      List ℕ → ConductorPlanContext → Result ConductorPlanError ConductorPlanV1
  parse_conductor_plan_v1 input context = validate_context context >>= λ _.
      if ltb maximum_plan_bytes (length input)
      then err envelope_too_large
      else if not (is_utf8 input)
      then err invalid_utf8
      else elim (from_slice input) [
        | none ↦ err invalid_envelope
        | some raw ↦
            if not (nat_beq raw.version 1)
            then err unsupported_version
            else direct_answer_of raw.direct_answer >>= λ direct_answer.
                plan_of context raw direct_answer
      ]
