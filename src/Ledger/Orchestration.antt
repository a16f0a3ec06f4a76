-- ===== src/Ledger/Orchestration.antt =====
-- The ledger of the operations that a conductor leads
-- (apps/desktop/src-tauri/src/room_orchestration_ledger.rs). What writing the file reports is a
-- function of the records. The lock is the flag `poisoned`.
pub mod Loading
pub mod Steps
pub mod Invariant
pub mod Interrupted
pub mod Refusals
pub mod Stages
mod Samples
pub mod File
use m_i_o.Prelude.{
  ℕ, suc, Bool, true, false, not, ◌&&◌, ◌||◌, Option, none, some, List, [], ◌∷◌, leb, ltb, between,
  nat_beq, if◌then◌else◌, length, contains, any, is_some_and, option_beq, list_beq, option_eq,
  Result, ok, err, ◌>>=◌, ◌==◌, list_eq, nat_eq, PartialEq, eq_iff, ◌≡◌, ◌↔◌, arith,
}
use m_i_o.Text.{Str}
use m_i_o.Identifier.{valid_identifier, valid_timestamp, valid_graphic_text}
use m_i_o.Command.Maps.{lookup, insert, adjust}
use m_i_o.Conductor.Ids.{ConductorOperationIds, derive, delegation}
use m_i_o.Conductor.State.{
  ConductorOperationStage, prepared, planning, delegating, synthesizing, completed, failed, unknown,
}
use m_i_o.Ledger.{maximum_records, prune}

abbrev pub maximum_workers : ℕ
maximum_workers = 3

pub record OrchestrationDelegationLink : Type 0 where
  pub target_participant_id : Str
  pub message_id : Str
  pub dispatch_id : Str

abbrev pub link_beq : OrchestrationDelegationLink → OrchestrationDelegationLink → Bool
link_beq a b =
    a.target_participant_id == b.target_participant_id
    && a.message_id == b.message_id
    && a.dispatch_id == b.dispatch_id

pub link_beq_iff : (a b : OrchestrationDelegationLink) → (link_beq a b ≡ true) ↔ (a ≡ b)
link_beq_iff a b = ground (
  arith,
  eq_iff a.target_participant_id b.target_participant_id,
  eq_iff a.message_id b.message_id,
  eq_iff a.dispatch_id b.dispatch_id,
)

instance abbrev pub link_eq : PartialEq OrchestrationDelegationLink
link_eq = record { test = link_beq; law = link_beq_iff }

pub record RoomOrchestrationRecord : Type 0 where
  pub operation_id : Str
  pub room_id : Str
  pub source_message_id : Str
  pub conductor_id : Str
  pub conductor_session_id : Option Str
  pub final_message_id : Str
  pub stage : ConductorOperationStage
  pub delegations : List OrchestrationDelegationLink
  pub updated_at : Str

pub data RoomOrchestrationBegin : Type 0 where
  reserved existing : RoomOrchestrationRecord → RoomOrchestrationBegin

pub data RoomOrchestrationLedgerError : Type 0 where
  invalid conflict io : RoomOrchestrationLedgerError

abbrev pub OrchestrationRecords : Type 0
OrchestrationRecords = List (Str × RoomOrchestrationRecord)

-- `DesktopRoomOrchestrationLedger`.
pub record OrchestrationLedger : Type 0 where
  pub records : OrchestrationRecords
  pub poisoned : Bool

abbrev pub Outcome : Type 0 → Type 0
Outcome A = OrchestrationLedger × Result RoomOrchestrationLedgerError A

-- Equality of stages.
abbrev pub stage_beq : ConductorOperationStage → ConductorOperationStage → Bool
stage_beq prepared prepared = true
stage_beq planning planning = true
stage_beq delegating delegating = true
stage_beq synthesizing synthesizing = true
stage_beq completed completed = true
stage_beq failed failed = true
stage_beq unknown unknown = true
stage_beq _ _ = false

abbrev pub valid_session_id : Str → Bool
valid_session_id value = valid_graphic_text value 256

-- The loop of `validate_delegations`, from an ordinal on and with the targets so far.
unfoldable pub validate_delegations_from :
    ConductorOperationIds → ℕ → List Str → List OrchestrationDelegationLink → Bool
validate_delegations_from ids ordinal targets [] = true
validate_delegations_from ids ordinal targets (link ∷ rest) =
    let later =
      validate_delegations_from ids (suc ordinal) (link.target_participant_id ∷ targets) rest in
    if not (valid_identifier link.target_participant_id)
      || contains targets link.target_participant_id
    then false
    else elim (delegation ids link.target_participant_id ordinal) [
      | err _ ↦ false
      | ok expected ↦
          if not (link.message_id == expected.message_id)
            || not (link.dispatch_id == expected.dispatch_id)
          then false
          else later
    ]

-- `validate_delegations` succeeds.
unfoldable pub validate_delegations :
    RoomOrchestrationRecord → List OrchestrationDelegationLink → Bool
validate_delegations r delegations =
    validate_delegations_from
      (record { operation_id = r.operation_id; final_message_id = r.final_message_id }) 0 []
      delegations

-- `validate_record` succeeds.
unfoldable pub valid_record : RoomOrchestrationRecord → Bool
valid_record r =
    if not (valid_identifier r.operation_id)
      || not (valid_identifier r.room_id)
      || not (valid_identifier r.source_message_id)
      || not (valid_identifier r.conductor_id)
      || is_some_and r.conductor_session_id (λ session_id. not (valid_session_id session_id))
      || not (valid_identifier r.final_message_id)
      || not (valid_timestamp r.updated_at)
      || ltb maximum_workers (length r.delegations)
    then false
    else elim (derive r.source_message_id r.conductor_id) [
      | err _ ↦ false
      | ok ids ↦
          if not (r.operation_id == ids.operation_id)
            || not (r.final_message_id == ids.final_message_id)
          then false
          else validate_delegations r r.delegations
    ]

unfoldable pub same_identity : RoomOrchestrationRecord → RoomOrchestrationRecord → Bool
same_identity left right =
    left.operation_id == right.operation_id
    && left.room_id == right.room_id
    && left.source_message_id == right.source_message_id
    && left.conductor_id == right.conductor_id
    && left.final_message_id == right.final_message_id

abbrev pub is_prunable : RoomOrchestrationRecord → Bool
is_prunable r = stage_beq r.stage completed || stage_beq r.stage failed

unfoldable pub prune_terminal_record : OrchestrationRecords → OrchestrationRecords
prune_terminal_record records = prune (λ r. r.updated_at) (λ r. r.operation_id) is_prunable records

-- The record that `begin` makes of the identifiers that it derives.
abbrev pub first_record : ConductorOperationIds → Str → Str → Str → Str → RoomOrchestrationRecord
first_record ids room_id source_message_id conductor_id updated_at = record {
  operation_id = ids.operation_id;
  room_id = room_id;
  source_message_id = source_message_id;
  conductor_id = conductor_id;
  conductor_session_id = none;
  final_message_id = ids.final_message_id;
  stage = prepared;
  delegations = [];
  updated_at = updated_at;
}

module _ (persist : OrchestrationRecords → Result RoomOrchestrationLedgerError (Unit {0})) where
  -- The rest of `begin`, with the record.
  unfoldable pub begin_record :
      OrchestrationLedger → RoomOrchestrationRecord → Outcome RoomOrchestrationBegin
  begin_record d r =
      if not (valid_record r)
      then (d, err invalid)
      else if d.poisoned
      then (d, err io)
      else elim (lookup r.operation_id d.records) [
        | some found ↦ if same_identity found r then (d, ok (existing found)) else (d, err conflict)
        | none ↦
            let pruned = prune_terminal_record d.records in
            if leb maximum_records (length pruned)
            then (d, err invalid)
            else elim (persist (insert r.operation_id r pruned)) [
              | err e ↦ (d, err e)
              | ok _ ↦ (record d { records = insert r.operation_id r pruned }, ok (reserved r))
            ]
      ]

  unfoldable pub begin :
      OrchestrationLedger
      → (room_id source_message_id conductor_id updated_at : Str) → Outcome RoomOrchestrationBegin
  begin d room_id source_message_id conductor_id updated_at =
      elim (derive source_message_id conductor_id) [
        | err _ ↦ (d, err invalid)
        | ok ids ↦
            begin_record d (first_record ids room_id source_message_id conductor_id updated_at)
      ]

  unfoldable pub transition :
      OrchestrationLedger
      → Str
      → List ConductorOperationStage
      → ConductorOperationStage
      → Str
      → Outcome (Unit {0})
  transition d id expected next_stage updated_at =
      if not (valid_identifier id) || not (valid_timestamp updated_at)
      then (d, err invalid)
      else if d.poisoned
      then (d, err io)
      else elim (lookup id d.records) [
        | none ↦ (d, err invalid)
        | some current ↦
            if stage_beq current.stage next_stage
            then (d, ok tt)
            else if not (any (stage_beq current.stage) expected)
            then (d, err conflict)
            else let next =
                adjust id (λ r. record r { stage = next_stage; updated_at = updated_at })
                  d.records in
              elim (persist next) [
                | err e ↦ (d, err e)
                | ok _ ↦ (record d { records = next }, ok tt)
              ]
      ]

  unfoldable pub mark_planning : OrchestrationLedger → Str → Str → Outcome (Unit {0})
  mark_planning d id updated_at = transition d id (prepared ∷ []) planning updated_at

  unfoldable pub mark_delegating :
      OrchestrationLedger → Str → Str → List OrchestrationDelegationLink → Str → Outcome (Unit {0})
  mark_delegating d id session_id links updated_at =
      if not (valid_session_id session_id) || not (between 1 maximum_workers (length links))
      then (d, err invalid)
      else if d.poisoned
      then (d, err io)
      else elim (lookup id d.records) [
        | none ↦ (d, err invalid)
        | some current ↦
            if stage_beq current.stage delegating
            then (if current.conductor_session_id == some session_id && current.delegations == links
                then (d, ok tt)
                else (d, err conflict))
            else if not (stage_beq current.stage planning) || not (valid_timestamp updated_at)
            then (d, err conflict)
            else if not (validate_delegations current links)
            then (d, err invalid)
            else let next =
                adjust id
                  (λ r. record r {
                    conductor_session_id = some session_id;
                    delegations = links;
                    stage = delegating;
                    updated_at = updated_at;
                  })
                  d.records in
              elim (persist next) [
                | err e ↦ (d, err e)
                | ok _ ↦ (record d { records = next }, ok tt)
              ]
      ]

  unfoldable pub mark_synthesizing : OrchestrationLedger → Str → Str → Outcome (Unit {0})
  mark_synthesizing d id updated_at =
      transition d id (planning ∷ delegating ∷ []) synthesizing updated_at

  unfoldable pub mark_completed : OrchestrationLedger → Str → Str → Outcome (Unit {0})
  mark_completed d id updated_at = transition d id (synthesizing ∷ []) completed updated_at

  unfoldable pub mark_failed : OrchestrationLedger → Str → Str → Outcome (Unit {0})
  mark_failed d id updated_at =
      transition d id (prepared ∷ planning ∷ delegating ∷ synthesizing ∷ []) failed updated_at

  unfoldable pub mark_unknown : OrchestrationLedger → Str → Str → Outcome (Unit {0})
  mark_unknown d id updated_at = transition d id (planning ∷ synthesizing ∷ []) unknown updated_at
