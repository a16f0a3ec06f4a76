-- ===== src/Ledger/Orchestration/Invariant.antt =====
-- The invariant of the ledger of operations, after any file and any calls
-- (apps/desktop/src-tauri/src/room_orchestration_ledger.rs).
pub mod Calls
use m_i_o.Prelude.{
  ℕ, ◌+◌, ◌≤◌, ◌≡◌, ◌<◌, inl, inr, refl, subst, ◌∙◌, Bool, true, false, none, some, List, [], ◌∷◌,
  any, between, arith, length, Result, ok, err, Result-cases, Bool-cases, Option-cases,
}
use m_i_o.Text.{Str}
use m_i_o.Identifier.{valid_timestamp}
use m_i_o.Command.Maps.{
  lookup, insert, adjust, IsMap, AllEntries, AllEntries-lookup, AllEntries-insert,
  AllEntries-adjust, IsMap-insert, IsMap-adjust, length-insert, length-adjust,
}
use m_i_o.Conductor.Ids.{ConductorOperationIds, derive}
use m_i_o.Conductor.State.{ConductorOperationStage, delegating}
use m_i_o.Ledger.{maximum_records}
use m_i_o.Ledger.Pruning.{IsLedgerOf, prune-IsLedgerOf, prune-lookup-some, prune-lookup-none}
use m_i_o.Ledger.Orchestration.{
  OrchestrationDelegationLink, RoomOrchestrationRecord, RoomOrchestrationLedgerError,
  OrchestrationRecords, OrchestrationLedger, maximum_workers, valid_session_id, valid_record,
  validate_delegations, is_prunable, prune_terminal_record, first_record, begin_record, begin,
  transition, mark_planning, mark_delegating, mark_synthesizing, mark_completed, mark_failed,
  mark_unknown,
}
use m_i_o.Ledger.Orchestration.Loading.{
  PersistedFile, is_interrupted, normalize, load_records, load_ledger, open_ledger,
}
use m_i_o.Ledger.Orchestration.Steps.{
  Persist, Fails, moved, delegated, IsReservation, begin_record-cases, transition-cases,
  mark_delegating-cases,
}

-- A valid record under its identifier.
abbrev pub IsRecordAt : Str → RoomOrchestrationRecord → Type 0
IsRecordAt key r = (r.operation_id ≡ key) × (valid_record r ≡ true)

abbrev pub IsLedger : OrchestrationRecords → Type 0
IsLedger records = IsLedgerOf IsRecordAt records

pub prune-IsLedger :
    (records : OrchestrationRecords) → IsLedger records → IsLedger (prune_terminal_record records)
unfolding prune_terminal_record
prune-IsLedger records l =
    prune-IsLedgerOf (λ r. r.updated_at) (λ r. r.operation_id) is_prunable IsRecordAt
      (λ key. λ r. λ at. at.0) records l

pub prune-kept :
    (records : OrchestrationRecords) (id : Str) {r : RoomOrchestrationRecord}
    → IsLedger records
    → lookup id records ≡ some r
    → is_prunable r ≡ false
    → lookup id (prune_terminal_record records) ≡ some r
unfolding prune_terminal_record
prune-kept records id {r} l e u =
    prune-lookup-some (λ r. r.updated_at) (λ r. r.operation_id) is_prunable IsRecordAt
      (λ key. λ r. λ at. at.0) records id l e u

prune-absent :
    (records : OrchestrationRecords) (id : Str)
    → IsLedger records
    → lookup id records ≡ none
    → lookup id (prune_terminal_record records) ≡ none
unfolding prune_terminal_record
prune-absent records id l e =
    prune-lookup-none (λ r. r.updated_at) (λ r. r.operation_id) is_prunable IsRecordAt
      (λ key. λ r. λ at. at.0) records id l e

insert-IsLedger :
    (records : OrchestrationRecords) (r : RoomOrchestrationRecord)
    → valid_record r ≡ true
    → lookup r.operation_id records ≡ none
    → length records < maximum_records
    → IsMap records
    → AllEntries IsRecordAt records
    → IsLedger (insert r.operation_id r records)
insert-IsLedger records r v new room_left m k =
    let longer = length-insert r.operation_id r records new in
    (
      IsMap-insert r.operation_id r records new m,
      AllEntries-insert IsRecordAt r.operation_id r records (refl, v) k,
      omega (arith, longer, room_left),
    )

adjust-IsLedger :
    (records : OrchestrationRecords) (id : Str)
    (f : RoomOrchestrationRecord → RoomOrchestrationRecord)
    → ((r : RoomOrchestrationRecord)
        → lookup id records ≡ some r
        → IsRecordAt id r
        → IsRecordAt id (f r))
    → IsLedger records
    → IsLedger (adjust id f records)
adjust-IsLedger records id f keeps (m, k, n) =
    let size = length-adjust id f records in
    (
      IsMap-adjust id f records m,
      AllEntries-adjust IsRecordAt id f records
          (λ r. λ e. keeps r e (AllEntries-lookup IsRecordAt id records k e)) k,
      omega (arith, size, n),
    )

moved-valid :
    (r : RoomOrchestrationRecord) (next_stage : ConductorOperationStage) (updated_at : Str)
    → valid_record r ≡ true
    → valid_timestamp updated_at ≡ true
    → valid_record (moved next_stage updated_at r) ≡ true
unfolding valid_record validate_delegations
moved-valid r next_stage updated_at v t =
    elim (Result-cases (derive r.source_message_id r.conductor_id)) [
      | inl (_, none_made) ↦ absurd (ground (arith, v, none_made))
      | inr (ids, made) ↦ ground (arith, v, t, made)
    ]

delegated-valid :
    (r : RoomOrchestrationRecord) (session_id : Str) (links : List OrchestrationDelegationLink)
    (updated_at : Str)
    → valid_record r ≡ true
    → valid_timestamp updated_at ≡ true
    → valid_session_id session_id ≡ true
    → between 1 maximum_workers (length links) ≡ true
    → validate_delegations r links ≡ true
    → valid_record (delegated session_id links updated_at r) ≡ true
unfolding valid_record validate_delegations
delegated-valid r session_id links updated_at v t session few allowed =
    elim (Result-cases (derive r.source_message_id r.conductor_id)) [
      | inl (_, none_made) ↦ absurd (ground (arith, v, none_made))
      | inr (ids, made) ↦ ground (arith, v, t, session, few, allowed, made)
    ]

module _ (persist : Persist) (d : OrchestrationLedger) where
  pub begin-IsLedger :
      (room_id source_message_id conductor_id updated_at : Str)
      → IsLedger d.records
      → IsLedger (begin persist d room_id source_message_id conductor_id updated_at).0.records
  unfolding begin
  begin-IsLedger room_id source_message_id conductor_id updated_at l =
      elim (Result-cases (derive source_message_id conductor_id)) [
        | inl (_, none_made) ↦ rw (none_made, begin) l
        | inr (ids, made) ↦
            rw (made, begin)
              (started (first_record ids room_id source_message_id conductor_id updated_at))
      ]
    where
      started : (r : RoomOrchestrationRecord) → IsLedger (begin_record persist d r).0.records
      started r = elim (begin_record-cases persist d r) [
        | inl (_, same) ↦ rw same l
        | inr (inl (found, held, same, known)) ↦ rw known l
        | inr (inr (v, new, room_left, made)) ↦
            let (m, k, n) = prune-IsLedger d.records l in
            rw made (
              insert-IsLedger (prune_terminal_record d.records) r v
                (prune-absent d.records r.operation_id l new) room_left m k)
      ]

  pub transition-IsLedger :
      (id : Str) (expected : List ConductorOperationStage) (next_stage : ConductorOperationStage)
      (updated_at : Str)
      → IsLedger d.records
      → IsLedger (transition persist d id expected next_stage updated_at).0.records
  transition-IsLedger id expected next_stage updated_at l =
      elim (transition-cases persist d id expected next_stage updated_at) [
        | inl (_, same) ↦ rw same l
        | inr (inl same) ↦ rw same l
        | inr (inr (r, held, right, t, made)) ↦ rw made (
            adjust-IsLedger d.records id (moved next_stage updated_at)
              (λ s. λ e. λ at. (at.0, moved-valid s next_stage updated_at at.1 t)) l)
      ]

  pub mark_delegating-IsLedger :
      (id session_id : Str) (links : List OrchestrationDelegationLink) (updated_at : Str)
      → IsLedger d.records
      → IsLedger (mark_delegating persist d id session_id links updated_at).0.records
  mark_delegating-IsLedger id session_id links updated_at l =
      elim (mark_delegating-cases persist d id session_id links updated_at) [
        | inl (_, same) ↦ rw same l
        | inr (inl same) ↦ rw same l
        | inr (inr (r, held, right, t, session, few, fine, made)) ↦ rw made (
            adjust-IsLedger d.records id (delegated session_id links updated_at)
              (λ s. λ e. λ at.
                let same : r ≡ s = ground (arith, held, e) in
                let allowed : validate_delegations s links ≡ true =
                  subst (λ x. validate_delegations x links ≡ true) same fine in
                (at.0, delegated-valid s session_id links updated_at at.1 t session few allowed))
              l)
      ]
