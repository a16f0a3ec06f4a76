-- ===== src/Ledger/Orchestration/Samples.antt =====
-- A small ledger of operations and its file
-- (apps/desktop/src-tauri/src/room_orchestration_ledger.rs), at which the theorems are applied.
use m_i_o.Prelude.{
  ℕ, ◌≡◌, refl, Bool, true, false, Option, none, some, List, [], ◌∷◌, ok, err, All, Result,
}
use m_i_o.Text.{lit}
use m_i_o.Command.Maps.{lookup, insert}
use m_i_o.Conductor.Ids.{ConductorOperationIds, operation_ids_of, stable_identifier}
use m_i_o.Conductor.State.{planning, unknown}
use m_i_o.Ledger.Storage.{absent, file, Files, Answers, IsOldOrNew}
use m_i_o.Ledger.Orchestration.{
  RoomOrchestrationRecord, RoomOrchestrationLedgerError, io, OrchestrationLedger,
  OrchestrationRecords, first_record,
}
use m_i_o.Ledger.Orchestration.Loading.{PersistedFile, open_ledger}
use m_i_o.Ledger.Orchestration.Steps.{Persist}
use m_i_o.Ledger.Orchestration.Invariant.{IsLedger}
use m_i_o.Ledger.Orchestration.Invariant.Calls.{
  Call, begins, plans, completes, after_call, after_calls, after_calls-open-IsLedger,
}
use m_i_o.Ledger.Orchestration.Interrupted.{interrupted_stays_unknown}
use m_i_o.Ledger.Orchestration.Stages.{Runs, stage_at, after_calls-Runs}
use m_i_o.Ledger.Orchestration.Refusals.{succeeds, refused_call_unchanged}
use m_i_o.Ledger.Orchestration.File.{persist_file}
use m_i_o.Ledger.Orchestration.File.Recovery.{persist_file-IsOldOrNew}

abbrev ids : ConductorOperationIds
ids = operation_ids_of (stable_identifier (lit "conductor-operation-v1") (lit "m1" ∷ lit "ai" ∷ []))

abbrev operation : RoomOrchestrationRecord
operation = record (first_record ids (lit "r1") (lit "m1") (lit "ai") (lit "t1")) {
  stage = planning;
}

abbrev persisted : PersistedFile
persisted = record { file_version = 1; records = operation ∷ [] }

abbrev writes : Persist
writes records = ok tt

abbrev breaks : Persist
breaks records = err io

abbrev opened : OrchestrationLedger
opened = record {
  records = (ids.operation_id, record operation { stage = unknown }) ∷ [];
  poisoned = false;
}

opens : open_ledger writes persisted ≡ ok opened
unfolding open_ledger m_i_o.Ledger.Orchestration.Loading.load_ledger
    m_i_o.Ledger.Orchestration.Loading.load_records m_i_o.Ledger.Orchestration.valid_record
    m_i_o.Identifier.valid_identifier stable_identifier m_i_o.Identifier.valid_graphic_text
    m_i_o.Conductor.Ids.derive m_i_o.Prelude.list_beq
    m_i_o.Ledger.Orchestration.validate_delegations
    m_i_o.Ledger.Orchestration.validate_delegations_from lookup m_i_o.Prelude.any insert
opens = refl

abbrev calls : List (Persist × Call)
calls =
    (writes, begins (lit "r1") (lit "m2") (lit "ai") (lit "t2"))
    ∷ (writes, plans ids.operation_id (lit "t3"))
    ∷ (breaks, begins (lit "r1") (lit "m1") (lit "ai") (lit "t4"))
    ∷ (writes, completes ids.operation_id (lit "t5"))
    ∷ []

opened-IsLedger : IsLedger opened.records
unfolding after_calls
opened-IsLedger = after_calls-open-IsLedger writes persisted [] opens

after_calls-open-IsLedger_example : IsLedger (after_calls opened calls).records
after_calls-open-IsLedger_example = after_calls-open-IsLedger writes persisted calls opens

interrupted_stays_unknown_example :
    lookup operation.operation_id (after_calls opened calls).records
    ≡ some (record operation { stage = unknown })
interrupted_stays_unknown_example =
    interrupted_stays_unknown writes persisted 0 calls opens refl refl

refused_call_unchanged_example :
    after_call breaks opened (plans ids.operation_id (lit "t3")) ≡ opened
unfolding succeeds m_i_o.Ledger.Orchestration.mark_planning m_i_o.Ledger.Orchestration.transition
    m_i_o.Identifier.valid_identifier stable_identifier m_i_o.Identifier.valid_graphic_text lookup
    m_i_o.Prelude.list_beq m_i_o.Prelude.any
refused_call_unchanged_example =
    refused_call_unchanged breaks opened (plans ids.operation_id (lit "t3")) refl

-- Every ledger has the same text, which is read as the sample.
abbrev to_vec : PersistedFile → Option (List ℕ)
to_vec f = some (2 ∷ [])

abbrev from_slice : List ℕ → Option PersistedFile
from_slice body = some persisted

abbrev failing : Answers
failing = record {
  has_parent = true;
  parent_created = true;
  parent_is_dir = true;
  has_name = true;
  temp_written = true;
  backup_removed = true;
  primary_moved = true;
  temp_moved = false;
  backup_restored = true;
}

abbrev before : Files
before = record { primary = file (1 ∷ []); backup = file (7 ∷ []) }

-- The old backup is removed, the ledger becomes the backup, and then the ledger again.
persist_file-IsOldOrNew_example : All (IsOldOrNew before (2 ∷ [])) (
    (record { primary = file (1 ∷ []); backup = absent })
    ∷ (record { primary = absent; backup = file (1 ∷ []) })
    ∷ (record { primary = file (1 ∷ []); backup = absent })
    ∷ [])
unfolding persist_file m_i_o.Ledger.Orchestration.File.prepare_temp
    m_i_o.Ledger.Orchestration.File.replace_checked m_i_o.Ledger.Orchestration.File.read_file
    m_i_o.Ledger.Orchestration.File.replace_readable m_i_o.Ledger.Storage.replace
persist_file-IsOldOrNew_example =
    persist_file-IsOldOrNew to_vec from_slice true failing before opened.records refl

after_calls-Runs_example :
    Runs 4 (stage_at ids.operation_id opened) (stage_at ids.operation_id (after_calls opened calls))
after_calls-Runs_example = after_calls-Runs opened calls ids.operation_id opened-IsLedger
