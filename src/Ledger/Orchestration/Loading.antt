-- ===== src/Ledger/Orchestration/Loading.antt =====
-- How the ledger of operations is made of the decoded file
-- (apps/desktop/src-tauri/src/room_orchestration_ledger.rs).
use m_i_o.Prelude.{
  ℕ, Bool, false, not, ◌||◌, none, some, List, [], ◌∷◌, ltb, nat_beq, if◌then◌else◌, length, any,
  option_eq, Result, ok, err, ◌>>=◌, list_eq, nat_eq,
}
use m_i_o.Command.Maps.{lookup, insert}
use m_i_o.Conductor.State.{planning, synthesizing, unknown}
use m_i_o.Ledger.{maximum_records}
use m_i_o.Ledger.Orchestration.{
  RoomOrchestrationRecord, RoomOrchestrationLedgerError, invalid, OrchestrationRecords,
  OrchestrationLedger, stage_beq, valid_record,
}

abbrev pub is_interrupted : RoomOrchestrationRecord → Bool
is_interrupted r = stage_beq r.stage planning || stage_beq r.stage synthesizing

-- What `load` makes of a record whose call was under way.
abbrev pub normalize : RoomOrchestrationRecord → RoomOrchestrationRecord
normalize r = if is_interrupted r then record r { stage = unknown } else r

-- The loop of `LedgerPersistence::load` over the records of the file.
unfoldable pub load_records :
    OrchestrationRecords
    → List RoomOrchestrationRecord
    → Result RoomOrchestrationLedgerError OrchestrationRecords
load_records records [] = ok records
load_records records (r ∷ rest) =
    let further = load_records (insert r.operation_id (normalize r) records) rest in
    if not (valid_record r)
    then err invalid
    else elim (lookup r.operation_id records) [ some _ ↦ err invalid | none ↦ further ]

pub record PersistedFile : Type 0 where
  pub file_version : ℕ
  pub records : List RoomOrchestrationRecord

-- `LedgerPersistence::load`, once the file is decoded.
unfoldable pub load_ledger :
    PersistedFile → Result RoomOrchestrationLedgerError OrchestrationRecords
load_ledger persisted =
    if not (nat_beq persisted.file_version 1) || ltb maximum_records (length persisted.records)
    then err invalid
    else load_records [] persisted.records

-- `persistent`, behind the checks on the path: what was normalized is written first.
unfoldable pub open_ledger :
    (OrchestrationRecords → Result RoomOrchestrationLedgerError (Unit {0}))
    → PersistedFile
    → Result RoomOrchestrationLedgerError OrchestrationLedger
open_ledger persist persisted = do
  records ← load_ledger persisted
  _ ← if any is_interrupted persisted.records then persist records else ok tt
  ok (record { records = records; poisoned = false })
