-- ===== src/Ledger/Orchestration/File.antt =====
-- How the ledger of operations reaches its file and comes back
-- (apps/desktop/src-tauri/src/room_orchestration_ledger.rs). `serde_json::to_vec` and
-- `serde_json::from_slice` are parameters.
pub mod Recovery
use m_i_o.Prelude.{
  ℕ, ◌*◌, Bool, true, false, not, ◌&&◌, ◌||◌, Option, none, some, is_some, List, [], ◌∷◌, ltb,
  is_empty, if◌then◌else◌, length, Result, ok, err,
}
use m_i_o.Ledger.{values, maximum_records}
use m_i_o.Ledger.Storage.{
  Entry, absent, directory, file, exists, is_file, Files, Answers, Log, source, replace,
}
use m_i_o.Ledger.Orchestration.{OrchestrationRecords, RoomOrchestrationLedgerError, invalid, io}
use m_i_o.Ledger.Orchestration.Loading.{PersistedFile, load_ledger}

abbrev pub maximum_file_bytes : ℕ
maximum_file_bytes = 1024 * 1024

abbrev pub persisted_file : OrchestrationRecords → PersistedFile
persisted_file records = record { file_version = 1; records = values records }

-- `read_file` of a file with this body; `readable` is false when reading it fails.
unfoldable pub read_file :
    (List ℕ → Option PersistedFile)
    → Bool
    → List ℕ
    → Result RoomOrchestrationLedgerError PersistedFile
read_file from_slice readable body =
    if not readable
    then err io
    else if is_empty body || ltb maximum_file_bytes (length body)
    then err invalid
    else elim (from_slice body) [ none ↦ err invalid | some persisted ↦ ok persisted ]

-- `LedgerPersistence::load`.
unfoldable pub load_file :
    (List ℕ → Option PersistedFile)
    → Bool
    → Files
    → Result RoomOrchestrationLedgerError OrchestrationRecords
load_file from_slice readable f = elim (source f) [
  | err _ ↦ err invalid
  | ok none ↦ ok []
  | ok (some body) ↦ elim (read_file from_slice readable body) [
    | err e ↦ err e
    | ok persisted ↦ load_ledger persisted
  ]
]

-- The body in the temporary file, or why there is none.
unfoldable pub prepare_temp :
    (PersistedFile → Option (List ℕ))
    → Answers
    → Files
    → OrchestrationRecords
    → Result RoomOrchestrationLedgerError (List ℕ)
prepare_temp to_vec answers f records =
    if ltb maximum_records (length records) || not answers.has_parent
    then err invalid
    else if not answers.parent_created
    then err io
    else if not answers.parent_is_dir || (exists f.primary && not (is_file f.primary))
    then err invalid
    else elim (to_vec (persisted_file records)) [
      | none ↦ err invalid
      | some body ↦
          if ltb maximum_file_bytes (length body) || not answers.has_name
          then err invalid
          else if not answers.temp_written
          then err io
          else ok body
    ]

-- With the backup out of the way, once the ledger was found to be readable.
unfoldable pub replace_readable : Answers → Files → List ℕ → Log RoomOrchestrationLedgerError
replace_readable answers f body =
    if exists f.backup && not answers.backup_removed
    then ([], err io)
    else if not (exists f.backup)
    then replace io answers f body
    else let cleared = record f { backup = absent } in
      let (log, result) = replace io answers cleared body in (cleared ∷ log, result)

-- A ledger that cannot be read is not replaced, and a backup is only removed beside one that can.
unfoldable pub replace_checked :
    (List ℕ → Option PersistedFile)
    → Bool
    → Answers
    → Files
    → List ℕ
    → Log RoomOrchestrationLedgerError
replace_checked from_slice readable answers f body =
    if exists f.backup && not (is_file f.backup) then ([], err invalid) else elim f.primary [
      | absent ↦ replace io answers f body
      | directory ↦ ([], err invalid)
      | file old ↦ elim (read_file from_slice readable old) [
        | err _ ↦ ([], err invalid)
        | ok _ ↦ replace_readable answers f body
      ]
    ]

-- `LedgerPersistence::persist`.
unfoldable pub persist_file :
    (PersistedFile → Option (List ℕ))
    → (List ℕ → Option PersistedFile)
    → Bool
    → Answers
    → Files
    → OrchestrationRecords
    → Log RoomOrchestrationLedgerError
persist_file to_vec from_slice readable answers f records =
    elim (prepare_temp to_vec answers f records) [
      | err e ↦ ([], err e)
      | ok body ↦ replace_checked from_slice readable answers f body
    ]
