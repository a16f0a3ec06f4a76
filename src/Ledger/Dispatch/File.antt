-- ===== src/Ledger/Dispatch/File.antt =====
-- How the ledger of dispatches reaches its file and comes back
-- (apps/desktop/src-tauri/src/ai_dispatch_ledger.rs). `serde_json::to_vec` and
-- `serde_json::from_slice` are parameters.
pub mod Recovery
pub mod RoundTrip
use m_i_o.Prelude.{
  ℕ, ◌*◌, Bool, true, false, not, ◌&&◌, ◌||◌, Option, none, some, List, [], ◌∷◌, ◌++◌, ltb,
  is_empty, if◌then◌else◌, length, Result, ok, err,
}
use m_i_o.Ledger.{values}
use m_i_o.Ledger.Storage.{Entry, absent, exists, is_file, Files, Answers, Log, source, replace}
use m_i_o.Ledger.Dispatch.{
  DispatchRecords, AiDispatchLedgerError, invalid, io, PersistedDispatchLedger, load_ledger,
}

abbrev pub maximum_dispatch_ledger_bytes : ℕ
maximum_dispatch_ledger_bytes = 1024 * 1024

abbrev pub persisted_ledger : DispatchRecords → PersistedDispatchLedger
persisted_ledger records = record { file_version = 1; records = values records }

-- The body in the temporary file, or why there is none.
unfoldable pub prepare_temp :
    (PersistedDispatchLedger → Option (List ℕ))
    → Answers
    → Files
    → DispatchRecords
    → Result AiDispatchLedgerError (List ℕ)
prepare_temp to_vec answers f records =
    if not answers.has_parent
    then err invalid
    else if not answers.parent_created
    then err io
    else if not answers.parent_is_dir || (exists f.primary && not (is_file f.primary))
    then err invalid
    else elim (to_vec (persisted_ledger records)) [
      | none ↦ err invalid
      | some body ↦
          if ltb maximum_dispatch_ledger_bytes (length body) || not answers.has_name
          then err invalid
          else if not answers.temp_written
          then err io
          else ok body
    ]

-- With the backup out of the way.
unfoldable pub replace_without_backup : Answers → Files → List ℕ → Log AiDispatchLedgerError
replace_without_backup answers f body =
    if exists f.backup && not (is_file f.backup)
    then ([], err invalid)
    else if exists f.backup && not answers.backup_removed
    then ([], err io)
    else if not (exists f.backup)
    then replace io answers f body
    else let cleared = record f { backup = absent } in
      let (log, result) = replace io answers cleared body in (cleared ∷ log, result)

-- `DispatchLedgerPersistence::persist`.
unfoldable pub persist_ledger :
    (PersistedDispatchLedger → Option (List ℕ))
    → Answers
    → Files
    → DispatchRecords
    → Log AiDispatchLedgerError
persist_ledger to_vec answers f records = elim (prepare_temp to_vec answers f records) [
  | err e ↦ ([], err e)
  | ok body ↦ replace_without_backup answers f body
]

-- `DispatchLedgerPersistence::load`; `readable` is false when reading the file fails.
unfoldable pub load_file :
    (List ℕ → Option PersistedDispatchLedger)
    → Bool
    → Files
    → Result AiDispatchLedgerError DispatchRecords
load_file from_slice readable f = elim (source f) [
  | err _ ↦ err invalid
  | ok none ↦ ok []
  | ok (some body) ↦
      if not readable
      then err io
      else if is_empty body || ltb maximum_dispatch_ledger_bytes (length body)
      then err invalid
      else elim (from_slice body) [ none ↦ err invalid | some persisted ↦ load_ledger persisted ]
]
