-- ===== src/Ledger/Orchestration/File/Recovery.antt =====
-- What can be read of the ledger of operations while it is written, also when the program stops in
-- between (apps/desktop/src-tauri/src/room_orchestration_ledger.rs).
use m_i_o.Prelude.{ℕ, ◌≡◌, inl, inr, Bool, Option, some, List, All, arith, Result-cases, ok}
use m_i_o.Ledger.Storage.{
  Entry, absent, directory, file, Files, Answers, source, IsOldOrNew, replace-IsOldOrNew,
}
use m_i_o.Ledger.Orchestration.{OrchestrationRecords, io}
use m_i_o.Ledger.Orchestration.Loading.{PersistedFile}
use m_i_o.Ledger.Orchestration.File.{
  persisted_file, read_file, prepare_temp, replace_readable, replace_checked, persist_file,
}

readable_replaced :
    (answers : Answers) (old : List ℕ) (backup : Entry) (body : List ℕ)
    → All
        (IsOldOrNew (record { primary = file old; backup = backup }) body)
        (replace_readable answers (record { primary = file old; backup = backup }) body).0
unfolding replace_readable source
readable_replaced answers old absent body =
    replace-IsOldOrNew io answers (record { primary = file old; backup = absent }) body
readable_replaced answers old directory body =
    ground
      (arith, replace-IsOldOrNew io answers (record { primary = file old; backup = absent }) body)
readable_replaced answers old (file older) body =
    ground
      (arith, replace-IsOldOrNew io answers (record { primary = file old; backup = absent }) body)

module _ (to_vec : PersistedFile → Option (List ℕ)) (from_slice : List ℕ → Option PersistedFile)
    (readable : Bool) (answers : Answers) where
  checked_replaced :
      (primary backup : Entry) (body : List ℕ)
      → All
          (IsOldOrNew (record { primary = primary; backup = backup }) body)
          (replace_checked from_slice readable answers
            (record { primary = primary; backup = backup })
            body).0
  unfolding replace_checked
  checked_replaced absent absent body =
      replace-IsOldOrNew io answers (record { primary = absent; backup = absent }) body
  checked_replaced absent directory body = tt
  checked_replaced absent (file older) body =
      replace-IsOldOrNew io answers (record { primary = absent; backup = file older }) body
  checked_replaced directory directory body = tt
  checked_replaced directory absent body = tt
  checked_replaced directory (file older) body = tt
  checked_replaced (file old) directory body = tt
  checked_replaced (file old) absent body =
      elim (Result-cases (read_file from_slice readable old)) [
        | inl (_, unread) ↦ rw (unread, replace_checked) tt
        | inr (_, read) ↦ rw (read, replace_checked) (readable_replaced answers old absent body)
      ]
  checked_replaced (file old) (file older) body =
      elim (Result-cases (read_file from_slice readable old)) [
        | inl (_, unread) ↦ rw (unread, replace_checked) tt
        | inr (_, read) ↦
            rw (read, replace_checked) (readable_replaced answers old (file older) body)
      ]

  prepared_body :
      (f : Files) (records : OrchestrationRecords) {body made : List ℕ}
      → to_vec (persisted_file records) ≡ some body
      → prepare_temp to_vec answers f records ≡ ok made
      → made ≡ body
  unfolding prepare_temp
  prepared_body f records {body} {made} e p = ground (arith, e, p)

  -- While the ledger is written, and when that fails at any point, what can be read is the old
  -- ledger or the new one, whatever the two files were before.
  pub persist_file-IsOldOrNew :
      (f : Files) (records : OrchestrationRecords) {body : List ℕ}
      → to_vec (persisted_file records) ≡ some body
      → All (IsOldOrNew f body) (persist_file to_vec from_slice readable answers f records).0
  unfolding persist_file
  persist_file-IsOldOrNew f records {body} e =
      elim (Result-cases (prepare_temp to_vec answers f records)) [
        | inl (_, refused) ↦ rw (refused, persist_file) tt
        | inr (made, p) ↦
            rw (p, persist_file, prepared_body f records e p)
              (checked_replaced f.primary f.backup body)
      ]
