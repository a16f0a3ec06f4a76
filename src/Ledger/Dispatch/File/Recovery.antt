-- ===== src/Ledger/Dispatch/File/Recovery.antt =====
-- What can be read of the ledger of dispatches while it is written, also when the program stops in
-- between (apps/desktop/src-tauri/src/ai_dispatch_ledger.rs).
use m_i_o.Prelude.{
  ℕ, ◌≡◌, ◌⊎◌, inl, inr, refl, Bool, true, false, Option, some, List, [], ◌∷◌, All, arith, last,
  subst, sym, Result-cases, ok, err,
}
use m_i_o.Ledger.Storage.{
  Entry, absent, directory, file, exists, Files, Answers, source, replace, IsOldOrNew,
  replace-IsOldOrNew,
}
use m_i_o.Ledger.Dispatch.{DispatchRecords, AiDispatchLedgerError, io, PersistedDispatchLedger}
use m_i_o.Ledger.Dispatch.File.{
  prepare_temp, replace_without_backup, persist_ledger, persisted_ledger, load_file,
}

module _ (to_vec : PersistedDispatchLedger → Option (List ℕ)) (answers : Answers) where
  replaced :
      (primary backup : Entry) (body : List ℕ)
      → (exists primary ≡ true) ⊎ (exists backup ≡ false)
      → All
          (IsOldOrNew (record { primary = primary; backup = backup }) body)
          (replace_without_backup answers (record { primary = primary; backup = backup }) body).0
  unfolding replace_without_backup source
  replaced (file old) absent body h =
      replace-IsOldOrNew io answers (record { primary = file old; backup = absent }) body
  replaced (file old) directory body h = ground arith
  replaced (file old) (file older) body h =
      ground
        (arith, replace-IsOldOrNew io answers (record { primary = file old; backup = absent }) body)
  replaced directory absent body h =
      replace-IsOldOrNew io answers (record { primary = directory; backup = absent }) body
  replaced absent absent body h =
      replace-IsOldOrNew io answers (record { primary = absent; backup = absent }) body
  replaced directory (file older) body h =
      ground (
        arith,
        replace-IsOldOrNew io answers (record { primary = directory; backup = absent }) body,
      )
  replaced directory directory body h = ground arith
  replaced absent directory body h = ground arith
  replaced absent (file older) body h = absurd (ground (arith, h))

  pub prepared_body :
      (f : Files) (records : DispatchRecords) {body made : List ℕ}
      → to_vec (persisted_ledger records) ≡ some body
      → prepare_temp to_vec answers f records ≡ ok made
      → made ≡ body
  unfolding prepare_temp
  prepared_body f records {body} {made} e p = ground (arith, e, p)

  pub persist_prepared :
      (f : Files) (records : DispatchRecords) {body : List ℕ}
      → prepare_temp to_vec answers f records ≡ ok body
      → persist_ledger to_vec answers f records ≡ replace_without_backup answers f body
  unfolding persist_ledger replace_without_backup
  persist_prepared f records p = rw (p, persist_ledger) refl

  pub persist_refused :
      (f : Files) (records : DispatchRecords) {e : AiDispatchLedgerError}
      → prepare_temp to_vec answers f records ≡ err e
      → persist_ledger to_vec answers f records ≡ ([], err e)
  unfolding persist_ledger
  persist_refused f records p = rw (p, persist_ledger) refl

  -- While the ledger is written, and when that fails at any point, what can be read is the old
  -- ledger or the new one, provided that the ledger itself is there or its backup is not.
  pub persist_ledger-IsOldOrNew :
      (f : Files) (records : DispatchRecords) {body : List ℕ}
      → to_vec (persisted_ledger records) ≡ some body
      → (exists f.primary ≡ true) ⊎ (exists f.backup ≡ false)
      → All (IsOldOrNew f body) (persist_ledger to_vec answers f records).0
  persist_ledger-IsOldOrNew f records {body} e h =
      elim (Result-cases (prepare_temp to_vec answers f records)) [
        | inl (_, refused) ↦ rw (persist_refused f records refused) tt
        | inr (made, p) ↦
            rw (persist_prepared f records p, prepared_body f records e p)
              (replaced f.primary f.backup body h)
      ]

  -- A write that leaves no ledger file where it found one has failed, with the file as the backup.
  left_by_write :
      (backup : Entry) (old : List ℕ) (records : DispatchRecords) {g : Files}
      → last
          (persist_ledger to_vec answers (record { primary = file old; backup = backup }) records).0
        ≡ some g
      → g.primary ≡ absent
      → (g ≡ record { primary = absent; backup = file old })
        × ((persist_ledger to_vec answers
              (record { primary = file old; backup = backup })
              records).1
            ≡ err io)
  unfolding persist_ledger replace_without_backup replace last
  left_by_write backup old records e gone = ground (arith, e, gone)

  lost_by_write :
      (old : List ℕ) (records : DispatchRecords) {body : List ℕ}
      → prepare_temp to_vec answers (record { primary = absent; backup = file old }) records
        ≡ ok body
      → answers.backup_removed ≡ true
      → answers.temp_moved ≡ false
      → persist_ledger to_vec answers (record { primary = absent; backup = file old }) records
        ≡ ((record { primary = absent; backup = absent }) ∷ [], err io)
  unfolding replace_without_backup replace
  lost_by_write old records p removed unmoved =
      rw (persist_prepared (record { primary = absent; backup = file old }) records p)
        (ground (arith, removed, unmoved))

-- Two failing writes lose the ledger. When a write ends with no ledger file where it found one,
-- it has failed, and the old ledger is still loaded, from the backup; but a second write that gets
-- as far as its temporary file, removes the backup and then cannot move that file into place fails
-- too, and from what it leaves an empty ledger is loaded.
pub two_failures_lose_ledger :
    (to_vec : PersistedDispatchLedger → Option (List ℕ))
    (from_slice : List ℕ → Option PersistedDispatchLedger) (readable : Bool)
    (first second : Answers) (f g : Files) (records later : DispatchRecords) {old body : List ℕ}
    → f.primary ≡ file old
    → last (persist_ledger to_vec first f records).0 ≡ some g
    → g.primary ≡ absent
    → prepare_temp to_vec second g later ≡ ok body
    → second.backup_removed ≡ true
    → second.temp_moved ≡ false
    → ((persist_ledger to_vec first f records).1 ≡ err io)
      × (load_file from_slice readable g ≡ load_file from_slice readable f)
      × ((persist_ledger to_vec second g later).1 ≡ err io)
      × (h : Files) × (last (persist_ledger to_vec second g later).0 ≡ some h)
      × (load_file from_slice readable h ≡ ok [])
unfolding load_file source last
two_failures_lose_ledger to_vec from_slice readable first second f g records later {old} {body}
      there ends gone p removed unmoved =
    let same : f ≡ record { primary = file old; backup = f.backup } = ground (arith, there) in
    let (left, failed) =
      left_by_write to_vec first f.backup old records
        (subst (λ q. last (persist_ledger to_vec first q records).0 ≡ some g) same ends) gone in
    let lost =
      lost_by_write to_vec second old later {body = body}
        (subst (λ q. prepare_temp to_vec second q later ≡ ok body) left p) removed unmoved in
    (
      subst (λ q. (persist_ledger to_vec first q records).1 ≡ err io) (sym same) failed,
      rw (left, there) refl,
      rw (left, lost) refl,
      record { primary = absent; backup = absent },
      rw (left, lost) refl,
      refl,
    )
