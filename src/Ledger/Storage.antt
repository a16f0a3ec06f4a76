-- ===== src/Ledger/Storage.antt =====
-- The two files that each ledger keeps, one of which is read
-- (apps/desktop/src-tauri/src/ai_dispatch_ledger.rs and room_orchestration_ledger.rs): the ledger
-- itself and its backup. The temporary file has a new name each time, and is gone unless it took
-- the ledger's place. What the operating system answers is `Answers`.
use m_i_o.Prelude.{
  ℕ, Bool, true, false, not, ◌&&◌, Option, none, some, List, [], ◌∷◌, ◌++◌, if◌then◌else◌, Result,
  ok, err, ◌≡◌, ◌⊎◌, All, arith,
}

pub data Entry : Type 0 where
  absent directory : Entry
  file : List ℕ → Entry

-- `Path::exists` and `Path::is_file`.
abbrev pub exists : Entry → Bool
exists absent = false
exists _ = true

abbrev pub is_file : Entry → Bool
is_file (file body) = true
is_file _ = false

pub record Files : Type 0 where
  pub primary : Entry
  pub backup : Entry

-- What the operations report, in their order.
pub record Answers : Type 0 where
  pub has_parent : Bool
  pub parent_created : Bool
  pub parent_is_dir : Bool
  pub has_name : Bool
  pub temp_written : Bool
  pub backup_removed : Bool
  pub primary_moved : Bool
  pub temp_moved : Bool
  pub backup_restored : Bool

-- The files after each change to them, and what the call reports.
abbrev pub Log : Type 0 → Type 0
Log E = List Files × Result E (Unit {0})

-- Which file `load` reads: the bytes of the ledger, of its backup if there is no ledger, or none
-- if both are missing.
unfoldable pub source : Files → Result (Unit {0}) (Option (List ℕ))
source f = elim f.primary [
  | file body ↦ ok (some body)
  | directory ↦ err tt
  | absent ↦ elim f.backup [ file body ↦ ok (some body) | absent ↦ ok none | directory ↦ err tt ]
]

-- The last part of `persist`, with the temporary file in place: the ledger becomes the backup, and
-- the temporary file the ledger, or else the backup becomes the ledger again.
unfoldable pub replace : {E : Type 0} → E → Answers → Files → List ℕ → Log E
replace io answers f body =
    if exists f.primary && not answers.primary_moved
    then ([], err io)
    else let moved =
        if exists f.primary then record { primary = absent; backup = f.primary } else f in
      let log = if exists f.primary then moved ∷ [] else [] in
      if answers.temp_moved
      then (log ++ (record moved { primary = file body }) ∷ [], ok tt)
      else if not (exists moved.primary) && is_file moved.backup && answers.backup_restored
      then (log ++ (record { primary = moved.backup; backup = absent }) ∷ [], err io)
      else (log, err io)

-- The old content can be read, or else the new.
abbrev pub IsOldOrNew : Files → List ℕ → Files → Type 0
IsOldOrNew before body after = (source after ≡ source before) ⊎ (source after ≡ ok (some body))

-- Nothing is lost between the old content and the new.
pub replace-IsOldOrNew :
    {E : Type 0} (io : E) (answers : Answers) (f : Files) (body : List ℕ)
    → All (IsOldOrNew f body) (replace io answers f body).0
unfolding replace source
replace-IsOldOrNew io answers f body = replaced io answers f.primary f.backup body
  where
    replaced :
        {E : Type 0} (io : E) (answers : Answers) (primary backup : Entry) (body : List ℕ)
        → All
            (IsOldOrNew (record { primary = primary; backup = backup }) body)
            (replace io answers (record { primary = primary; backup = backup }) body).0
    replaced io answers absent absent body = ground arith
    replaced io answers absent directory body = ground arith
    replaced io answers absent (file old) body = ground arith
    replaced io answers directory backup body = ground arith
    replaced io answers (file old) backup body = ground arith
