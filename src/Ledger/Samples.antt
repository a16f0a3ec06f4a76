-- ===== src/Ledger/Samples.antt =====
-- A small ledger of dispatches and its file (apps/desktop/src-tauri/src/ai_dispatch_ledger.rs), at
-- which the theorems are applied.
use m_i_o.Prelude.{
  ℕ, zero, suc, ◌≡◌, ◌≢◌, refl, inl, inr, Bool, true, false, Option, none, some, List, [], ◌∷◌,
  ◌++◌, ok, err, All, Result, last, list_beq,
}
use m_i_o.Text.{Str, lit}
use m_i_o.Command.Maps.{lookup, insert}
use m_i_o.Ledger.Storage.{Entry, absent, file, Files, Answers, IsOldOrNew}
use m_i_o.Ledger.Dispatch.{
  AiDispatchRecord, AiDispatchLedgerError, io, prepared, external_started, reserved,
  DispatchRecords, DispatchLedger, PersistedDispatchLedger, load_ledger, begin,
  mark_external_started,
}
use m_i_o.Ledger.Dispatch.Invariant.{Persist, IsConsistent}
use m_i_o.Ledger.Dispatch.Invariant.Calls.{
  Call, begins, starts, completes, gives_up, after_calls, opened, after_calls-load-IsConsistent,
}
use m_i_o.Ledger.Dispatch.Started.{started_once}
use m_i_o.Ledger.Dispatch.File.{persist_ledger, persisted_ledger, load_file}
use m_i_o.Ledger.Dispatch.File.Recovery.{two_failures_lose_ledger}
use m_i_o.Ledger.Dispatch.File.RoundTrip.{load-persist_ledger}

abbrev dispatch : AiDispatchRecord
dispatch = record {
  dispatch_id = lit "room-message:m1:ai";
  room_id = lit "r1";
  source_message_id = lit "m1";
  recipient_id = lit "ai";
  reply_message_id = lit "m2";
  state = external_started;
  updated_at = lit "t1";
}

abbrev second : AiDispatchRecord
second = record {
  dispatch_id = lit "room-message:m1:b";
  room_id = lit "r1";
  source_message_id = lit "m1";
  recipient_id = lit "b";
  reply_message_id = lit "m3";
  state = prepared;
  updated_at = lit "t1";
}

abbrev writes : Persist
writes records = ok tt

abbrev breaks : Persist
breaks records = err io

abbrev calls : List (Persist × Call)
calls =
    (breaks, begins second)
    ∷ (writes, begins second)
    ∷ (writes, starts (lit "room-message:m1:b") (lit "t2"))
    ∷ (breaks, completes (lit "room-message:m1:b") (lit "t3"))
    ∷ (writes, gives_up (lit "room-message:m1:b"))
    ∷ []

abbrev held : DispatchRecords
held = (lit "room-message:m1:ai", dispatch) ∷ []

abbrev persisted : PersistedDispatchLedger
persisted = record { file_version = 1; records = dispatch ∷ [] }

held_loads : load_ledger persisted ≡ ok held
unfolding m_i_o.Ledger.Dispatch.load_ledger m_i_o.Ledger.Dispatch.load_records
    m_i_o.Ledger.Dispatch.valid_record m_i_o.Ledger.Dispatch.valid_dispatch_id m_i_o.Text.len
    m_i_o.Prelude.all m_i_o.Identifier.is_alphanumeric m_i_o.Ledger.Dispatch.valid_entity_id
    m_i_o.Identifier.valid_graphic_text m_i_o.Prelude.list_beq lookup insert
held_loads = refl

held-IsConsistent : IsConsistent (opened held)
unfolding after_calls
held-IsConsistent = after_calls-load-IsConsistent persisted [] held_loads

after_calls-load-IsConsistent_example : IsConsistent (after_calls (opened held) calls)
after_calls-load-IsConsistent_example = after_calls-load-IsConsistent persisted calls held_loads

started_once_example :
    (lookup (lit "room-message:m1:ai") (after_calls (opened held) calls).records ≡ some dispatch)
    × ((begin writes (after_calls (opened held) calls) dispatch).1 ≢ ok reserved)
    × ((error : AiDispatchLedgerError) × (mark_external_started writes
            (after_calls (opened held) calls)
            (lit "room-message:m1:ai")
            (lit "t9")
          ≡ (after_calls (opened held) calls, err error)))
unfolding lookup list_beq
started_once_example =
    started_once (opened held) (lit "room-message:m1:ai") calls writes dispatch (lit "t9")
      held-IsConsistent refl refl (refl, (refl, (refl, (refl, (refl, tt))))) refl

-- Two ledgers, and nothing else, have a text.
abbrev to_vec : PersistedDispatchLedger → Option (List ℕ)
to_vec persisted = elim persisted.records [ [] ↦ some (1 ∷ []) | r ∷ rest ↦ some (2 ∷ []) ]

abbrev from_slice : List ℕ → Option PersistedDispatchLedger
from_slice (suc (suc zero) ∷ rest) = some (record { file_version = 1; records = dispatch ∷ [] })
from_slice _ = none

abbrev succeeding : Answers
succeeding = record {
  has_parent = true;
  parent_created = true;
  parent_is_dir = true;
  has_name = true;
  temp_written = true;
  backup_removed = true;
  primary_moved = true;
  temp_moved = true;
  backup_restored = true;
}

-- The new file cannot be moved into place, nor the backup back.
abbrev unrestored : Answers
unrestored = record succeeding { temp_moved = false; backup_restored = false }

abbrev before : Files
before = record { primary = file (1 ∷ []); backup = file (7 ∷ []) }

-- The ledger becomes the backup and is not restored; the next write removes it.
two_failures_lose_ledger_example :
    ((persist_ledger to_vec unrestored before held).1 ≡ err io)
    × (load_file from_slice true (record { primary = absent; backup = file (1 ∷ []) })
        ≡ load_file from_slice true before)
    × ((persist_ledger to_vec unrestored
          (record { primary = absent; backup = file (1 ∷ []) })
          held).1
        ≡ err io)
    × (h : Files) × (last
          (persist_ledger to_vec unrestored
            (record { primary = absent; backup = file (1 ∷ []) })
            held).0
        ≡ some h)
    × (load_file from_slice true h ≡ ok [])
unfolding persist_ledger m_i_o.Ledger.Dispatch.File.prepare_temp
    m_i_o.Ledger.Dispatch.File.replace_without_backup m_i_o.Ledger.Storage.replace last
two_failures_lose_ledger_example =
    two_failures_lose_ledger to_vec from_slice true unrestored unrestored before
      (record { primary = absent; backup = file (1 ∷ []) }) held held refl refl refl refl refl refl

load-persist_ledger_example :
    (g : Files) × (out : DispatchRecords) × (last (
        (record { primary = file (1 ∷ []); backup = absent })
        ∷ (record { primary = absent; backup = file (1 ∷ []) })
        ∷ (record { primary = file (2 ∷ []); backup = file (1 ∷ []) })
        ∷ [])
      ≡ some g)
    × (load_file from_slice true g ≡ ok out)
    × ((id : Str) → lookup id out ≡ lookup id held)
unfolding persist_ledger m_i_o.Ledger.Dispatch.File.prepare_temp
    m_i_o.Ledger.Dispatch.File.replace_without_backup m_i_o.Ledger.Storage.replace
load-persist_ledger_example =
    load-persist_ledger to_vec from_slice succeeding before held held-IsConsistent.ledger refl refl
      refl refl
