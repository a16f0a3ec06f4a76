-- ===== src/Ledger/Dispatch/Invariant.antt =====
-- The invariant of the ledger of dispatches (apps/desktop/src-tauri/src/ai_dispatch_ledger.rs), and
-- what each method does to it.
pub mod Cases
pub mod Steps
pub mod Calls
use m_i_o.Prelude.{
  ℕ, suc, ◌≤◌, ◌≡◌, ◌≢◌, ◌⊎◌, inl, inr, refl, sym, ap, subst, ◌∙◌, Bool, true, false, not, ◌||◌,
  ◌&&◌, ◌<◌, Option, none, some, List, [], ◌∷◌, leb, ltb, if◌then◌else◌, arith, length, filter,
  contains, Result, ok, err, ◌==◌, list_eq, nat_eq, eq_iff, Bool-cases, Option-cases, Result-cases,
}
use m_i_o.Text.{Str}
use m_i_o.Identifier.{valid_timestamp}
use m_i_o.Command.Maps.{
  lookup, insert, adjust, remove, IsMap, AllEntries, AllEntries-lookup, AllEntries-insert,
  AllEntries-remove, AllEntries-adjust, AllEntries-mono, lookup-insert, lookup-remove,
  lookup-adjust, length-insert, length-adjust, length-remove-le, IsMap-insert, IsMap-remove,
  IsMap-adjust, map_option,
}
use m_i_o.Ledger.Pruning.{IsLedgerOf, prune-IsLedgerOf, prune-lookup-some, prune-lookup-none}
use m_i_o.Ledger.Dispatch.{
  AiDispatchState, prepared, external_started, completed, failed, state_beq, AiDispatchRecord,
  AiDispatchBegin, reserved, existing, AiDispatchLedgerError, invalid, io, DispatchRecords,
  DispatchLedger, Outcome, valid_dispatch_id, valid_record, same_dispatch, is_terminal,
  prune_terminal_records, without, reserve, begin, transition, mark_external_started, mark_failed,
  mark_external_preflight_failed, mark_completed, finish_unknown,
}

abbrev pub Persist : Type 0
Persist = DispatchRecords → Result AiDispatchLedgerError (Unit {0})

-- A valid record under its identifier.
abbrev pub IsRecordAt : Str → AiDispatchRecord → Type 0
IsRecordAt key r = (r.dispatch_id ≡ key) × (valid_record r ≡ true)

abbrev pub IsUnfinished : DispatchRecords → Str → Type 0
IsUnfinished records id =
    (r : AiDispatchRecord) × (lookup id records ≡ some r) × (is_terminal r ≡ false)

abbrev pub IsLedger : DispatchRecords → Type 0
IsLedger records = IsLedgerOf IsRecordAt records

-- The records are valid, each under its own identifier, and at most 512; and each active dispatch
-- has a record that is not finished.
pub record IsConsistent (d : DispatchLedger) : Type 0 where
  pub ledger : IsLedger d.records
  pub active : (id : Str) → contains d.active id ≡ true → IsUnfinished d.records id

pub prune-IsLedger :
    (records : DispatchRecords) → IsLedger records → IsLedger (prune_terminal_records records)
unfolding prune_terminal_records
prune-IsLedger records l =
    prune-IsLedgerOf (λ r. r.updated_at) (λ r. r.dispatch_id) is_terminal IsRecordAt
      (λ key. λ r. λ at. at.0) records l

-- What is not finished stays.
pub prune-IsUnfinished :
    (records : DispatchRecords) (id : Str) {r : AiDispatchRecord}
    → IsLedger records
    → lookup id records ≡ some r
    → is_terminal r ≡ false
    → lookup id (prune_terminal_records records) ≡ some r
unfolding prune_terminal_records
prune-IsUnfinished records id {r} l e u =
    prune-lookup-some (λ r. r.updated_at) (λ r. r.dispatch_id) is_terminal IsRecordAt
      (λ key. λ r. λ at. at.0) records id l e u

pub prune-absent :
    (records : DispatchRecords) (id : Str)
    → IsLedger records
    → lookup id records ≡ none
    → lookup id (prune_terminal_records records) ≡ none
unfolding prune_terminal_records
prune-absent records id l e =
    prune-lookup-none (λ r. r.updated_at) (λ r. r.dispatch_id) is_terminal IsRecordAt
      (λ key. λ r. λ at. at.0) records id l e

pub without-contains :
    (key other : Str) (keys : List Str)
    → contains (without key keys) other ≡ true
    → (contains keys other ≡ true) × (key ≢ other)
unfolding contains filter
without-contains key other [] h = cc
without-contains key other (k ∷ keys) h =
    ground (arith, h, without-contains key other keys, eq_iff k key, eq_iff k other)
