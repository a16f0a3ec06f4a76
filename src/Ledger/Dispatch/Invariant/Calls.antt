-- ===== src/Ledger/Dispatch/Invariant/Calls.antt =====
-- The invariant after any calls (apps/desktop/src-tauri/src/ai_dispatch_ledger.rs).
use m_i_o.Prelude.{
  ◌≡◌, ◌+◌, refl, sym, subst, inl, inr, true, false, List, [], ◌∷◌, arith, length, contains, ok,
  Bool-cases, Option-cases, list_eq, nat_eq,
}
use m_i_o.Text.{Str}
use m_i_o.Command.Maps.{
  lookup, insert, IsMap, AllEntries, AllEntries-insert, IsMap-insert, length-insert,
}
use m_i_o.Ledger.Dispatch.{
  DispatchRecords, PersistedDispatchLedger, load_ledger, load_records, valid_record, prepared,
  external_started, completed, failed, AiDispatchRecord, DispatchLedger, begin,
  mark_external_started, mark_failed, mark_external_preflight_failed, mark_completed,
  finish_unknown,
}
use m_i_o.Ledger.Dispatch.Invariant.{IsRecordAt, Persist, IsConsistent, without-contains}
use m_i_o.Ledger.Dispatch.Invariant.Steps.{begin-IsConsistent, transition-IsConsistent}

pub data Call : Type 0 where
  begins : AiDispatchRecord → Call
  starts fails preflight_fails completes : Str → Str → Call
  gives_up : Str → Call

unfoldable pub after_call : Persist → DispatchLedger → Call → DispatchLedger
after_call persist d (begins r) = (begin persist d r).0
after_call persist d (starts id at) = (mark_external_started persist d id at).0
after_call persist d (fails id at) = (mark_failed persist d id at).0
after_call persist d (preflight_fails id at) = (mark_external_preflight_failed persist d id at).0
after_call persist d (completes id at) = (mark_completed persist d id at).0
after_call persist d (gives_up id) = finish_unknown d id

-- Calls in order, each with what writing the file reports during it.
unfoldable pub after_calls : DispatchLedger → List (Persist × Call) → DispatchLedger
after_calls d [] = d
after_calls d ((persist, call) ∷ calls) = after_calls (after_call persist d call) calls

finish_unknown-IsConsistent :
    (d : DispatchLedger) (id : Str) → IsConsistent d → IsConsistent (finish_unknown d id)
unfolding finish_unknown
finish_unknown-IsConsistent d id c = elim (Bool-cases d.poisoned) [
  | inl p ↦
      let same : finish_unknown d id ≡ d = ground (arith, p) in subst IsConsistent (sym same) c
  | inr unlocked ↦ rw unlocked (record {
    ledger = c.ledger;
    active = λ other. λ a. c.active other ((without-contains id other d.active a).0);
  })
]

pub after_call-IsConsistent :
    (persist : Persist) (d : DispatchLedger) (call : Call)
    → IsConsistent d
    → IsConsistent (after_call persist d call)
unfolding after_call mark_external_started mark_failed mark_external_preflight_failed mark_completed
after_call-IsConsistent persist d (begins r) c = begin-IsConsistent persist d r c
after_call-IsConsistent persist d (starts id at) c =
    transition-IsConsistent persist d id prepared external_started at false refl c
after_call-IsConsistent persist d (fails id at) c =
    transition-IsConsistent persist d id prepared failed at true refl c
after_call-IsConsistent persist d (preflight_fails id at) c =
    transition-IsConsistent persist d id external_started failed at true refl c
after_call-IsConsistent persist d (completes id at) c =
    transition-IsConsistent persist d id external_started completed at true refl c
after_call-IsConsistent persist d (gives_up id) c = finish_unknown-IsConsistent d id c

pub after_calls-IsConsistent :
    (d : DispatchLedger) (calls : List (Persist × Call))
    → IsConsistent d
    → IsConsistent (after_calls d calls)
unfolding after_calls
after_calls-IsConsistent d [] c = c
after_calls-IsConsistent d ((persist, call) ∷ calls) c =
    after_calls-IsConsistent (after_call persist d call) calls
      (after_call-IsConsistent persist d call c)

-- The ledger as `persistent` makes it of the records of the file.
abbrev pub opened : DispatchRecords → DispatchLedger
opened records = record { records = records; active = []; poisoned = false }

load_records-IsLedger :
    (before : DispatchRecords) (persisted : List AiDispatchRecord) {records : DispatchRecords}
    → IsMap before
    → AllEntries IsRecordAt before
    → load_records before persisted ≡ ok records
    → IsMap records
      × AllEntries IsRecordAt records
      × (length records ≡ length before + length persisted)
unfolding load_records
load_records-IsLedger before [] {records} m k e =
    let same : before ≡ records = ground (arith, e) in
    subst (λ x. IsMap x × AllEntries IsRecordAt x × (length x ≡ length before + 0)) same
      (m, k, omega arith)
load_records-IsLedger before (r ∷ rest) {records} m k e = elim (Bool-cases (valid_record r)) [
  | inr bad ↦ absurd (ground (arith, e, bad))
  | inl v ↦ elim (Option-cases (lookup r.dispatch_id before)) [
    | inr (other, twice) ↦ absurd (ground (arith, e, v, twice))
    | inl new ↦
        let longer = length-insert r.dispatch_id r before new in
        let (m', k', n') =
          load_records-IsLedger (insert r.dispatch_id r before) rest
            (IsMap-insert r.dispatch_id r before new m)
            (AllEntries-insert IsRecordAt r.dispatch_id r before (refl, v) k)
            (ground (arith, e, v, new)) in
        (m', k', omega (arith, longer, n'))
  ]
]

-- Whatever file the ledger was loaded from, and whatever calls follow, writing the file or failing
-- to: there are at most 512 records, each valid and under its own identifier, which no other
-- has; and each active dispatch has a record that is not finished.
pub after_calls-load-IsConsistent :
    (persisted : PersistedDispatchLedger) (calls : List (Persist × Call))
    {records : DispatchRecords}
    → load_ledger persisted ≡ ok records
    → IsConsistent (after_calls (opened records) calls)
unfolding load_ledger contains
after_calls-load-IsConsistent persisted calls {records} e =
    let (m, k, n) =
      load_records-IsLedger [] persisted.records {records = records} tt tt (ground (arith, e)) in
    after_calls-IsConsistent (opened records) calls
      (record { ledger = (m, k, ground (arith, n, e)); active = λ id. λ a. cc })
