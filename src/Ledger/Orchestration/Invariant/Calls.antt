-- ===== src/Ledger/Orchestration/Invariant/Calls.antt =====
-- The ledger of operations after any file and any calls
-- (apps/desktop/src-tauri/src/room_orchestration_ledger.rs).
use m_i_o.Prelude.{
  ◌+◌, ◌≤◌, ◌||◌, not, nat_beq, ltb, if◌then◌else◌, ◌≡◌, inl, inr, refl, subst, Bool, true, false,
  List, [], ◌∷◌, arith, length, ok, Result-cases, Bool-cases, Option-cases, any,
}
use m_i_o.Text.{Str}
use m_i_o.Command.Maps.{
  lookup, insert, IsMap, AllEntries, AllEntries-insert, IsMap-insert, length-insert,
}
use m_i_o.Conductor.State.{unknown}
use m_i_o.Ledger.{maximum_records}
use m_i_o.Ledger.Orchestration.{
  OrchestrationDelegationLink, RoomOrchestrationRecord, OrchestrationRecords, OrchestrationLedger,
  valid_record, validate_delegations, begin, mark_planning, mark_delegating, mark_synthesizing,
  mark_completed, mark_failed, mark_unknown,
}
use m_i_o.Ledger.Orchestration.Loading.{
  PersistedFile, is_interrupted, normalize, load_records, load_ledger, open_ledger,
}
use m_i_o.Ledger.Orchestration.Steps.{Persist}
use m_i_o.Ledger.Orchestration.Invariant.{
  IsRecordAt, IsLedger, begin-IsLedger, transition-IsLedger, mark_delegating-IsLedger,
}

pub data Call : Type 0 where
  begins : (room_id source_message_id conductor_id updated_at : Str) → Call
  delegates : Str → Str → List OrchestrationDelegationLink → Str → Call
  plans synthesizes completes fails loses : Str → Str → Call

unfoldable pub after_call : Persist → OrchestrationLedger → Call → OrchestrationLedger
after_call persist d (begins room_id source_message_id conductor_id at) =
    (begin persist d room_id source_message_id conductor_id at).0
after_call persist d (delegates id session_id links at) =
    (mark_delegating persist d id session_id links at).0
after_call persist d (plans id at) = (mark_planning persist d id at).0
after_call persist d (synthesizes id at) = (mark_synthesizing persist d id at).0
after_call persist d (completes id at) = (mark_completed persist d id at).0
after_call persist d (fails id at) = (mark_failed persist d id at).0
after_call persist d (loses id at) = (mark_unknown persist d id at).0

-- Calls in order, each with what writing the file reports during it.
unfoldable pub after_calls : OrchestrationLedger → List (Persist × Call) → OrchestrationLedger
after_calls d [] = d
after_calls d ((persist, call) ∷ calls) = after_calls (after_call persist d call) calls

pub after_call-IsLedger :
    (persist : Persist) (d : OrchestrationLedger) (call : Call)
    → IsLedger d.records
    → IsLedger (after_call persist d call).records
unfolding after_call mark_planning mark_synthesizing mark_completed mark_failed mark_unknown
after_call-IsLedger persist d (begins room source_id conductor at) l =
    begin-IsLedger persist d room source_id conductor at l
after_call-IsLedger persist d (delegates id session_id links at) l =
    mark_delegating-IsLedger persist d id session_id links at l
after_call-IsLedger persist d (plans id at) l = transition-IsLedger persist d id _ _ at l
after_call-IsLedger persist d (synthesizes id at) l = transition-IsLedger persist d id _ _ at l
after_call-IsLedger persist d (completes id at) l = transition-IsLedger persist d id _ _ at l
after_call-IsLedger persist d (fails id at) l = transition-IsLedger persist d id _ _ at l
after_call-IsLedger persist d (loses id at) l = transition-IsLedger persist d id _ _ at l

after_calls-IsLedger :
    (d : OrchestrationLedger) (calls : List (Persist × Call))
    → IsLedger d.records
    → IsLedger (after_calls d calls).records
unfolding after_calls
after_calls-IsLedger d [] l = l
after_calls-IsLedger d ((persist, call) ∷ calls) l =
    after_calls-IsLedger (after_call persist d call) calls (after_call-IsLedger persist d call l)

-- A stage is not what makes a record valid.
normalized-IsRecordAt :
    (b : Bool) (r : RoomOrchestrationRecord)
    → valid_record r ≡ true
    → IsRecordAt r.operation_id (if b then record r { stage = unknown } else r)
unfolding valid_record validate_delegations
normalized-IsRecordAt true r v = (refl, v)
normalized-IsRecordAt false r v = (refl, v)

normalize-IsRecordAt :
    (r : RoomOrchestrationRecord) → valid_record r ≡ true → IsRecordAt r.operation_id (normalize r)
normalize-IsRecordAt r v = normalized-IsRecordAt (is_interrupted r) r v

load_records-IsLedger :
    (before : OrchestrationRecords) (persisted : List RoomOrchestrationRecord)
    {records : OrchestrationRecords}
    → IsMap before
    → AllEntries IsRecordAt before
    → load_records before persisted ≡ ok records
    → IsMap records
      × AllEntries IsRecordAt records
      × (length records ≡ length before + length persisted)
unfolding load_records
load_records-IsLedger before [] {records} m k e =
    let same : before ≡ records = ground (arith, e) in
    subst (λ x. IsMap x × AllEntries IsRecordAt x × (length x ≡ length before + 0)) same
      (m, k, omega arith)
load_records-IsLedger before (r ∷ rest) {records} m k e = elim (Bool-cases (valid_record r)) [
  | inr bad ↦ absurd (ground (arith, e, bad))
  | inl v ↦ elim (Option-cases (lookup r.operation_id before)) [
    | inr (other, twice) ↦ absurd (ground (arith, e, v, twice))
    | inl new ↦
        let longer = length-insert r.operation_id (normalize r) before new in
        let (m', k', n') =
          load_records-IsLedger (insert r.operation_id (normalize r) before) rest
            (IsMap-insert r.operation_id (normalize r) before new m)
            (AllEntries-insert IsRecordAt r.operation_id (normalize r) before
              (normalize-IsRecordAt r v) k)
            (ground (arith, e, v, new)) in
        (m', k', omega (arith, longer, n'))
  ]
]

pub opened-records :
    (persist : Persist) (persisted : PersistedFile) {d : OrchestrationLedger}
    → open_ledger persist persisted ≡ ok d
    → load_records [] persisted.records ≡ ok d.records
      × (length persisted.records ≤ maximum_records)
unfolding open_ledger load_ledger
opened-records persist persisted {d} e =
    elim (Bool-cases
      (not (nat_beq persisted.file_version 1) || ltb maximum_records (length persisted.records))) [
        | inl bad ↦ absurd (ground (arith, e, bad))
        | inr v ↦ elim (Result-cases (load_records [] persisted.records)) [
          | inl (_, none_loaded) ↦ absurd (ground (arith, e, v, none_loaded))
          | inr (records, loaded) ↦
              elim (Result-cases
                (if any is_interrupted persisted.records then persist records else ok tt)) [
                  | inl (_, unwritten) ↦ absurd (ground (arith, e, v, loaded, unwritten))
                  | inr (_, written) ↦ (ground (arith, e, v, loaded, written), ground (arith, v))
                ]
        ]
      ]

-- Whatever file the ledger was opened from, and whatever calls follow, writing the file or failing
-- to: there are at most 512 operations, each with a valid record under its own identifier, which
-- no other has.
pub after_calls-open-IsLedger :
    (persist : Persist) (persisted : PersistedFile) (calls : List (Persist × Call))
    {d : OrchestrationLedger}
    → open_ledger persist persisted ≡ ok d
    → IsLedger (after_calls d calls).records
after_calls-open-IsLedger persist persisted calls {d} e =
    let (loaded, few) = opened-records persist persisted {d = d} e in
    let (m, k, n) = load_records-IsLedger [] persisted.records {records = d.records} tt tt loaded in
    after_calls-IsLedger d calls (m, k, omega (arith, n, few))
