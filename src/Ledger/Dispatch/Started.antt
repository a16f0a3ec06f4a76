-- ===== src/Ledger/Dispatch/Started.antt =====
-- A provider call that has started is not started again
-- (apps/desktop/src-tauri/src/ai_dispatch_ledger.rs).
use m_i_o.Prelude.{
  ◌≡◌, ◌≢◌, inl, inr, refl, ◌∙◌, Bool, true, false, some, List, [], ◌∷◌, arith, ok, err, ◌==◌,
  list_eq, nat_eq, eq_iff, Bool-cases, All,
}
use m_i_o.Text.{Str}
use m_i_o.Command.Maps.{lookup, lookup-insert, lookup-adjust}
use m_i_o.Ledger.Dispatch.{
  AiDispatchState, prepared, external_started, completed, failed, state_beq, AiDispatchRecord,
  reserved, AiDispatchLedgerError, DispatchLedger, is_terminal, prune_terminal_records, begin,
  transition, mark_external_started, mark_failed, mark_external_preflight_failed, mark_completed,
  finish_unknown,
}
use m_i_o.Ledger.Dispatch.Invariant.{Persist, IsConsistent, prune-IsUnfinished}
use m_i_o.Ledger.Dispatch.Invariant.Cases.{begin-cases, moved, transition-cases, fresh}
use m_i_o.Ledger.Dispatch.Invariant.Calls.{
  Call, begins, starts, fails, preflight_fails, completes, gives_up, after_call, after_calls,
  after_call-IsConsistent,
}

-- The calls that end what has started.
abbrev pub finishes : Str → Call → Bool
finishes id (preflight_fails other at) = other == id
finishes id (completes other at) = other == id
finishes id _ = false

module _ (persist : Persist) (id : Str) {r : AiDispatchRecord} where
  begin_keeps :
      (d : DispatchLedger) (given : AiDispatchRecord)
      → IsConsistent d
      → lookup id d.records ≡ some r
      → is_terminal r ≡ false
      → lookup id (begin persist d given).0.records ≡ some r
  begin_keeps d given c e u =
      let kept = prune-IsUnfinished d.records id c.ledger e u in
      elim (begin-cases persist d given) [
        | inl (same, _) ↦ rw same e
        | inr (inl (pruned, _)) ↦ rw pruned kept
        | inr (inr (v, inactive, absent, room_left, made)) ↦ rw made (
            lookup-insert given.dispatch_id id (fresh given) (prune_terminal_records d.records)
            ∙ ground (arith, kept, e, absent, eq_iff given.dispatch_id id))
      ]

  transition_keeps :
      (d : DispatchLedger) (other : Str) (expected next_state : AiDispatchState) (at : Str)
      (finish : Bool)
      → lookup id d.records ≡ some r
      → (other ≡ id → state_beq r.state expected ≡ false)
      → lookup id (transition persist d other expected next_state at finish).0.records ≡ some r
  transition_keeps d other expected next_state at finish e apart =
      elim (transition-cases persist d other expected next_state at finish) [
        | inl (_, same) ↦ rw same e
        | inr (s, held, right, stamped, busy, made) ↦ rw made (elim (Bool-cases (other == id)) [
          | inl hit ↦
              let found : s ≡ r = ground (arith, held, e, hit, eq_iff other id) in
              absurd (ground (arith, right, found, apart ((eq_iff other id).0 hit)))
          | inr miss ↦
              lookup-adjust other id (moved next_state at) d.records ∙ ground (arith, miss, e)
        ])
      ]

  call_keeps :
      (d : DispatchLedger) (call : Call)
      → IsConsistent d
      → lookup id d.records ≡ some r
      → r.state ≡ external_started
      → finishes id call ≡ false
      → lookup id (after_call persist d call).records ≡ some r
  unfolding after_call mark_external_started mark_failed mark_external_preflight_failed
      mark_completed finish_unknown
  call_keeps d (begins given) c e s f = begin_keeps d given c e (rw s refl)
  call_keeps d (starts other at) c e s f =
      transition_keeps d other prepared external_started at false e (λ same. rw s refl)
  call_keeps d (fails other at) c e s f =
      transition_keeps d other prepared failed at true e (λ same. rw s refl)
  call_keeps d (preflight_fails other at) c e s f =
      transition_keeps d other external_started failed at true e
        (λ same. absurd (ground (arith, f, same, eq_iff other id)))
  call_keeps d (completes other at) c e s f =
      transition_keeps d other external_started completed at true e
        (λ same. absurd (ground (arith, f, same, eq_iff other id)))
  call_keeps d (gives_up other) c e s f = ground (arith, e)

  begin_refuses :
      (d : DispatchLedger) (given : AiDispatchRecord)
      → given.dispatch_id ≡ id
      → lookup id d.records ≡ some r
      → (begin persist d given).1 ≢ ok reserved
  begin_refuses d given same e = elim (begin-cases persist d given) [
    | inl (_, apart) ↦ apart
    | inr (inl (_, (error, why))) ↦ λ h. ground (arith, h, why)
    | inr (inr (v, inactive, absent, room_left, made)) ↦ absurd (ground (arith, absent, same, e))
  ]

  start_refused :
      (d : DispatchLedger) (at : Str)
      → lookup id d.records ≡ some r
      → r.state ≡ external_started
      → (error : AiDispatchLedgerError) × (mark_external_started persist d id at ≡ (d, err error))
  unfolding mark_external_started
  start_refused d at e s = elim (transition-cases persist d id prepared external_started at false) [
    | inl (error, same) ↦ (error, same)
    | inr (found, held, right, stamped, busy, made) ↦
        let same : found ≡ r = ground (arith, held, e) in absurd (ground (arith, right, same, s))
  ]

calls_keep :
    (id : Str) {r : AiDispatchRecord} (d : DispatchLedger) (calls : List (Persist × Call))
    → IsConsistent d
    → lookup id d.records ≡ some r
    → r.state ≡ external_started
    → All (λ step. finishes id step.1 ≡ false) calls
    → (lookup id (after_calls d calls).records ≡ some r) × IsConsistent (after_calls d calls)
unfolding after_calls
calls_keep id {r} d [] c e s f = (e, c)
calls_keep id {r} d ((p, call) ∷ calls) c e s f =
    let next = call_keeps p id d call c e s f.0 in
    calls_keep id (after_call p d call) calls (after_call-IsConsistent p d call c) next s f.1

-- A dispatch whose provider call has started keeps its record, and can be neither reserved nor
-- started again, whatever calls follow that do not report the end of this one, and whether or not
-- writing the file fails.
pub started_once :
    (d : DispatchLedger) (id : Str) {r : AiDispatchRecord} (calls : List (Persist × Call))
    (persist : Persist) (given : AiDispatchRecord) (at : Str)
    → IsConsistent d
    → lookup id d.records ≡ some r
    → r.state ≡ external_started
    → All (λ step. finishes id step.1 ≡ false) calls
    → given.dispatch_id ≡ id
    → (lookup id (after_calls d calls).records ≡ some r)
      × ((begin persist (after_calls d calls) given).1 ≢ ok reserved)
      × ((error : AiDispatchLedgerError) × (mark_external_started persist
              (after_calls d calls)
              id
              at
            ≡ (after_calls d calls, err error)))
started_once d id {r} calls persist given at c e s f same =
    let (held, _) = calls_keep id d calls c e s f in
    (
      held,
      begin_refuses persist id (after_calls d calls) given same held,
      start_refused persist id (after_calls d calls) at held s,
    )
