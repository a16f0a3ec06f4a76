-- ===== src/Ledger/Orchestration/Interrupted.antt =====
-- An operation that the program left while a call of the conductor was under way is never resumed
-- (apps/desktop/src-tauri/src/room_orchestration_ledger.rs).
use m_i_o.Prelude.{
  ℕ, zero, suc, ◌≡◌, ◌≢◌, inl, inr, refl, subst, ◌∙◌, true, false, none, some, List, [], ◌∷◌, any,
  arith, ok, get_elem?, eq_iff, list_eq, nat_eq, Bool-cases, Option-cases, Result-cases,
}
use m_i_o.Text.{Str}
use m_i_o.Command.Maps.{lookup, insert, adjust, lookup-insert, lookup-adjust}
use m_i_o.Conductor.Ids.{derive}
use m_i_o.Conductor.State.{ConductorOperationStage, unknown, planning}
use m_i_o.Ledger.Orchestration.{
  OrchestrationDelegationLink, RoomOrchestrationRecord, OrchestrationRecords, OrchestrationLedger,
  stage_beq, valid_record, prune_terminal_record, first_record, begin_record, begin, transition,
  mark_planning, mark_delegating, mark_synthesizing, mark_completed, mark_failed, mark_unknown,
}
use m_i_o.Ledger.Orchestration.Loading.{
  PersistedFile, is_interrupted, normalize, load_records, open_ledger,
}
use m_i_o.Ledger.Orchestration.Steps.{
  Persist, moved, delegated, begin_record-cases, transition-cases, mark_delegating-cases,
}
use m_i_o.Ledger.Orchestration.Invariant.{IsLedger, prune-kept}
use m_i_o.Ledger.Orchestration.Invariant.Calls.{
  Call, begins, delegates, plans, synthesizes, completes, fails, loses, after_call, after_calls,
  after_call-IsLedger, after_calls-open-IsLedger, opened-records,
}

module _ (persist : Persist) (d : OrchestrationLedger) (id : Str)
    {r : RoomOrchestrationRecord} where
  begin_keeps :
      (room_id source_message_id conductor_id updated_at : Str)
      → IsLedger d.records
      → lookup id d.records ≡ some r
      → r.stage ≡ unknown
      → lookup id (begin persist d room_id source_message_id conductor_id updated_at).0.records
        ≡ some r
  unfolding begin
  begin_keeps room_id source_message_id conductor_id updated_at l e u =
      elim (Result-cases (derive source_message_id conductor_id)) [
        | inl (_, none_made) ↦ rw (none_made, begin) e
        | inr (ids, made) ↦
            rw (made, begin)
              (started (first_record ids room_id source_message_id conductor_id updated_at))
      ]
    where
      started :
          (s : RoomOrchestrationRecord) → lookup id (begin_record persist d s).0.records ≡ some r
      started s = elim (begin_record-cases persist d s) [
        | inl (_, same) ↦ rw same e
        | inr (inl (found, held, same, known)) ↦ rw known e
        | inr (inr (v, new, room_left, made)) ↦
            let kept = prune-kept d.records id l e (rw u refl) in
            rw made (
              lookup-insert s.operation_id id s (prune_terminal_record d.records)
              ∙ ground (arith, kept, e, new, eq_iff s.operation_id id))
      ]

  adjust_keeps :
      (other : Str) (f : RoomOrchestrationRecord → RoomOrchestrationRecord)
      → lookup id d.records ≡ some r
      → other ≢ id
      → lookup id (adjust other f d.records) ≡ some r
  adjust_keeps other f e apart =
      lookup-adjust other id f d.records ∙ ground (arith, e, apart, eq_iff other id)

  held_there :
      (other : Str) {s : RoomOrchestrationRecord}
      → lookup other d.records ≡ some s
      → other ≡ id
      → lookup id d.records ≡ some r
      → s ≡ r
  held_there other {s} held same e =
      let there : lookup id d.records ≡ some s =
        subst (λ k. lookup k d.records ≡ some s) same held in
      ground (arith, there, e)

  transition_keeps :
      (other : Str) (expected : List ConductorOperationStage) (next_stage : ConductorOperationStage)
      (updated_at : Str)
      → lookup id d.records ≡ some r
      → any (stage_beq r.stage) expected ≡ false
      → lookup id (transition persist d other expected next_stage updated_at).0.records ≡ some r
  transition_keeps other expected next_stage updated_at e outside =
      elim (transition-cases persist d other expected next_stage updated_at) [
        | inl (_, same) ↦ rw same e
        | inr (inl same) ↦ rw same e
        | inr (inr (s, held, inside, t, made)) ↦ rw made (
            adjust_keeps other (moved next_stage updated_at) e (λ same.
              let found = held_there other held same e in
              let clash : any (stage_beq r.stage) expected ≡ true =
                subst (λ x. any (stage_beq x.stage) expected ≡ true) found inside in
              ground (arith, clash, outside)))
      ]

  delegating_keeps :
      (other session_id : Str) (links : List OrchestrationDelegationLink) (updated_at : Str)
      → lookup id d.records ≡ some r
      → r.stage ≡ unknown
      → lookup id (mark_delegating persist d other session_id links updated_at).0.records ≡ some r
  delegating_keeps other session_id links updated_at e u =
      elim (mark_delegating-cases persist d other session_id links updated_at) [
        | inl (_, same) ↦ rw same e
        | inr (inl same) ↦ rw same e
        | inr (inr (s, held, inside, t, session, few, fine, made)) ↦ rw made (
            adjust_keeps other (delegated session_id links updated_at) e (λ same.
              let found = held_there other held same e in
              let clash : stage_beq r.stage planning ≡ true =
                subst (λ x. stage_beq x.stage planning ≡ true) found inside in
              ground (arith, clash, u)))
      ]

call_keeps :
    (persist : Persist) (d : OrchestrationLedger) (call : Call) (id : Str)
    {r : RoomOrchestrationRecord}
    → IsLedger d.records
    → lookup id d.records ≡ some r
    → r.stage ≡ unknown
    → lookup id (after_call persist d call).records ≡ some r
unfolding after_call mark_planning mark_synthesizing mark_completed mark_failed mark_unknown any
call_keeps persist d (begins room source_id conductor at) id l e u =
    begin_keeps persist d id room source_id conductor at l e u
call_keeps persist d (delegates other session_id links at) id l e u =
    delegating_keeps persist d id other session_id links at e u
call_keeps persist d (plans other at) id l e u =
    transition_keeps persist d id other _ _ at e (rw u refl)
call_keeps persist d (synthesizes other at) id l e u =
    transition_keeps persist d id other _ _ at e (rw u refl)
call_keeps persist d (completes other at) id l e u =
    transition_keeps persist d id other _ _ at e (rw u refl)
call_keeps persist d (fails other at) id l e u =
    transition_keeps persist d id other _ _ at e (rw u refl)
call_keeps persist d (loses other at) id l e u =
    transition_keeps persist d id other _ _ at e (rw u refl)

calls_keep :
    (d : OrchestrationLedger) (calls : List (Persist × Call)) (id : Str)
    {r : RoomOrchestrationRecord}
    → IsLedger d.records
    → lookup id d.records ≡ some r
    → r.stage ≡ unknown
    → lookup id (after_calls d calls).records ≡ some r
unfolding after_calls
calls_keep d [] id l e u = e
calls_keep d ((persist, call) ∷ calls) id {r} l e u =
    calls_keep (after_call persist d call) calls id {r = r} (after_call-IsLedger persist d call l)
      (call_keeps persist d call id l e u) u

-- A file that is loaded goes on with the rest, each record being new.
load_step :
    (before : OrchestrationRecords) (s : RoomOrchestrationRecord)
    (rest : List RoomOrchestrationRecord) {out : OrchestrationRecords}
    → load_records before (s ∷ rest) ≡ ok out
    → (lookup s.operation_id before ≡ none)
      × (load_records (insert s.operation_id (normalize s) before) rest ≡ ok out)
unfolding load_records
load_step before s rest {out} loads = elim (Bool-cases (valid_record s)) [
  | inr bad ↦ absurd (ground (arith, loads, bad))
  | inl v ↦ elim (Option-cases (lookup s.operation_id before)) [
    | inr (other, twice) ↦ absurd (ground (arith, loads, v, twice))
    | inl new ↦ (new, ground (arith, loads, v, new))
  ]
]

load_records-kept :
    (before : OrchestrationRecords) (persisted : List RoomOrchestrationRecord)
    {out : OrchestrationRecords} (id : Str) {r : RoomOrchestrationRecord}
    → lookup id before ≡ some r
    → load_records before persisted ≡ ok out
    → lookup id out ≡ some r
unfolding load_records
load_records-kept before [] {out} id {r} e loads = ground (arith, e, loads)
load_records-kept before (s ∷ rest) {out} id {r} e loads =
    let (new, later) = load_step before s rest {out = out} loads in
    load_records-kept (insert s.operation_id (normalize s) before) rest {out = out} id {r = r}
      (lookup-insert s.operation_id id (normalize s) before
        ∙ ground (arith, e, new, eq_iff s.operation_id id))
      later

load_records-found :
    (before : OrchestrationRecords) (persisted : List RoomOrchestrationRecord)
    {out : OrchestrationRecords} (i : ℕ) {r : RoomOrchestrationRecord}
    → get_elem? persisted i ≡ some r
    → load_records before persisted ≡ ok out
    → lookup r.operation_id out ≡ some (normalize r)
load_records-found before [] i e loads = cc
load_records-found before (s ∷ rest) {out} zero {r} e loads =
    let (new, later) = load_step before s rest {out = out} loads in
    let first : s ≡ r = ground (arith, e) in
    let put : lookup s.operation_id (insert s.operation_id (normalize s) before)
        ≡ some (normalize s) =
      lookup-insert s.operation_id s.operation_id (normalize s) before
      ∙ ground (arith, eq_iff s.operation_id s.operation_id) in
    subst (λ x. lookup x.operation_id out ≡ some (normalize x)) first
      (load_records-kept (insert s.operation_id (normalize s) before) rest {out = out}
        s.operation_id put later)
load_records-found before (s ∷ rest) {out} (suc i) {r} e loads =
    load_records-found (insert s.operation_id (normalize s) before) rest {out = out} i {r = r} e
      ((load_step before s rest {out = out} loads).1)

-- An operation whose call of the conductor was under way when the file was written is unknown in the
-- ledger that is opened from it, and stays so, with its other fields, whatever calls follow.
pub interrupted_stays_unknown :
    (persist : Persist) (persisted : PersistedFile) (i : ℕ) {r : RoomOrchestrationRecord}
    {d : OrchestrationLedger} (calls : List (Persist × Call))
    → open_ledger persist persisted ≡ ok d
    → get_elem? persisted.records i ≡ some r
    → is_interrupted r ≡ true
    → lookup r.operation_id (after_calls d calls).records ≡ some (record r { stage = unknown })
unfolding after_calls
interrupted_stays_unknown persist persisted i {r} {d} calls opened e interrupted =
    let (loaded, few) = opened-records persist persisted {d = d} opened in
    let found = load_records-found [] persisted.records {out = d.records} i {r = r} e loaded in
    calls_keep d calls r.operation_id {r = record r { stage = unknown }}
      (after_calls-open-IsLedger persist persisted [] {d = d} opened)
      (found ∙ ground (arith, interrupted)) refl
