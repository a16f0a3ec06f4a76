-- ===== src/Ledger/Orchestration/Stages.antt =====
-- The stages that an operation goes through, and that the ledger of operations goes through no others
-- (apps/desktop/src-tauri/src/room_orchestration_ledger.rs).
use m_i_o.Prelude.{
  ℕ, suc, length, ◌≡◌, inl, inr, refl, subst, ◌∙◌, true, Option, none, some, List, [], ◌∷◌, any,
  ◌||◌, arith, ◌==◌, list_eq, nat_eq, eq_iff, Bool-cases, Result-cases,
}
use m_i_o.Text.{Str}
use m_i_o.Command.Maps.{lookup, insert, adjust, lookup-insert, lookup-adjust}
use m_i_o.Conductor.Ids.{derive}
use m_i_o.Conductor.State.{
  ConductorOperationStage, prepared, planning, delegating, synthesizing, completed, failed, unknown,
}
use m_i_o.Ledger.Pruning.{prune-lookup}
use m_i_o.Ledger.Orchestration.{
  OrchestrationDelegationLink, RoomOrchestrationRecord, OrchestrationLedger, stage_beq, is_prunable,
  prune_terminal_record, first_record, begin_record, begin, transition, mark_planning,
  mark_delegating, mark_synthesizing, mark_completed, mark_failed, mark_unknown,
}
use m_i_o.Ledger.Orchestration.Steps.{
  Persist, moved, delegated, begin_record-cases, transition-cases, mark_delegating-cases,
}
use m_i_o.Ledger.Orchestration.Invariant.{IsRecordAt, IsLedger}
use m_i_o.Ledger.Orchestration.Invariant.Calls.{
  Call, begins, delegates, plans, synthesizes, completes, fails, loses, after_call, after_calls,
  after_call-IsLedger,
}

-- The moves of an operation.
pub data Moves : ConductorOperationStage → ConductorOperationStage → Type 0 where
  to_plan : Moves prepared planning
  to_delegate : Moves planning delegating
  to_answer : Moves planning synthesizing
  to_synthesis : Moves delegating synthesizing
  to_completion : Moves synthesizing completed
  prepared_fails : Moves prepared failed
  planning_fails : Moves planning failed
  delegating_fails : Moves delegating failed
  synthesizing_fails : Moves synthesizing failed
  planning_lost : Moves planning unknown
  synthesizing_lost : Moves synthesizing unknown

-- What may become of an operation in one call: it stays, is opened, moves on, or is forgotten when it
-- has ended well or badly.
pub data Advances : Option ConductorOperationStage → Option ConductorOperationStage → Type 0 where
  stays : (s : Option ConductorOperationStage) → Advances s s
  opens : Advances none (some prepared)
  moves : (s t : ConductorOperationStage) → Moves s t → Advances (some s) (some t)
  forgets_completed : Advances (some completed) none
  forgets_failed : Advances (some failed) none

abbrev pub stage_in : Option RoomOrchestrationRecord → Option ConductorOperationStage
stage_in none = none
stage_in (some r) = some r.stage

-- The stage of the operation with an identifier.
abbrev pub stage_at : Str → OrchestrationLedger → Option ConductorOperationStage
stage_at id d = stage_in (lookup id d.records)

plan-Moves :
    (s : ConductorOperationStage) → any (stage_beq s) (prepared ∷ []) ≡ true → Moves s planning
unfolding any
plan-Moves prepared e = to_plan
plan-Moves _ e = absurd (ground (arith, e))

synthesis-Moves :
    (s : ConductorOperationStage)
    → any (stage_beq s) (planning ∷ delegating ∷ []) ≡ true
    → Moves s synthesizing
unfolding any
synthesis-Moves planning e = to_answer
synthesis-Moves delegating e = to_synthesis
synthesis-Moves _ e = absurd (ground (arith, e))

completion-Moves :
    (s : ConductorOperationStage) → any (stage_beq s) (synthesizing ∷ []) ≡ true → Moves s completed
unfolding any
completion-Moves synthesizing e = to_completion
completion-Moves _ e = absurd (ground (arith, e))

failure-Moves :
    (s : ConductorOperationStage)
    → any (stage_beq s) (prepared ∷ planning ∷ delegating ∷ synthesizing ∷ []) ≡ true
    → Moves s failed
unfolding any
failure-Moves prepared e = prepared_fails
failure-Moves planning e = planning_fails
failure-Moves delegating e = delegating_fails
failure-Moves synthesizing e = synthesizing_fails
failure-Moves _ e = absurd (ground (arith, e))

loss-Moves :
    (s : ConductorOperationStage)
    → any (stage_beq s) (planning ∷ synthesizing ∷ []) ≡ true
    → Moves s unknown
unfolding any
loss-Moves planning e = planning_lost
loss-Moves synthesizing e = synthesizing_lost
loss-Moves _ e = absurd (ground (arith, e))

delegation-Moves : (s : ConductorOperationStage) → stage_beq s planning ≡ true → Moves s delegating
delegation-Moves planning e = to_delegate
delegation-Moves _ e = absurd (ground (arith, e))

forgotten :
    (s : ConductorOperationStage)
    → (stage_beq s completed || stage_beq s failed) ≡ true
    → Advances (some s) none
forgotten completed e = forgets_completed
forgotten failed e = forgets_failed
forgotten _ e = absurd (ground (arith, e))

module _ (persist : Persist) (d : OrchestrationLedger) (id : Str) where
  adjust-Advances :
      (other : Str) (f : RoomOrchestrationRecord → RoomOrchestrationRecord)
      {r : RoomOrchestrationRecord}
      → lookup other d.records ≡ some r
      → Moves r.stage (f r).stage
      → Advances (stage_at id d) (stage_in (lookup id (adjust other f d.records)))
  adjust-Advances other f {r} held m =
      let there = lookup-adjust other id f d.records in
      elim (Bool-cases (other == id)) [
        | inl hit ↦
            let here : lookup id d.records ≡ some r =
              subst (λ k. lookup k d.records ≡ some r) ((eq_iff other id).0 hit) held in
            let after : lookup id (adjust other f d.records) ≡ some (f r) =
              there ∙ ground (arith, hit, here) in
            rw (here, after) (moves r.stage (f r).stage m)
        | inr miss ↦
            let after : lookup id (adjust other f d.records) ≡ lookup id d.records =
              there ∙ ground (arith, miss) in
            rw after (stays (stage_at id d))
      ]

  pruned-Advances :
      IsLedger d.records
      → Advances (stage_at id d) (stage_in (lookup id (prune_terminal_record d.records)))
  unfolding prune_terminal_record
  pruned-Advances l =
      elim (prune-lookup (λ r. r.updated_at) (λ r. r.operation_id) is_prunable IsRecordAt
        (λ key. λ r. λ at. at.0) d.records id l) [
          | inl same ↦ rw same (stays (stage_at id d))
          | inr (r, held, done, gone) ↦ rw (held, gone) (forgotten r.stage done)
        ]

  begin_record-Advances :
      (r : RoomOrchestrationRecord)
      → r.stage ≡ prepared
      → IsLedger d.records
      → Advances (stage_at id d) (stage_at id (begin_record persist d r).0)
  begin_record-Advances r first l = elim (begin_record-cases persist d r) [
    | inl (_, same) ↦ rw same (stays (stage_at id d))
    | inr (inl (found, held, same, known)) ↦ rw known (stays (stage_at id d))
    | inr (inr (v, new, room_left, made)) ↦
        let put = lookup-insert r.operation_id id r (prune_terminal_record d.records) in
        rw made (elim (Bool-cases (r.operation_id == id)) [
          | inl hit ↦
              let absent : lookup id d.records ≡ none =
                subst (λ k. lookup k d.records ≡ none) ((eq_iff r.operation_id id).0 hit) new in
              let after : lookup id (insert r.operation_id r (prune_terminal_record d.records))
                  ≡ some r =
                put ∙ ground (arith, hit) in
              rw (absent, after, first) opens
          | inr miss ↦
              let after : lookup id (insert r.operation_id r (prune_terminal_record d.records))
                  ≡ lookup id (prune_terminal_record d.records) =
                put ∙ ground (arith, miss) in
              rw after (pruned-Advances l)
        ])
  ]

  begin-Advances :
      (room_id source_message_id conductor_id at : Str)
      → IsLedger d.records
      → Advances
          (stage_at id d)
          (stage_at id (begin persist d room_id source_message_id conductor_id at).0)
  unfolding begin
  begin-Advances room_id source_message_id conductor_id at l =
      elim (Result-cases (derive source_message_id conductor_id)) [
        | inl (_, none_made) ↦ rw (none_made, begin) (stays (stage_at id d))
        | inr (ids, made) ↦
            rw (made, begin)
              (begin_record-Advances (first_record ids room_id source_message_id conductor_id at)
                refl l)
      ]

  transition-Advances :
      (other : Str) (expected : List ConductorOperationStage) (next_stage : ConductorOperationStage)
      (at : Str)
      → ((s : ConductorOperationStage) → any (stage_beq s) expected ≡ true → Moves s next_stage)
      → Advances (stage_at id d) (stage_at id (transition persist d other expected next_stage at).0)
  transition-Advances other expected next_stage at allowed =
      elim (transition-cases persist d other expected next_stage at) [
        | inl (_, same) ↦ rw same (stays (stage_at id d))
        | inr (inl same) ↦ rw same (stays (stage_at id d))
        | inr (inr (r, held, inside, t, made)) ↦
            rw made (adjust-Advances other (moved next_stage at) held (allowed r.stage inside))
      ]

  delegating-Advances :
      (other session_id : Str) (links : List OrchestrationDelegationLink) (at : Str)
      → Advances
          (stage_at id d)
          (stage_at id (mark_delegating persist d other session_id links at).0)
  delegating-Advances other session_id links at =
      elim (mark_delegating-cases persist d other session_id links at) [
        | inl (_, same) ↦ rw same (stays (stage_at id d))
        | inr (inl same) ↦ rw same (stays (stage_at id d))
        | inr (inr (r, held, inside, t, session, few, fine, made)) ↦ rw made (
            adjust-Advances other (delegated session_id links at) held
              (delegation-Moves r.stage inside))
      ]

  call-Advances :
      (call : Call)
      → IsLedger d.records
      → Advances (stage_at id d) (stage_at id (after_call persist d call))
  unfolding after_call mark_planning mark_synthesizing mark_completed mark_failed mark_unknown
  call-Advances (begins room source_id conductor at) l =
      begin-Advances room source_id conductor at l
  call-Advances (delegates other session_id links at) l =
      delegating-Advances other session_id links at
  call-Advances (plans other at) l = transition-Advances other _ _ at plan-Moves
  call-Advances (synthesizes other at) l = transition-Advances other _ _ at synthesis-Moves
  call-Advances (completes other at) l = transition-Advances other _ _ at completion-Moves
  call-Advances (fails other at) l = transition-Advances other _ _ at failure-Moves
  call-Advances (loses other at) l = transition-Advances other _ _ at loss-Moves

-- A number of steps, one after another.
pub data Runs : ℕ → Option ConductorOperationStage → Option ConductorOperationStage → Type 0 where
  ends : (s : Option ConductorOperationStage) → Runs 0 s s
  goes_on :
      (n : ℕ) (s t u : Option ConductorOperationStage)
      → Advances s t
      → Runs n t u
      → Runs (suc n) s u

-- The ledger refines the machine of stages: whatever calls are made on a ledger with valid records, and
-- whether or not writing the file fails, the stage of each operation runs through the machine, one
-- step for each call, from where it was to where it is.
pub after_calls-Runs :
    (d : OrchestrationLedger) (calls : List (Persist × Call)) (id : Str)
    → IsLedger d.records
    → Runs (length calls) (stage_at id d) (stage_at id (after_calls d calls))
unfolding after_calls
after_calls-Runs d [] id l = ends (stage_at id d)
after_calls-Runs d ((persist, call) ∷ calls) id l =
    goes_on (length calls) (stage_at id d) (stage_at id (after_call persist d call))
      (stage_at id (after_calls (after_call persist d call) calls))
      (call-Advances persist d id call l)
      (after_calls-Runs (after_call persist d call) calls id (after_call-IsLedger persist d call l))
