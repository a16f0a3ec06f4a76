-- ===== src/Ledger/Orchestration/Refusals.antt =====
-- A call of the ledger of operations that fails changes nothing
-- (apps/desktop/src-tauri/src/room_orchestration_ledger.rs).
use m_i_o.Prelude.{◌≡◌, inl, inr, refl, Bool, false, List, arith, is_ok, Result-cases}
use m_i_o.Text.{Str}
use m_i_o.Conductor.Ids.{derive}
use m_i_o.Conductor.State.{ConductorOperationStage}
use m_i_o.Ledger.Orchestration.{
  OrchestrationLedger, RoomOrchestrationRecord, OrchestrationDelegationLink, first_record,
  begin_record, begin, transition, mark_planning, mark_delegating, mark_synthesizing,
  mark_completed, mark_failed, mark_unknown,
}
use m_i_o.Ledger.Orchestration.Steps.{
  Persist, begin_record-cases, transition-cases, mark_delegating-cases,
}
use m_i_o.Ledger.Orchestration.Invariant.Calls.{
  Call, begins, delegates, plans, synthesizes, completes, fails, loses, after_call,
}

-- The call reports no error.
unfoldable pub succeeds : Persist → OrchestrationLedger → Call → Bool
succeeds persist d (begins room_id source_message_id conductor_id at) =
    is_ok (begin persist d room_id source_message_id conductor_id at).1
succeeds persist d (delegates id session_id links at) =
    is_ok (mark_delegating persist d id session_id links at).1
succeeds persist d (plans id at) = is_ok (mark_planning persist d id at).1
succeeds persist d (synthesizes id at) = is_ok (mark_synthesizing persist d id at).1
succeeds persist d (completes id at) = is_ok (mark_completed persist d id at).1
succeeds persist d (fails id at) = is_ok (mark_failed persist d id at).1
succeeds persist d (loses id at) = is_ok (mark_unknown persist d id at).1

module _ (persist : Persist) (d : OrchestrationLedger) where
  begin_record-refused :
      (r : RoomOrchestrationRecord)
      → is_ok (begin_record persist d r).1 ≡ false
      → (begin_record persist d r).0 ≡ d
  begin_record-refused r h = elim (begin_record-cases persist d r) [
    | inl (_, same) ↦ rw same refl
    | inr (inl (found, held, same, known)) ↦ rw known refl
    | inr (inr (v, new, room_left, made)) ↦ absurd (ground (arith, h, made))
  ]

  begin-refused :
      (room_id source_message_id conductor_id at : Str)
      → is_ok (begin persist d room_id source_message_id conductor_id at).1 ≡ false
      → (begin persist d room_id source_message_id conductor_id at).0 ≡ d
  unfolding begin
  begin-refused room_id source_message_id conductor_id at h =
      elim (Result-cases (derive source_message_id conductor_id)) [
        | inl (_, none_made) ↦ ground (arith, none_made)
        | inr (ids, made) ↦
            let r = first_record ids room_id source_message_id conductor_id at in
            ground (arith, made, h, begin_record-refused r)
      ]

  transition-refused :
      (id : Str) (expected : List ConductorOperationStage) (next_stage : ConductorOperationStage)
      (at : Str)
      → is_ok (transition persist d id expected next_stage at).1 ≡ false
      → (transition persist d id expected next_stage at).0 ≡ d
  transition-refused id expected next_stage at h =
      elim (transition-cases persist d id expected next_stage at) [
        | inl (_, same) ↦ rw same refl
        | inr (inl same) ↦ rw same refl
        | inr (inr (r, held, right, t, made)) ↦ absurd (ground (arith, h, made))
      ]

  mark_delegating-refused :
      (id session_id : Str) (links : List OrchestrationDelegationLink) (at : Str)
      → is_ok (mark_delegating persist d id session_id links at).1 ≡ false
      → (mark_delegating persist d id session_id links at).0 ≡ d
  mark_delegating-refused id session_id links at h =
      elim (mark_delegating-cases persist d id session_id links at) [
        | inl (_, same) ↦ rw same refl
        | inr (inl same) ↦ rw same refl
        | inr (inr (r, held, right, t, session, few, fine, made)) ↦ absurd (ground (arith, h, made))
      ]

  -- A call that reports an error, also one whose write of the file failed, leaves the ledger as it
  -- was.
  pub refused_call_unchanged :
      (call : Call) → succeeds persist d call ≡ false → after_call persist d call ≡ d
  unfolding succeeds after_call mark_planning mark_synthesizing mark_completed mark_failed
      mark_unknown
  refused_call_unchanged (begins room source_id conductor at) h =
      begin-refused room source_id conductor at h
  refused_call_unchanged (delegates id session_id links at) h =
      mark_delegating-refused id session_id links at h
  refused_call_unchanged (plans id at) h = transition-refused id _ _ at h
  refused_call_unchanged (synthesizes id at) h = transition-refused id _ _ at h
  refused_call_unchanged (completes id at) h = transition-refused id _ _ at h
  refused_call_unchanged (fails id at) h = transition-refused id _ _ at h
  refused_call_unchanged (loses id at) h = transition-refused id _ _ at h
