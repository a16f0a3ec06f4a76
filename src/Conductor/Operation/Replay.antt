-- ===== src/Conductor/Operation/Replay.antt =====
-- What a repeated or a refused call of crates/moe-core/src/conductor.rs leaves.
use m_i_o.Prelude.{
  ◌≡◌, some, List, [], ◌∷◌, arith, inl, inr, find, modify, ok, err, list_eq, nat_eq, eq_refl,
  Option-cases,
}
use m_i_o.Text.{Str}
use m_i_o.Conductor.Plan.{plan_eq}
use m_i_o.Conductor.Ids.{ConductorOperationError}
use m_i_o.Conductor.State.{
  ConductorOperationStage, completed, WorkerOutcome, outcome_eq, ConductorDelegationState,
  ConductorOperation,
}
use m_i_o.Conductor.Operation.{
  begin_planning, accept_plan, accept_answer, accept_delegate, record_worker_outcome, advance,
  record_synthesis, mark_final_saved, mark_failed, mark_external_unknown, Call, begins, accepts,
  records, synthesizes, saves, fails, loses, step, is_for, with_outcome,
}

-- A call that returns an error leaves the operation as it was, whatever its state.
pub step_error_unchanged :
    (s : ConductorOperation) (c : Call) {e : ConductorOperationError}
    → (step s c).1 ≡ err e
    → (step s c).0 ≡ s
unfolding step begin_planning accept_plan accept_answer accept_delegate record_worker_outcome
    record_synthesis mark_final_saved mark_failed mark_external_unknown
step_error_unchanged s begins h = ground arith
step_error_unchanged s (accepts plan) h = ground arith
step_error_unchanged s (records target o) h = ground arith
step_error_unchanged s (synthesizes text) h = ground arith
step_error_unchanged s saves h = ground arith
step_error_unchanged s fails h = ground arith
step_error_unchanged s loses h = ground arith

-- A recorded worker is found again with its outcome.
find-modify :
    (target : Str) (o : WorkerOutcome) (states : List ConductorDelegationState)
    (state : ConductorDelegationState)
    → find (is_for target) states ≡ some state
    → find (is_for target) (modify (is_for target) (with_outcome o) states)
      ≡ some (with_outcome o state)
unfolding find modify
find-modify target o [] state h = ground arith
find-modify target o (x ∷ rest) state h = ground (arith, find-modify target o rest state)

records_replay :
    (s : ConductorOperation) (target : Str) (o : WorkerOutcome)
    → (record_worker_outcome s target o).1 ≡ ok tt
    → record_worker_outcome (record_worker_outcome s target o).0 target o
      ≡ ((record_worker_outcome s target o).0, ok tt)
unfolding record_worker_outcome advance
records_replay s target o h = elim (Option-cases (find (is_for target) s.delegations)) [
  | inl e ↦ ground arith
  | inr (state, e) ↦ ground (arith, eq_refl o, find-modify target o s.delegations state e)
]

-- A call that succeeds, repeated, succeeds again and changes nothing: every method is idempotent.
pub step_replay :
    (s : ConductorOperation) (c : Call)
    → (step s c).1 ≡ ok tt
    → step (step s c).0 c ≡ ((step s c).0, ok tt)
unfolding step begin_planning accept_plan accept_answer accept_delegate record_worker_outcome
    record_synthesis mark_final_saved mark_failed mark_external_unknown advance
step_replay s begins h = ground arith
step_replay s (accepts plan) h = ground (arith, eq_refl plan)
step_replay s (records target o) h = records_replay s target o h
step_replay s (synthesizes text) h = ground (arith, eq_refl text)
step_replay s saves h = ground arith
step_replay s fails h = ground arith
step_replay s loses h = ground arith

abbrev pub IsTerminal : ConductorOperationStage → Type 0
IsTerminal completed = Unit
IsTerminal ConductorOperationStage.failed = Unit
IsTerminal ConductorOperationStage.unknown = Unit
IsTerminal _ = ⊥

-- A completed, failed or unknown operation is never changed again, by any call.
pub terminal_absorbs : (s : ConductorOperation) (c : Call) → IsTerminal s.stage → (step s c).0 ≡ s
unfolding step begin_planning accept_plan accept_answer accept_delegate record_worker_outcome
    record_synthesis mark_final_saved mark_failed mark_external_unknown
terminal_absorbs s begins h = ground arith
terminal_absorbs s (accepts plan) h = ground arith
terminal_absorbs s (records target o) h = ground arith
terminal_absorbs s (synthesizes text) h = ground arith
terminal_absorbs s saves h = ground arith
terminal_absorbs s fails h = ground arith
terminal_absorbs s loses h = ground arith
