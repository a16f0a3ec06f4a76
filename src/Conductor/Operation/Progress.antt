-- ===== src/Conductor/Operation/Progress.antt =====
-- Every operation of crates/moe-core/src/conductor.rs ends: few calls can change it.
use m_i_o.Prelude.{
  ℕ, suc, ◌+◌, ◌≤◌, ◌<◌, ◌≡◌, Bool, true, false, none, some, List, [], ◌∷◌, arith, inl, inr, ◌⊎◌,
  ◌≢◌, ◌∙◌, length, find, modify, Result, ok, err, is_none, if◌then◌else◌, Option-cases,
}
use m_i_o.Text.{Str}
use m_i_o.Conductor.Plan.{ConductorDelegation, ConductorPlanV1}
use m_i_o.Conductor.Ids.{ConductorOperationError, ConductorOperationIds}
use m_i_o.Conductor.State.{
  ConductorOperationStage, prepared, planning, delegating, synthesizing, WorkerOutcome,
  ConductorDelegationState, ConductorOperation, try_new,
}
use m_i_o.Conductor.Operation.{
  begin_planning, delegation_states, accept_plan, accept_answer, accept_delegate,
  record_worker_outcome, advance, record_synthesis, mark_final_saved, mark_failed,
  mark_external_unknown, Call, begins, accepts, records, synthesizes, saves, fails, loses, step,
  is_for, with_outcome,
}

abbrev rank : ConductorOperationStage → ℕ
rank prepared = 9
rank planning = 8
rank delegating = 3
rank synthesizing = 1
rank _ = 0

abbrev count_pending : List ConductorDelegationState → ℕ
count_pending [] = 0
count_pending (x ∷ rest) = let n = count_pending rest in if is_none x.outcome then suc n else n

abbrev bit : Bool → ℕ
bit true = 1
bit false = 0

-- How much is left to happen.
abbrev pub work_left : ConductorOperation → ℕ
work_left s = rank s.stage + count_pending s.delegations + bit (is_none s.pending_final_answer)

abbrev CountOf :
    List ConductorDelegation
    → Result ConductorOperationError (List ConductorDelegationState)
    → Type 0
CountOf ds (err e) = Unit
CountOf ds (ok states) = count_pending states ≡ length ds

delegation_states-CountOf :
    (ids : ConductorOperationIds) (targets : List Str) (n : ℕ) (ds : List ConductorDelegation)
    → CountOf ds (delegation_states ids targets n ds)
unfolding delegation_states
delegation_states-CountOf ids targets n [] = ground arith
delegation_states-CountOf ids targets n (d ∷ ds) =
    ground (arith, delegation_states-CountOf ids (d.target_participant_id ∷ targets) (suc n) ds)

count_pending-modify :
    (target : Str) (o : WorkerOutcome) (states : List ConductorDelegationState)
    (state : ConductorDelegationState)
    → find (is_for target) states ≡ some state
    → state.outcome ≡ none
    → suc (count_pending (modify (is_for target) (with_outcome o) states)) ≡ count_pending states
unfolding find modify
count_pending-modify target o [] state h e = cc
count_pending-modify target o (x ∷ rest) state h e =
    ground (arith, count_pending-modify target o rest state)

-- The call changes nothing, or leaves less work.
abbrev pub Advances : ConductorOperation → ConductorOperation → Type 0
Advances s t = (t ≡ s) ⊎ (work_left t < work_left s)

accept_plan-Advances :
    (s : ConductorOperation) (plan : ConductorPlanV1) → Advances s (accept_plan s plan).0
unfolding accept_plan accept_answer accept_delegate
accept_plan-Advances s plan = ground (arith, delegation_states-CountOf s.ids [] 0 plan.delegations)

record_worker_outcome-Advances :
    (s : ConductorOperation) (target : Str) (o : WorkerOutcome)
    → Advances s (record_worker_outcome s target o).0
unfolding record_worker_outcome advance
record_worker_outcome-Advances s target o =
    elim (Option-cases (find (is_for target) s.delegations)) [
      | inl e ↦ ground arith
      | inr (state, e) ↦ ground (arith, count_pending-modify target o s.delegations state e)
    ]

-- A call leaves the operation as it was, or leaves strictly less work.
pub step-Advances : (s : ConductorOperation) (c : Call) → Advances s (step s c).0
unfolding step begin_planning record_synthesis mark_final_saved mark_failed mark_external_unknown
step-Advances s begins = ground arith
step-Advances s (accepts plan) = accept_plan-Advances s plan
step-Advances s (records target o) = record_worker_outcome-Advances s target o
step-Advances s (synthesizes text) = ground arith
step-Advances s saves = ground arith
step-Advances s fails = ground arith
step-Advances s loses = ground arith

-- `n` calls lead from `s` to a state, each of them changing the operation.
pub data Changes (s : ConductorOperation) : ℕ → ConductorOperation → Type 0 where
  stay : {n : ℕ} {u : ConductorOperation} → n ≡ 0 → u ≡ s → Changes s n u
  change :
      {n m : ℕ} {t u : ConductorOperation} (c : Call)
      → Changes s m t
      → u ≡ (step t c).0
      → u ≢ t
      → n ≡ suc m
      → Changes s n u

Changes-work_left :
    {s u : ConductorOperation} {n : ℕ} → Changes s n u → n + work_left u ≤ work_left s
Changes-work_left (stay z e) = rw (z, e) (omega arith)
Changes-work_left (change {t = t} c before e moved z) = elim (step-Advances t c) [
  | inl same ↦ absurd (moved (e ∙ same))
  | inr less ↦ rw (z, e) (omega (arith, Changes-work_left before))
]

-- From a new operation on, at most ten calls ever change it.
pub Changes-le-ten :
    (source_message_id conductor_id : Str) {s t : ConductorOperation} {n : ℕ}
    → try_new source_message_id conductor_id ≡ ok s
    → Changes s n t
    → n ≤ 10
unfolding try_new
Changes-le-ten m c {s} {t} {n} h changes = ground (arith, Changes-work_left changes)
