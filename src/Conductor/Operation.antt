-- ===== src/Conductor/Operation.antt =====
-- The methods of a conductor operation as a state machine (crates/moe-core/src/conductor.rs): a
-- method that takes `&mut self` returns the operation as the call leaves it, and its result.
pub mod Replay
pub mod Invariant
pub mod Progress
pub mod Order
use m_i_o.Prelude.{
  ℕ, suc, Bool, true, false, ◌&&◌, ◌||◌, not, Option, none, some, List, [], ◌∷◌, between,
  if◌then◌else◌, length, is_empty, find, modify, all, Result, ok, err, ◌>>=◌, is_some, ◌==◌,
  contains, nat_eq, list_eq, option_eq,
}
use m_i_o.Text.{Str}
use m_i_o.Identifier.{valid_identifier, valid_bounded_text}
use m_i_o.Conductor.Plan.{
  answer, delegate, ConductorDelegation, ConductorPlanV1, plan_eq, maximum_workers,
  maximum_direct_answer_bytes, maximum_delegation_task_bytes,
}
use m_i_o.Conductor.Ids.{
  ConductorOperationIds, ConductorDelegationIds, ConductorOperationError, invalid_identity,
  invalid_stage, invalid_outcome, conflicting_replay, unknown_worker, derive, delegation,
}
use m_i_o.Conductor.State.{
  maximum_result_text_bytes, ConductorOperationStage, prepared, planning, delegating, synthesizing,
  completed, WorkerOutcome, outcome_eq, ConductorDelegationState, ConductorOperation, is_recorded,
}

-- The result of a method: the new state, and what it returns.
abbrev pub Step : Type 0
Step = ConductorOperation × Result ConductorOperationError (Unit {0})

unfoldable pub begin_planning : ConductorOperation → Step
begin_planning s = elim s.stage [
  | prepared ↦ (record s { stage = planning }, ok tt)
  | planning ↦ (s, ok tt)
  | _ ↦ (s, err invalid_stage)
]

-- The loop of `accept_plan` over the delegations, with the targets seen so far and the ordinal.
unfoldable pub delegation_states :
    ConductorOperationIds
    → List Str
    → ℕ
    → List ConductorDelegation
    → Result ConductorOperationError (List ConductorDelegationState)
delegation_states ids targets ordinal [] = ok []
delegation_states ids targets ordinal (d ∷ rest) =
    let states = delegation_states ids (d.target_participant_id ∷ targets) (suc ordinal) rest in
    if not (valid_identifier d.target_participant_id)
      || not (valid_bounded_text d.task maximum_delegation_task_bytes)
      || contains targets d.target_participant_id
    then err invalid_outcome
    else delegation ids d.target_participant_id ordinal >>= λ i.
        states >>= λ later. ok (record { delegation = d; ids = i; outcome = none } ∷ later)

-- `accept_plan` at a plan in answer mode, once the stage is right.
unfoldable pub accept_answer : ConductorOperation → ConductorPlanV1 → Step
accept_answer s plan = elim plan.direct_answer [
  | none ↦ (s, err invalid_outcome)
  | some text ↦
      if not (valid_bounded_text text maximum_direct_answer_bytes)
      then (s, err invalid_outcome)
      else if not (is_empty plan.delegations)
      then (s, err invalid_outcome)
      else (
        record s { pending_final_answer = some text; stage = synthesizing; plan = some plan },
        ok tt,
      )
]

-- `accept_plan` at a plan in delegate mode, once the stage is right.
unfoldable pub accept_delegate : ConductorOperation → ConductorPlanV1 → Step
accept_delegate s plan =
    if is_some plan.direct_answer || not (between 1 maximum_workers (length plan.delegations))
    then (s, err invalid_outcome)
    else elim (delegation_states s.ids [] 0 plan.delegations) [
      | err e ↦ (s, err e)
      | ok states ↦ (record s { delegations = states; stage = delegating; plan = some plan }, ok tt)
    ]

unfoldable pub accept_plan : ConductorOperation → ConductorPlanV1 → Step
accept_plan s plan = elim s.plan [
  | some existing ↦ if existing == plan then (s, ok tt) else (s, err conflicting_replay)
  | none ↦ elim s.stage [
    | planning ↦ elim plan.mode [
      | answer ↦ accept_answer s plan
      | delegate ↦ accept_delegate s plan
    ]
    | _ ↦ (s, err invalid_stage)
  ]
]

unfoldable pub valid_worker_outcome : WorkerOutcome → Bool
valid_worker_outcome (WorkerOutcome.succeeded reply_message_id body) =
    valid_identifier reply_message_id && valid_bounded_text body maximum_result_text_bytes
valid_worker_outcome (WorkerOutcome.failed reason) =
    valid_bounded_text reason maximum_delegation_task_bytes
valid_worker_outcome WorkerOutcome.unknown = true

abbrev pub is_for : Str → ConductorDelegationState → Bool
is_for target state = state.delegation.target_participant_id == target

abbrev pub is_delegating : ConductorOperationStage → Bool
is_delegating delegating = true
is_delegating _ = false

abbrev pub is_synthesizing : ConductorOperationStage → Bool
is_synthesizing synthesizing = true
is_synthesizing _ = false

-- The end of `record_worker_outcome`: with the last outcome the operation moves on.
unfoldable pub advance : ConductorOperation → ConductorOperation
advance s = if all is_recorded s.delegations then record s { stage = synthesizing } else s

abbrev pub with_outcome : WorkerOutcome → ConductorDelegationState → ConductorDelegationState
with_outcome o state = record state { outcome = some o }

unfoldable pub record_worker_outcome : ConductorOperation → Str → WorkerOutcome → Step
record_worker_outcome s target_participant_id o =
    elim (find (is_for target_participant_id) s.delegations) [
      | none ↦ (s, err unknown_worker)
      | some state ↦ elim state.outcome [
        | some existing ↦ if existing == o then (s, ok tt) else (s, err conflicting_replay)
        | none ↦
            if not (is_delegating s.stage) || not (valid_worker_outcome o)
            then (s, err invalid_outcome)
            else (
              advance (record s {
                delegations = modify (is_for target_participant_id) (with_outcome o) s.delegations;
              }),
              ok tt,
            )
      ]
    ]

abbrev pub has_delegate_plan : Option ConductorPlanV1 → Bool
has_delegate_plan none = false
has_delegate_plan (some plan) = elim plan.mode [ delegate ↦ true | answer ↦ false ]

unfoldable pub record_synthesis : ConductorOperation → Str → Step
record_synthesis s text = elim s.pending_final_answer [
  | some existing ↦ if existing == text then (s, ok tt) else (s, err conflicting_replay)
  | none ↦
      if not (is_synthesizing s.stage)
        || not (has_delegate_plan s.plan)
        || not (valid_bounded_text text maximum_result_text_bytes)
      then (s, err invalid_outcome)
      else (record s { pending_final_answer = some text }, ok tt)
]

unfoldable pub mark_final_saved : ConductorOperation → Step
mark_final_saved s = elim s.stage [
  | synthesizing ↦
      if is_some s.pending_final_answer
      then (record s { stage = completed }, ok tt)
      else (s, err invalid_stage)
  | completed ↦ (s, ok tt)
  | _ ↦ (s, err invalid_stage)
]

unfoldable pub mark_failed : ConductorOperation → Step
mark_failed s = elim s.stage [
  | completed ↦ (s, err invalid_stage)
  | ConductorOperationStage.failed ↦ (s, ok tt)
  | ConductorOperationStage.unknown ↦ (s, err invalid_stage)
  | _ ↦ (record s { stage = ConductorOperationStage.failed }, ok tt)
]

unfoldable pub mark_external_unknown : ConductorOperation → Step
mark_external_unknown s = elim s.stage [
  | completed ↦ (s, err invalid_stage)
  | ConductorOperationStage.failed ↦ (s, err invalid_stage)
  | ConductorOperationStage.unknown ↦ (s, ok tt)
  | _ ↦ (record s { stage = ConductorOperationStage.unknown }, ok tt)
]

-- A call of one of the methods above.
pub data Call : Type 0 where
  begins : Call
  accepts : ConductorPlanV1 → Call
  records : Str → WorkerOutcome → Call
  synthesizes : Str → Call
  saves fails loses : Call

unfoldable pub step : ConductorOperation → Call → Step
step s begins = begin_planning s
step s (accepts plan) = accept_plan s plan
step s (records target o) = record_worker_outcome s target o
step s (synthesizes text) = record_synthesis s text
step s saves = mark_final_saved s
step s fails = mark_failed s
step s loses = mark_external_unknown s

-- The operation after a sequence of calls, failed ones included.
unfoldable pub run : ConductorOperation → List Call → ConductorOperation
run s [] = s
run s (c ∷ cs) = run (step s c).0 cs
