-- ===== src/Conductor/State.antt =====
-- The state of one conductor operation, and what it asks for next
-- (crates/moe-core/src/conductor.rs).
use m_i_o.Prelude.{
  ℕ, ◌≡◌, ◌↔◌, Bool, true, false, ◌&&◌, not, Option, none, some, List, [], arith, if◌then◌else◌,
  is_empty, filter, Result, ok, ◌>>=◌, is_some, is_none, PartialEq, ◌==◌, eq_iff, nat_eq, list_eq,
  option_eq,
}
use m_i_o.Text.{Str}
use m_i_o.Conductor.Plan.{ConductorDelegation, ConductorPlanV1, plan_eq}
use m_i_o.Conductor.Ids.{
  ConductorOperationIds, ConductorDelegationIds, ConductorOperationError, derive,
}

abbrev pub maximum_result_text_bytes : ℕ
maximum_result_text_bytes = 100000

pub data ConductorOperationStage : Type 0 where
  prepared planning delegating synthesizing completed failed unknown : ConductorOperationStage

pub data WorkerOutcome : Type 0 where
  succeeded : (reply_message_id body : Str) → WorkerOutcome
  failed : (reason : Str) → WorkerOutcome
  unknown : WorkerOutcome

abbrev pub outcome_beq : WorkerOutcome → WorkerOutcome → Bool
outcome_beq (WorkerOutcome.succeeded r b) (WorkerOutcome.succeeded r' b') = r == r' && b == b'
outcome_beq (WorkerOutcome.failed r) (WorkerOutcome.failed r') = r == r'
outcome_beq WorkerOutcome.unknown WorkerOutcome.unknown = true
outcome_beq _ _ = false

pub outcome_beq_iff : (a b : WorkerOutcome) → (outcome_beq a b ≡ true) ↔ (a ≡ b)
outcome_beq_iff (WorkerOutcome.succeeded r b) (WorkerOutcome.succeeded r' b') =
    ground (arith, eq_iff r r', eq_iff b b')
outcome_beq_iff (WorkerOutcome.failed r) (WorkerOutcome.failed r') = ground (arith, eq_iff r r')
outcome_beq_iff WorkerOutcome.unknown WorkerOutcome.unknown = ground arith
outcome_beq_iff _ _ = ground arith

instance abbrev pub outcome_eq : PartialEq WorkerOutcome
outcome_eq = record { test = outcome_beq; law = outcome_beq_iff }

pub record ConductorDelegationState : Type 0 where
  pub delegation : ConductorDelegation
  pub ids : ConductorDelegationIds
  pub outcome : Option WorkerOutcome

pub data ConductorNextAction : Type 0 where
  begin_planning : ConductorNextAction
  request_plan : (operation_id : Str) → ConductorNextAction
  dispatch_workers : List ConductorDelegationState → ConductorNextAction
  request_synthesis :
      (operation_id : Str) (results : List ConductorDelegationState) → ConductorNextAction
  save_final_answer : (message_id body : Str) → ConductorNextAction

pub record ConductorOperation : Type 0 where
  pub ids : ConductorOperationIds
  pub source_message_id : Str
  pub conductor_id : Str
  pub stage : ConductorOperationStage
  pub plan : Option ConductorPlanV1
  pub delegations : List ConductorDelegationState
  pub pending_final_answer : Option Str

unfoldable pub try_new : Str → Str → Result ConductorOperationError ConductorOperation
try_new source_message_id conductor_id = derive source_message_id conductor_id >>= λ ids.
    ok (record {
      ids = ids;
      source_message_id = source_message_id;
      conductor_id = conductor_id;
      stage = prepared;
      plan = none;
      delegations = [];
      pending_final_answer = none;
    })

abbrev pub is_pending : ConductorDelegationState → Bool
is_pending state = is_none state.outcome

abbrev pub is_recorded : ConductorDelegationState → Bool
is_recorded state = is_some state.outcome

unfoldable pub next_action : ConductorOperation → Option ConductorNextAction
next_action s = elim s.stage [
  | prepared ↦ some ConductorNextAction.begin_planning
  | planning ↦ some (request_plan s.ids.operation_id)
  | delegating ↦
      let pending = filter is_pending s.delegations in
      if not (is_empty pending) then some (dispatch_workers pending) else none
  | synthesizing ↦ elim s.pending_final_answer [
    | some body ↦ some (save_final_answer s.ids.final_message_id body)
    | none ↦ some (request_synthesis s.ids.operation_id s.delegations)
  ]
  | _ ↦ none
]
