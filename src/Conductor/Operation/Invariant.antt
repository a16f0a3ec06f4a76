-- ===== src/Conductor/Operation/Invariant.antt =====
-- What holds of a conductor operation between two calls (crates/moe-core/src/conductor.rs).
use m_i_o.Prelude.{
  ℕ, suc, ◌≤◌, ◌≡◌, ◌||◌, refl, true, false, Option, none, some, List, [], ◌∷◌, map, arith, length,
  modify, all, Result, ok, err, is_some, list_eq, nat_eq, is_empty, length-modify, ◌↔◌, filter,
}
use m_i_o.Text.{Str}
use m_i_o.Identifier.{valid_bounded_text}
use m_i_o.Conductor.Plan.{
  ConductorDelegation, ConductorPlanV1, maximum_direct_answer_bytes, maximum_workers, answer,
  delegate, plan_eq,
}
use m_i_o.Conductor.Ids.{ConductorOperationError, ConductorOperationIds}
use m_i_o.Conductor.State.{
  ConductorOperationStage, prepared, planning, delegating, synthesizing, completed, WorkerOutcome,
  ConductorDelegationState, ConductorOperation, try_new, next_action, is_recorded, is_pending,
  ConductorNextAction, request_plan, dispatch_workers, request_synthesis, save_final_answer,
}
use m_i_o.Conductor.Operation.Replay.{IsTerminal}
use m_i_o.Conductor.Operation.{
  begin_planning, delegation_states, accept_plan, accept_answer, accept_delegate,
  record_worker_outcome, advance, record_synthesis, mark_final_saved, mark_failed,
  mark_external_unknown, has_delegate_plan, Call, begins, accepts, records, synthesizes, saves,
  fails, loses, step, run, is_for, with_outcome,
}

-- The delegations that a plan asks for.
abbrev pub planned : Option ConductorPlanV1 → List ConductorDelegation
planned none = []
planned (some plan) = plan.delegations

abbrev pub delegation_of : ConductorDelegationState → ConductorDelegation
delegation_of state = state.delegation

-- What the stage says of the rest of the operation.
abbrev pub StageFits : ConductorOperation → ConductorOperationStage → Type 0
StageFits s prepared = (s.plan ≡ none) × (s.pending_final_answer ≡ none)
StageFits s planning = (s.plan ≡ none) × (s.pending_final_answer ≡ none)
StageFits s delegating =
    (has_delegate_plan s.plan ≡ true)
    × (s.pending_final_answer ≡ none)
    × (all is_recorded s.delegations ≡ false)
StageFits s synthesizing =
    (is_some s.plan ≡ true)
    × (all is_recorded s.delegations ≡ true)
    × ((has_delegate_plan s.plan || is_some s.pending_final_answer) ≡ true)
StageFits s completed =
    (is_some s.plan ≡ true)
    × (all is_recorded s.delegations ≡ true)
    × (is_some s.pending_final_answer ≡ true)
StageFits s ConductorOperationStage.failed = Unit
StageFits s ConductorOperationStage.unknown = Unit

abbrev pub AnswerFits : Option Str → Type 0
AnswerFits none = Unit
AnswerFits (some text) = valid_bounded_text text maximum_direct_answer_bytes ≡ true

pub record IsConsistent (s : ConductorOperation) : Type 0 where
  pub stage_fits : StageFits s s.stage
  pub as_planned : map delegation_of s.delegations ≡ planned s.plan
  pub at_most_three : length s.delegations ≤ maximum_workers
  pub answer_fits : AnswerFits s.pending_final_answer

-- What the states built from a plan's delegations look like.
abbrev StatesOf :
    List ConductorDelegation
    → Result ConductorOperationError (List ConductorDelegationState)
    → Type 0
StatesOf ds (err e) = Unit
StatesOf ds (ok states) =
    (map delegation_of states ≡ ds)
    × (length states ≡ length ds)
    × (all is_recorded states ≡ is_empty ds)

delegation_states-StatesOf :
    (ids : ConductorOperationIds) (targets : List Str) (n : ℕ) (ds : List ConductorDelegation)
    → StatesOf ds (delegation_states ids targets n ds)
unfolding delegation_states all
delegation_states-StatesOf ids targets n [] = ground arith
delegation_states-StatesOf ids targets n (d ∷ ds) =
    ground (arith, delegation_states-StatesOf ids (d.target_participant_id ∷ targets) (suc n) ds)

accept_delegate-IsConsistent :
    (s : ConductorOperation) (plan : ConductorPlanV1)
    → s.stage ≡ planning
    → plan.mode ≡ delegate
    → IsConsistent s
    → IsConsistent (accept_delegate s plan).0
unfolding accept_delegate
accept_delegate-IsConsistent s plan p m h =
    ground (arith, delegation_states-StatesOf s.ids [] 0 plan.delegations)

nil_of_map : (states : List ConductorDelegationState) → map delegation_of states ≡ [] → states ≡ []
nil_of_map [] h = refl
nil_of_map (x ∷ rest) h = cc

accept_answer-IsConsistent :
    (s : ConductorOperation) (plan : ConductorPlanV1)
    → s.stage ≡ planning
    → plan.mode ≡ answer
    → IsConsistent s
    → IsConsistent (accept_answer s plan).0
unfolding accept_answer all
accept_answer-IsConsistent s plan p m h = ground (arith, nil_of_map s.delegations)

accept_plan-IsConsistent :
    (s : ConductorOperation) (plan : ConductorPlanV1)
    → IsConsistent s
    → IsConsistent (accept_plan s plan).0
unfolding accept_plan
accept_plan-IsConsistent s plan h =
    ground (arith, accept_answer-IsConsistent s plan, accept_delegate-IsConsistent s plan)

map-modify :
    (target : Str) (o : WorkerOutcome) (states : List ConductorDelegationState)
    → map delegation_of (modify (is_for target) (with_outcome o) states) ≡ map delegation_of states
unfolding modify
map-modify target o [] = refl
map-modify target o (x ∷ rest) = ground (arith, map-modify target o rest)

record_worker_outcome-IsConsistent :
    (s : ConductorOperation) (target : Str) (o : WorkerOutcome)
    → IsConsistent s
    → IsConsistent (record_worker_outcome s target o).0
unfolding record_worker_outcome advance
record_worker_outcome-IsConsistent s target o h = ground (
  arith,
  map-modify target o s.delegations,
  length-modify (is_for target) (with_outcome o) s.delegations,
)

step-IsConsistent : (s : ConductorOperation) (c : Call) → IsConsistent s → IsConsistent (step s c).0
unfolding step begin_planning record_synthesis mark_final_saved mark_failed mark_external_unknown
step-IsConsistent s begins h = ground arith
step-IsConsistent s (accepts plan) h = accept_plan-IsConsistent s plan h
step-IsConsistent s (records target o) h = record_worker_outcome-IsConsistent s target o h
step-IsConsistent s (synthesizes text) h = ground arith
step-IsConsistent s saves h = ground arith
step-IsConsistent s fails h = ground arith
step-IsConsistent s loses h = ground arith

run-IsConsistent :
    (s : ConductorOperation) (cs : List Call) → IsConsistent s → IsConsistent (run s cs)
unfolding run
run-IsConsistent s [] h = h
run-IsConsistent s (c ∷ cs) h = run-IsConsistent (step s c).0 cs (step-IsConsistent s c h)

try_new-IsConsistent :
    (source_message_id conductor_id : Str) {s : ConductorOperation}
    → try_new source_message_id conductor_id ≡ ok s
    → IsConsistent s
unfolding try_new all
try_new-IsConsistent m c h = ground arith

-- Whatever calls a new operation receives, in whatever order, it stays consistent: the plan, the
-- delegations with their outcomes and the final answer fit the stage; the delegations are the
-- plan's, in order, and at most three; the final answer is neither blank nor too long.
pub run-try_new-IsConsistent :
    (source_message_id conductor_id : Str) (cs : List Call) {s : ConductorOperation}
    → try_new source_message_id conductor_id ≡ ok s
    → IsConsistent (run s cs)
run-try_new-IsConsistent m c cs {s} h = run-IsConsistent s cs (try_new-IsConsistent m c h)

pending_of_open :
    (states : List ConductorDelegationState)
    → is_empty (filter is_pending states) ≡ all is_recorded states
unfolding all filter
pending_of_open [] = refl
pending_of_open (x ∷ rest) = ground (arith, pending_of_open rest)

all-filter :
    (states : List ConductorDelegationState) → all is_pending (filter is_pending states) ≡ true
unfolding all filter
all-filter [] = refl
all-filter (x ∷ rest) = ground (arith, all-filter rest)

-- What an operation may ask for: the stage that each action belongs to, and what the action names.
abbrev pub Asks : ConductorOperation → Option ConductorNextAction → Type 0
Asks s none = IsTerminal s.stage
Asks s (some ConductorNextAction.begin_planning) = (s.stage ≡ prepared) × (s.plan ≡ none)
Asks s (some (request_plan id)) = (s.stage ≡ planning) × (s.plan ≡ none) × (id ≡ s.ids.operation_id)
Asks s (some (dispatch_workers workers)) =
    (s.stage ≡ delegating)
    × (workers ≡ filter is_pending s.delegations)
    × (all is_pending workers ≡ true)
    × (is_empty workers ≡ false)
Asks s (some (request_synthesis id results)) =
    (s.stage ≡ synthesizing)
    × (s.pending_final_answer ≡ none)
    × (id ≡ s.ids.operation_id)
    × (results ≡ s.delegations)
    × (all is_recorded results ≡ true)
    × (has_delegate_plan s.plan ≡ true)
Asks s (some (save_final_answer id body)) =
    (s.stage ≡ synthesizing)
    × (id ≡ s.ids.final_message_id)
    × (s.pending_final_answer ≡ some body)
    × (valid_bounded_text body maximum_direct_answer_bytes ≡ true)

-- A consistent operation asks for nothing exactly if its stage is terminal. What it asks for
-- before fits the stage: planning as long as there is no plan; the dispatch of exactly the workers
-- whose outcome is missing, of which there is at least one; the synthesis of a delegated plan's
-- results, when all of them are there and there is no final answer; and the saving of the final
-- answer, which is neither blank nor too long.
pub next_action-Asks :
    (s : ConductorOperation)
    → IsConsistent s
    → ((next_action s ≡ none) ↔ IsTerminal s.stage) × Asks s (next_action s)
unfolding next_action
next_action-Asks s h = ground (arith, pending_of_open s.delegations, all-filter s.delegations)
