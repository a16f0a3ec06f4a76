-- ===== src/Conductor/Samples.antt =====
-- Small runs of the conductor (crates/moe-core/src/conductor.rs), at which the theorems are applied.
use m_i_o.Prelude.{
  ℕ, ◌≤◌, ◌≡◌, ◌≢◌, ◌↔◌, refl, not, ◌==◌, if◌then◌else◌, list_eq, nat_eq, true, false, Option, none,
  some, List, [], ◌∷◌, find, contains, list_beq, ok, err,
}
use m_i_o.Text.{Str, lit, is_utf8}
use m_i_o.Identifier.{valid_identifier, valid_bounded_text}
use m_i_o.Room.Types.{human, ai}
use m_i_o.Conductor.Plan.{
  ConductorPlanContext, delegate, ConductorDelegation, ConductorPlanV1, null, RawConductorPlanV1,
  bad_participants, validate_context, validate_target, validate_delegations_from,
  validate_delegations, direct_answer_of, plan_of, parse_conductor_plan_v1,
}
use m_i_o.Conductor.Plan.Targets.{AreAllowed, validate_delegations_iff}
use m_i_o.Conductor.Ids.{
  ConductorOperationIds, invalid_outcome, derive, delegation, operation_ids_of, delegation_ids_of,
  stable_identifier, to_string,
}
use m_i_o.Conductor.Ids.Shape.{derived_ids_valid}
use m_i_o.Conductor.State.{
  prepared, planning, completed, WorkerOutcome, ConductorOperation, delegating,
  ConductorDelegationState, try_new, next_action,
}
use m_i_o.Conductor.Operation.{
  begin_planning, accept_plan, is_for, valid_worker_outcome, record_worker_outcome, Call, begins,
  accepts, records, synthesizes, saves, step, run, record_synthesis,
}
use m_i_o.Conductor.Operation.Invariant.{
  IsConsistent, run-try_new-IsConsistent, next_action-Asks, Asks,
}
use m_i_o.Conductor.Operation.Replay.{
  IsTerminal, step_replay, step_error_unchanged, terminal_absorbs,
}
use m_i_o.Conductor.Operation.Progress.{
  Advances, step-Advances, Changes, stay, change, Changes-le-ten,
}
use m_i_o.Conductor.Operation.Order.{record_worker_outcome_comm}
use m_i_o.Conductor.Acceptance.{IsSound, parse_conductor_plan_v1-IsSound, parse-accept_plan}

abbrev room_context : ConductorPlanContext
room_context = record {
  owner_id = lit "owner";
  conductor_id = lit "lead";
  participants =
      record { id = lit "owner"; kind = human; can_receive_delegation = false }
      ∷ record { id = lit "lead"; kind = ai; can_receive_delegation = true }
      ∷ record { id = lit "coder"; kind = ai; can_receive_delegation = true }
      ∷ [];
}

abbrev tasks : List ConductorDelegation
tasks = record { target_participant_id = lit "coder"; task = lit "fix it" } ∷ []

abbrev delegate_plan : ConductorPlanV1
delegate_plan = record { version = 1; mode = delegate; direct_answer = none; delegations = tasks }

-- A decoder that knows one envelope.
abbrev envelope : List ℕ
envelope = b'{' ∷ b'}' ∷ []

abbrev decode : List ℕ → Option RawConductorPlanV1
decode input =
    if not (input == envelope)
    then none
    else some (record { version = 1; mode = delegate; direct_answer = null; delegations = tasks })

parsed : parse_conductor_plan_v1 decode envelope room_context ≡ ok delegate_plan
unfolding parse_conductor_plan_v1 validate_context valid_identifier list_beq bad_participants
    contains find is_utf8 direct_answer_of plan_of validate_delegations validate_delegations_from
    valid_bounded_text validate_target
parsed = refl

abbrev new_ids : ConductorOperationIds
new_ids =
    operation_ids_of
      (stable_identifier (lit "conductor-operation-v1") (lit "m-1" ∷ lit "lead" ∷ []))

abbrev new_operation : ConductorOperation
new_operation = record {
  ids = new_ids;
  source_message_id = lit "m-1";
  conductor_id = lit "lead";
  stage = prepared;
  plan = none;
  delegations = [];
  pending_final_answer = none;
}

abbrev planning_operation : ConductorOperation
planning_operation = record new_operation { stage = planning }

made : try_new (lit "m-1") (lit "lead") ≡ ok new_operation
unfolding try_new derive valid_identifier
made = refl

abbrev calls : List Call
calls =
    begins
    ∷ accepts delegate_plan
    ∷ records (lit "coder") (WorkerOutcome.failed (lit "no"))
    ∷ synthesizes (lit "sorry")
    ∷ saves
    ∷ []

run-try_new-IsConsistent_example : IsConsistent (run new_operation calls)
run-try_new-IsConsistent_example = run-try_new-IsConsistent (lit "m-1") (lit "lead") calls made

accepted : (step planning_operation (accepts delegate_plan)).1 ≡ ok tt
unfolding step
accepted = parse-accept_plan decode envelope room_context planning_operation parsed refl refl

step_replay_example :
    step (step planning_operation (accepts delegate_plan)).0 (accepts delegate_plan)
    ≡ ((step planning_operation (accepts delegate_plan)).0, ok tt)
step_replay_example = step_replay planning_operation (accepts delegate_plan) accepted

parse-accept_plan_example : (accept_plan planning_operation delegate_plan).1 ≡ ok tt
parse-accept_plan_example =
    parse-accept_plan decode envelope room_context planning_operation parsed refl refl

parse_conductor_plan_v1-IsSound_example : IsSound room_context delegate_plan
parse_conductor_plan_v1-IsSound_example =
    parse_conductor_plan_v1-IsSound decode envelope room_context parsed

validate_delegations_iff_example :
    (validate_delegations tasks room_context ≡ ok tt) ↔ AreAllowed room_context [] tasks
validate_delegations_iff_example = validate_delegations_iff room_context tasks

planning-IsConsistent : IsConsistent planning_operation
unfolding run step begin_planning
planning-IsConsistent = run-try_new-IsConsistent (lit "m-1") (lit "lead") (begins ∷ []) made

step-Advances_example :
    Advances planning_operation (step planning_operation (accepts delegate_plan)).0
step-Advances_example = step-Advances planning_operation (accepts delegate_plan)

one_change : Changes new_operation 1 planning_operation
unfolding step begin_planning
one_change = change begins (stay refl refl) refl (λ e. cc) refl

Changes-le-ten_example : 1 ≤ 10
Changes-le-ten_example = Changes-le-ten (lit "m-1") (lit "lead") made one_change

terminal_absorbs_example :
    (step (record new_operation { stage = completed }) begins).0
    ≡ record new_operation { stage = completed }
terminal_absorbs_example = terminal_absorbs (record new_operation { stage = completed }) begins tt

refused : (step planning_operation (synthesizes (lit "early"))).1 ≡ err invalid_outcome
unfolding step record_synthesis
refused = refl

step_error_unchanged_example :
    (step planning_operation (synthesizes (lit "early"))).0 ≡ planning_operation
step_error_unchanged_example =
    step_error_unchanged planning_operation (synthesizes (lit "early")) refused

worker_ids :
    delegation new_ids (lit "coder") 0 ≡ ok (delegation_ids_of new_ids (lit "coder") (to_string 0))
unfolding delegation valid_identifier
worker_ids = refl

derived : derive (lit "m-1") (lit "lead") ≡ ok new_ids
unfolding derive valid_identifier
derived = refl

derived_ids_valid_example :
    (valid_identifier new_ids.operation_id ≡ true)
    × (valid_identifier new_ids.final_message_id ≡ true)
    × (valid_identifier (delegation_ids_of new_ids (lit "coder") (to_string 0)).message_id ≡ true)
    × (valid_identifier (delegation_ids_of new_ids (lit "coder") (to_string 0)).dispatch_id ≡ true)
derived_ids_valid_example =
    derived_ids_valid (lit "m-1") (lit "lead") (lit "coder") 0 derived worker_ids

abbrev waiting : Str → ConductorDelegationState
waiting target = record {
  delegation = record { target_participant_id = target; task = lit "fix it" };
  ids = record { message_id = lit "m-2"; dispatch_id = lit "d-2" };
  outcome = none;
}

-- The operation that waits for the workers of a plan.
abbrev planned_run : List Call
planned_run = begins ∷ accepts delegate_plan ∷ []

next_action-Asks_example :
    ((next_action (run new_operation planned_run) ≡ none)
      ↔ IsTerminal (run new_operation planned_run).stage)
    × Asks (run new_operation planned_run) (next_action (run new_operation planned_run))
next_action-Asks_example =
    next_action-Asks (run new_operation planned_run)
      (run-try_new-IsConsistent (lit "m-1") (lit "lead") planned_run made)

abbrev two_workers : ConductorOperation
two_workers = record new_operation {
  stage = delegating;
  delegations = waiting (lit "coder") ∷ waiting (lit "tester") ∷ [];
}

first_waits : find (is_for (lit "coder")) two_workers.delegations ≡ some (waiting (lit "coder"))
unfolding find list_beq
first_waits = refl

second_waits : find (is_for (lit "tester")) two_workers.delegations ≡ some (waiting (lit "tester"))
unfolding find list_beq
second_waits = refl

abbrev no_reply : WorkerOutcome
no_reply = WorkerOutcome.failed (lit "no")

no_reply_valid : valid_worker_outcome no_reply ≡ true
unfolding valid_worker_outcome valid_bounded_text
no_reply_valid = refl

unknown_valid : valid_worker_outcome WorkerOutcome.unknown ≡ true
unfolding valid_worker_outcome
unknown_valid = refl

coder-ne-tester : lit "coder" ≢ lit "tester"
coder-ne-tester = λ e. cc

record_worker_outcome_comm_example :
    (record_worker_outcome
        (record_worker_outcome two_workers (lit "coder") no_reply).0
        (lit "tester")
        WorkerOutcome.unknown
      ≡ record_worker_outcome
          (record_worker_outcome two_workers (lit "tester") WorkerOutcome.unknown).0
          (lit "coder")
          no_reply)
    × ((record_worker_outcome
          (record_worker_outcome two_workers (lit "coder") no_reply).0
          (lit "tester")
          WorkerOutcome.unknown).1
        ≡ ok tt)
    × (find
          (is_for (lit "coder"))
          (record_worker_outcome
            (record_worker_outcome two_workers (lit "coder") no_reply).0
            (lit "tester")
            WorkerOutcome.unknown).0.delegations
        ≡ some (record (waiting (lit "coder")) { outcome = some no_reply }))
    × (find
          (is_for (lit "tester"))
          (record_worker_outcome
            (record_worker_outcome two_workers (lit "coder") no_reply).0
            (lit "tester")
            WorkerOutcome.unknown).0.delegations
        ≡ some (record (waiting (lit "tester")) { outcome = some WorkerOutcome.unknown }))
record_worker_outcome_comm_example =
    record_worker_outcome_comm two_workers (lit "coder") (lit "tester") no_reply
      WorkerOutcome.unknown coder-ne-tester refl first_waits refl second_waits refl no_reply_valid
      unknown_valid
