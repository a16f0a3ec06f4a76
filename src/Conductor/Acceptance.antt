-- ===== src/Conductor/Acceptance.antt =====
-- How the parser and the operation of crates/moe-core/src/conductor.rs fit together.
use m_i_o.Prelude.{
  ℕ, suc, ◌+◌, ◌≤◌, ◌≡◌, refl, true, false, Option, none, some, List, [], ◌∷◌, arith, find, ok,
  ◌>>=◌, eq_iff, list_eq, nat_eq, length, Option-cases, inl, inr,
}
use m_i_o.Text.{Str}
use m_i_o.Identifier.{valid_identifier, valid_bounded_text}
use m_i_o.Conductor.Plan.{
  ConductorParticipant, ConductorPlanContext, ConductorPlanMode, answer, delegate,
  ConductorDelegation, ConductorPlanV1, RawConductorPlanV1, Value, null, string, other,
  maximum_direct_answer_bytes, maximum_workers, has_id, bad_participants, validate_context, plan_of,
  parse_conductor_plan_v1, direct_answer_of,
}
use m_i_o.Conductor.Plan.Targets.{AreAllowed, validate_delegations_iff}
use m_i_o.Conductor.Ids.{ConductorOperationIds, delegation, delegation_ids_of, to_string}
use m_i_o.Conductor.State.{ConductorOperation, ConductorDelegationState, planning}
use m_i_o.Conductor.Operation.{accept_plan, accept_answer, accept_delegate, delegation_states}

abbrev pub HasAnswer : Option Str → Type 0
HasAnswer none = ⊥
HasAnswer (some text) = valid_bounded_text text maximum_direct_answer_bytes ≡ true

abbrev pub FitsMode : ConductorPlanContext → ConductorPlanV1 → ConductorPlanMode → Type 0
FitsMode context plan answer = (plan.delegations ≡ []) × HasAnswer plan.direct_answer
FitsMode context plan delegate =
    (plan.direct_answer ≡ none)
    × (1 ≤ length plan.delegations)
    × (length plan.delegations ≤ maximum_workers)
    × AreAllowed context [] plan.delegations

-- What a parsed plan promises: an answer that is neither blank nor too long and no delegation, or
-- one to three allowed delegations with distinct targets and no answer.
pub record IsSound (context : ConductorPlanContext) (plan : ConductorPlanV1) : Type 0 where
  pub version_one : plan.version ≡ 1
  pub fits_mode : FitsMode context plan plan.mode

plan_of-IsSound :
    (context : ConductorPlanContext) (raw : RawConductorPlanV1) (a : Option Str)
    {plan : ConductorPlanV1}
    → plan_of context raw a ≡ ok plan
    → IsSound context plan
unfolding plan_of
plan_of-IsSound context raw none h =
    ground (arith, validate_delegations_iff context raw.delegations)
plan_of-IsSound context raw (some text) h =
    ground (arith, validate_delegations_iff context raw.delegations)

decoded-IsSound :
    (context : ConductorPlanContext) (raw : RawConductorPlanV1) (v : Value) {plan : ConductorPlanV1}
    → (direct_answer_of v >>= λ a. plan_of context raw a) ≡ ok plan
    → IsSound context plan
unfolding direct_answer_of
decoded-IsSound context raw null h = plan_of-IsSound context raw none h
decoded-IsSound context raw (string text) h = plan_of-IsSound context raw (some text) h
decoded-IsSound context raw other h = cc

module _ (from_slice : List ℕ → Option RawConductorPlanV1) where
  -- Whatever bytes a conductor sends, and however JSON is decoded, a plan that is let through is
  -- sound for the room.
  pub parse_conductor_plan_v1-IsSound :
      (input : List ℕ) (context : ConductorPlanContext) {plan : ConductorPlanV1}
      → parse_conductor_plan_v1 from_slice input context ≡ ok plan
      → IsSound context plan
  unfolding parse_conductor_plan_v1
  parse_conductor_plan_v1-IsSound input context {plan} h = elim (Option-cases (from_slice input)) [
    | inl e ↦ ground arith
    | inr (raw, e) ↦ ground (arith, decoded-IsSound context raw raw.direct_answer {plan = plan})
  ]

find-valid_identifier :
    (target : Str) (seen : List Str) (ps : List ConductorParticipant) {p : ConductorParticipant}
    → bad_participants seen ps ≡ false
    → find (has_id target) ps ≡ some p
    → valid_identifier target ≡ true
unfolding bad_participants find
find-valid_identifier target seen [] b f = cc
find-valid_identifier target seen (x ∷ rest) {p} b f =
    ground (arith, eq_iff x.id target, find-valid_identifier target (x.id ∷ seen) rest {p = p})

validate_context-participants :
    (context : ConductorPlanContext)
    → validate_context context ≡ ok tt
    → bad_participants [] context.participants ≡ false
unfolding validate_context
validate_context-participants context h = ground arith

-- Allowed delegations get their states.
delegation_states-ok :
    (context : ConductorPlanContext) (ids : ConductorOperationIds) (seen : List Str) (n : ℕ)
    (ds : List ConductorDelegation)
    → bad_participants [] context.participants ≡ false
    → AreAllowed context seen ds
    → n + length ds ≤ maximum_workers
    → (states : List ConductorDelegationState) × (delegation_states ids seen n ds ≡ ok states)
unfolding delegation_states delegation
delegation_states-ok context ids seen n [] b a l = ([], refl)
delegation_states-ok context ids seen n (d ∷ ds) b a l =
    let (later, built) =
      delegation_states-ok context ids (d.target_participant_id ∷ seen) (suc n) ds b a.2
        (omega arith) in
    let (p, found, _, _) = a.0.member in
    let named = find-valid_identifier d.target_participant_id [] context.participants b found in
    (
      record {
        delegation = d;
        ids = delegation_ids_of ids d.target_participant_id (to_string n);
        outcome = none;
      }
          ∷ later,
      ground arith,
    )

accept_answer-ok :
    (s : ConductorOperation) (plan : ConductorPlanV1)
    → (plan.delegations ≡ []) × HasAnswer plan.direct_answer
    → (accept_answer s plan).1 ≡ ok tt
unfolding accept_answer
accept_answer-ok s plan h = ground arith

accept_delegate-ok :
    (context : ConductorPlanContext) (s : ConductorOperation) (plan : ConductorPlanV1)
    → bad_participants [] context.participants ≡ false
    → FitsMode context plan delegate
    → (accept_delegate s plan).1 ≡ ok tt
unfolding accept_delegate
accept_delegate-ok context s plan b (no_answer, one, three, allowed) =
    let (states, built) =
      delegation_states-ok context s.ids [] 0 plan.delegations b allowed (omega arith) in
    ground (arith, built)

-- A sound plan for a valid context is accepted by every operation that is planning and has none.
pub IsSound-accept_plan :
    (context : ConductorPlanContext) (s : ConductorOperation) (plan : ConductorPlanV1)
    → validate_context context ≡ ok tt
    → IsSound context plan
    → s.stage ≡ planning
    → s.plan ≡ none
    → (accept_plan s plan).1 ≡ ok tt
unfolding accept_plan
IsSound-accept_plan context s plan valid sound p n = ground (
  arith,
  accept_answer-ok s plan,
  accept_delegate-ok context s plan (validate_context-participants context valid),
)

module _ (from_slice : List ℕ → Option RawConductorPlanV1) where
  parse-validate_context :
      (input : List ℕ) (context : ConductorPlanContext) {plan : ConductorPlanV1}
      → parse_conductor_plan_v1 from_slice input context ≡ ok plan
      → validate_context context ≡ ok tt
  unfolding parse_conductor_plan_v1
  parse-validate_context input context h = ground arith

  -- A plan that the parser lets through is never refused by the operation that waits for it: in
  -- the planning stage with no plan yet, `accept_plan` succeeds at once.
  pub parse-accept_plan :
      (input : List ℕ) (context : ConductorPlanContext) (s : ConductorOperation)
      {plan : ConductorPlanV1}
      → parse_conductor_plan_v1 from_slice input context ≡ ok plan
      → s.stage ≡ planning
      → s.plan ≡ none
      → (accept_plan s plan).1 ≡ ok tt
  parse-accept_plan input context s {plan} h p n =
      IsSound-accept_plan context s plan (parse-validate_context input context h)
        (parse_conductor_plan_v1-IsSound from_slice input context h) p n
