-- ===== src/Conductor/Plan/Targets.antt =====
-- Which delegations `validate_delegations` of crates/moe-core/src/conductor.rs lets pass.
use m_i_o.Prelude.{
  ◌≡◌, ◌≢◌, ◌↔◌, true, false, some, List, [], ◌∷◌, arith, find, contains, ok, Option-cases, eq_iff,
  list_eq, nat_eq,
}
use m_i_o.Text.{Str}
use m_i_o.Identifier.{valid_bounded_text}
use m_i_o.Room.Types.{ai, kind_eq}
use m_i_o.Conductor.Plan.{
  ConductorParticipant, ConductorPlanContext, ConductorDelegation, maximum_delegation_task_bytes,
  has_id, validate_target, validate_delegations_from, validate_delegations,
}

-- A delegation that may be handed out: its task is neither blank nor too long, and its target is
-- another AI of the room that takes delegations.
pub record IsAllowed (context : ConductorPlanContext) (d : ConductorDelegation) : Type 0 where
  pub task_fits : valid_bounded_text d.task maximum_delegation_task_bytes ≡ true
  pub not_owner : d.target_participant_id ≢ context.owner_id
  pub not_conductor : d.target_participant_id ≢ context.conductor_id
  pub member :
      (p : ConductorParticipant) × (find (has_id d.target_participant_id) context.participants
        ≡ some p)
      × (p.kind ≡ ai)
      × (p.can_receive_delegation ≡ true)

-- Each delegation is allowed, and no target stands in the list twice or among `seen`.
abbrev pub AreAllowed : ConductorPlanContext → List Str → List ConductorDelegation → Type 0
AreAllowed context seen [] = Unit
AreAllowed context seen (d ∷ rest) =
    IsAllowed context d
    × (contains seen d.target_participant_id ≡ false)
    × AreAllowed context (d.target_participant_id ∷ seen) rest

validate_target_iff :
    (context : ConductorPlanContext) (d : ConductorDelegation)
    → (validate_target context d ≡ ok tt) ↔ (
        (p : ConductorParticipant) × (find (has_id d.target_participant_id) context.participants
          ≡ some p)
        × (p.kind ≡ ai)
        × (p.can_receive_delegation ≡ true))
unfolding validate_target
validate_target_iff context d =
    ground (arith, Option-cases (find (has_id d.target_participant_id) context.participants))

validate_delegations_from_iff :
    (context : ConductorPlanContext) (seen : List Str) (ds : List ConductorDelegation)
    → (validate_delegations_from seen ds context ≡ ok tt) ↔ AreAllowed context seen ds
unfolding validate_delegations_from
validate_delegations_from_iff context seen [] = ground arith
validate_delegations_from_iff context seen (d ∷ rest) = ground (
  arith,
  validate_target_iff context d,
  eq_iff d.target_participant_id context.owner_id,
  eq_iff d.target_participant_id context.conductor_id,
  validate_delegations_from_iff context (d.target_participant_id ∷ seen) rest,
)

-- The validation passes exactly the lists of allowed delegations with distinct targets.
pub validate_delegations_iff :
    (context : ConductorPlanContext) (ds : List ConductorDelegation)
    → (validate_delegations ds context ≡ ok tt) ↔ AreAllowed context [] ds
unfolding validate_delegations
validate_delegations_iff context ds = validate_delegations_from_iff context [] ds
