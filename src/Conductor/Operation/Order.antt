-- ===== src/Conductor/Operation/Order.antt =====
-- The order in which workers report (`record_worker_outcome` of crates/moe-core/src/conductor.rs).
use m_i_o.Prelude.{
  ◌≡◌, ◌≢◌, refl, sym, ◌∙◌, true, false, none, some, List, [], ◌∷◌, arith, find, modify, all, ok,
  eq_iff, list_eq, nat_eq,
}
use m_i_o.Text.{Str}
use m_i_o.Conductor.State.{
  delegating, WorkerOutcome, ConductorDelegationState, ConductorOperation, is_recorded,
}
use m_i_o.Conductor.Operation.{
  is_for, with_outcome, valid_worker_outcome, advance, record_worker_outcome,
}

modify-modify :
    (a b : Str) (o p : WorkerOutcome) (states : List ConductorDelegationState)
    → a ≢ b
    → modify (is_for a) (with_outcome o) (modify (is_for b) (with_outcome p) states)
      ≡ modify (is_for b) (with_outcome p) (modify (is_for a) (with_outcome o) states)
unfolding modify
modify-modify a b o p [] n = refl
modify-modify a b o p (x ∷ rest) n = ground (
  arith,
  eq_iff x.delegation.target_participant_id a,
  eq_iff x.delegation.target_participant_id b,
  modify-modify a b o p rest n,
)

find-modify_other :
    (a b : Str) (p : WorkerOutcome) (states : List ConductorDelegationState)
    → a ≢ b
    → find (is_for a) (modify (is_for b) (with_outcome p) states) ≡ find (is_for a) states
unfolding find modify
find-modify_other a b p [] n = refl
find-modify_other a b p (x ∷ rest) n = ground (
  arith,
  eq_iff x.delegation.target_participant_id a,
  eq_iff x.delegation.target_participant_id b,
  find-modify_other a b p rest n,
)

all-pending :
    (a : Str) (states : List ConductorDelegationState) {state : ConductorDelegationState}
    → find (is_for a) states ≡ some state
    → state.outcome ≡ none
    → all is_recorded states ≡ false
unfolding find all
all-pending a [] f e = cc
all-pending a (x ∷ rest) {state} f e = ground (arith, all-pending a rest {state = state})

record_pending :
    (s : ConductorOperation) (a : Str) (o : WorkerOutcome) {x : ConductorDelegationState}
    → s.stage ≡ delegating
    → find (is_for a) s.delegations ≡ some x
    → x.outcome ≡ none
    → valid_worker_outcome o ≡ true
    → record_worker_outcome s a o ≡ (
      advance (record s { delegations = modify (is_for a) (with_outcome o) s.delegations }),
      ok tt,
    )
unfolding record_worker_outcome
record_pending s a o d f e v = ground (arith, f, e, d, v)

find-modify :
    (a : Str) (o : WorkerOutcome) (states : List ConductorDelegationState)
    {x : ConductorDelegationState}
    → find (is_for a) states ≡ some x
    → find (is_for a) (modify (is_for a) (with_outcome o) states) ≡ some (with_outcome o x)
unfolding find modify
find-modify a o [] f = cc
find-modify a o (y ∷ rest) {x} f = ground (arith, find-modify a o rest {x = x})

delegations-advance : (s : ConductorOperation) → (advance s).delegations ≡ s.delegations
unfolding advance
delegations-advance s = ground arith

-- The first of two reports leaves the stage as it was, and the worker's outcome is recorded.
record_while_pending :
    (s : ConductorOperation) (a b : Str) (o : WorkerOutcome) {x y : ConductorDelegationState}
    → a ≢ b
    → s.stage ≡ delegating
    → find (is_for a) s.delegations ≡ some x
    → x.outcome ≡ none
    → find (is_for b) s.delegations ≡ some y
    → y.outcome ≡ none
    → valid_worker_outcome o ≡ true
    → record_worker_outcome s a o
      ≡ (record s { delegations = modify (is_for a) (with_outcome o) s.delegations }, ok tt)
unfolding record_worker_outcome advance
record_while_pending s a b o {x} {y} n d f e g h v =
    let other = find-modify_other b a o s.delegations (λ q. n (sym q)) in
    let waits =
      all-pending b (modify (is_for a) (with_outcome o) s.delegations) {state = y} (other ∙ g) h in
    ground (arith, f, e, d, v, waits)

-- Two workers whose outcomes are both missing may report valid outcomes in either order: the
-- operation that results is the same, and so is the success of the later report. In it the
-- delegation of each worker has the outcome that the worker reported, and is otherwise as before.
pub record_worker_outcome_comm :
    (s : ConductorOperation) (a b : Str) (o p : WorkerOutcome) {x y : ConductorDelegationState}
    → a ≢ b
    → s.stage ≡ delegating
    → find (is_for a) s.delegations ≡ some x
    → x.outcome ≡ none
    → find (is_for b) s.delegations ≡ some y
    → y.outcome ≡ none
    → valid_worker_outcome o ≡ true
    → valid_worker_outcome p ≡ true
    → let both = record_worker_outcome (record_worker_outcome s a o).0 b p in
      (both ≡ record_worker_outcome (record_worker_outcome s b p).0 a o)
      × (both.1 ≡ ok tt)
      × (find (is_for a) both.0.delegations ≡ some (record x { outcome = some o }))
      × (find (is_for b) both.0.delegations ≡ some (record y { outcome = some p }))
record_worker_outcome_comm s a b o p {x} {y} n d f e g h v w =
    let m : b ≢ a = λ q. n (sym q) in
    let t = record s { delegations = modify (is_for a) (with_outcome o) s.delegations } in
    let u = record s { delegations = modify (is_for b) (with_outcome p) s.delegations } in
    let first = record_while_pending s a b o {x = x} {y = y} n d f e g h v in
    let waits = find-modify_other b a o s.delegations m ∙ g in
    let second = record_pending t b p {x = y} d waits h w in
    let stored =
      delegations-advance
        (record t { delegations = modify (is_for b) (with_outcome p) t.delegations }) in
    (
      rw
          (
            first,
            second,
            record_while_pending s b a p {x = y} {y = x} m d g h f e w,
            record_pending u a o {x = x} d (find-modify_other a b p s.delegations n ∙ f) e v,
            modify-modify a b o p s.delegations n,
          )
          refl,
      rw (first, second) refl,
      rw (first, second, stored)
          (find-modify_other a b p t.delegations n ∙ find-modify a o s.delegations {x = x} f),
      rw (first, second, stored) (find-modify b p t.delegations {x = y} waits),
    )
