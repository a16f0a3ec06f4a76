-- ===== src/Command/Registry/Sessions.antt =====
-- The end of a room session in the registry of confirmations
-- (crates/moe-command-broker/src/confirmation.rs).
use m_i_o.Prelude.{
  ◌+◌, ◌≤◌, ◌≡◌, Bool, not, ◌&&◌, List, [], ◌∷◌, arith, filter, length-filter-le, PartialEq, ◌==◌,
  eq_iff, contains, list_eq, nat_eq,
}
use m_i_o.Text.{Str}
use m_i_o.Command.Maps.{lookup, lookup-retain, length-retain-le, keep_if}
use m_i_o.Command.Confirmation.{CommandConfirmationScope, scope_eq}
use m_i_o.Command.Registry.{CommandConfirmationRegistry, end_room_session, entries}
use m_i_o.Command.Registry.Invariant.{IsConsistent}

pub contains-filter :
    {A : Type 0} ⦃e : PartialEq A⦄ (p : A → Bool) (xs : List A) (a : A)
    → contains (filter p xs) a ≡ (contains xs a && p a)
unfolding contains filter
contains-filter p [] a = ground arith
contains-filter p (x ∷ xs) a = ground (arith, eq_iff x a, contains-filter p xs a)

entries_le :
    (s : CommandConfirmationRegistry) (session_id : Str)
    → entries (end_room_session s session_id).0 ≤ entries s
unfolding end_room_session
entries_le s session_id = omega (
  arith,
  length-retain-le (λ scope. not (scope.session_id == session_id)) s.pending,
  length-retain-le (λ ready. not (ready.scope.session_id == session_id)) s.ready,
  length-retain-le (λ other. not (other == session_id)) s.terminal,
  length-filter-le (λ scope. not (scope.session_id == session_id)) s.room_session_grants,
)

-- Ending a session drops from each map what belongs to the session and keeps the rest, keeps a
-- grant exactly if it is another session's, and returns the number of entries dropped.
pub end_room_session_lem :
    (s : CommandConfirmationRegistry) (session_id k : Str) (grant : CommandConfirmationScope)
    → IsConsistent s
    → (lookup k (end_room_session s session_id).0.pending
        ≡ keep_if (λ scope. not (scope.session_id == session_id)) (lookup k s.pending))
      × (lookup k (end_room_session s session_id).0.ready
          ≡ keep_if (λ ready. not (ready.scope.session_id == session_id)) (lookup k s.ready))
      × (lookup k (end_room_session s session_id).0.terminal
          ≡ keep_if (λ other. not (other == session_id)) (lookup k s.terminal))
      × (contains (end_room_session s session_id).0.room_session_grants grant
          ≡ (contains s.room_session_grants grant && not (grant.session_id == session_id)))
      × (entries (end_room_session s session_id).0 + (end_room_session s session_id).1 ≡ entries s)
unfolding end_room_session
end_room_session_lem s session_id k grant v = (
  lookup-retain _ k s.pending v.pending_map,
  lookup-retain _ k s.ready v.ready_map,
  lookup-retain _ k s.terminal v.terminal_map,
  contains-filter _ s.room_session_grants grant,
  omega (arith, entries_le s session_id),
)
