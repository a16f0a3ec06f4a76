-- ===== src/Command/Samples.antt =====
-- Paths, and a small run of the registry of confirmations (crates/moe-command-broker/src), at
-- which the theorems are applied.
use m_i_o.Prelude.{
  ◌+◌, ◌<◌, ◌≡◌, refl, length, all, eq_iff, list_beq, true, false, not, ◌&&◌, List, [], ◌∷◌, arith,
  some, any, contains, ◌==◌, ok, is_ok, list_eq, nat_eq,
}
use m_i_o.Text.{Str, lit}
use m_i_o.Command.Paths.{workspace_relative_directory}
use m_i_o.Command.Paths.Windows.{windows_valid_path_segment}
use m_i_o.Command.Policy.{git_push, allows_room_session}
use m_i_o.Command.Maps.{lookup, insert, remove, str_ltb, keep_if}
use m_i_o.Command.Confirmation.{
  maximum_terminal_confirmations, CommandConfirmationScope, scope_eq, CommandConfirmationRequest,
  CommandAuthorization, allow_room_session, room_session, ReadyAuthorization,
}
use m_i_o.Command.Registry.{
  CommandConfirmationRegistry, default, register, resolve, finish_terminal, missing_request_error,
  consume_authorization, end_room_session, entries, add_grant, Call, registers, resolves, consumes,
  ends, after_call, after_calls,
}
use m_i_o.Command.Registry.Invariant.{IsConsistent, lifetime_allowed}
use m_i_o.Command.Registry.Invariant.Calls.{after_calls-default-IsConsistent}
use m_i_o.Command.Registry.Consumption.{consume_authorization_lem, consume_once, ends_session}
use m_i_o.Command.Registry.Sessions.{end_room_session_lem}
use m_i_o.Command.Registry.Provenance.{Backed}
use m_i_o.Command.Registry.Provenance.Calls.{consume_authorization-Backed}

abbrev push_scope : CommandConfirmationScope
push_scope = record {
  room_id = lit "room-1";
  session_id = lit "s-1";
  workspace_key = lit "w";
  command = git_push;
  target_label = lit "origin";
}

abbrev request_of : Str → CommandConfirmationRequest
request_of id = record { request_id = id; scope = push_scope }

-- The owner allows the session at the first request, and the second request is granted by it.
abbrev two_requests : List Call
two_requests =
    registers (request_of (lit "r1"))
    ∷ resolves (lit "r1") allow_room_session
    ∷ consumes (lit "r1") push_scope
    ∷ registers (request_of (lit "r2"))
    ∷ []

abbrev session_authorization : CommandAuthorization
session_authorization = record {
  request_id = lit "r2";
  scope = push_scope;
  lifetime = room_session;
}

abbrev session_ready : ReadyAuthorization
session_ready = record { scope = push_scope; lifetime = room_session }

consumed :
    (consume_authorization (after_calls default two_requests) (lit "r2") push_scope).1
    ≡ ok session_authorization
unfolding after_calls after_call register resolve finish_terminal missing_request_error
    consume_authorization lookup insert remove str_ltb add_grant contains allows_room_session
    list_beq
consumed = refl

granted : lookup (lit "r2") (after_calls default two_requests).ready ≡ some session_ready
unfolding after_calls after_call register resolve finish_terminal missing_request_error
    consume_authorization lookup insert remove str_ltb add_grant contains allows_room_session
    list_beq
granted = refl

after_calls-default-IsConsistent_example : IsConsistent (after_calls default two_requests)
after_calls-default-IsConsistent_example = after_calls-default-IsConsistent two_requests

consume_authorization-Backed_example :
    (lit "r2" ≡ lit "r2") × (push_scope ≡ push_scope) × Backed two_requests (lit "r2") session_ready
consume_authorization-Backed_example =
    consume_authorization-Backed two_requests (lit "r2") push_scope consumed

consume_authorization_lem_example :
    (lit "r2" ≡ lit "r2")
    × (push_scope ≡ push_scope)
    × (lookup (lit "r2") (after_calls default two_requests).ready ≡ some session_ready)
    × (lifetime_allowed session_ready ≡ true)
consume_authorization_lem_example =
    consume_authorization_lem (after_calls default two_requests) (lit "r2") push_scope
      (after_calls-default-IsConsistent two_requests) consumed

few_over : length (after_calls default two_requests).terminal < maximum_terminal_confirmations
unfolding after_calls after_call register resolve finish_terminal missing_request_error
    consume_authorization lookup insert remove str_ltb add_grant contains allows_room_session
    list_beq
few_over = omega arith

other_session : any (ends_session (lit "s-1")) (ends (lit "s-2") ∷ []) ≡ false
unfolding any list_beq
other_session = refl

consume_once_example :
    is_ok
      (consume_authorization
        (after_calls
          (consume_authorization (after_calls default two_requests) (lit "r2") push_scope).0
          (ends (lit "s-2") ∷ []))
        (lit "r2")
        push_scope).1
    ≡ false
consume_once_example =
    consume_once (after_calls default two_requests) (lit "r2") session_ready push_scope push_scope
      (ends (lit "s-2") ∷ []) (after_calls-default-IsConsistent two_requests) granted few_over
      other_session

abbrev last_state : CommandConfirmationRegistry
last_state = record {
  pending = (lit "r3", push_scope) ∷ [];
  ready = (lit "r2", session_ready) ∷ [];
  terminal = (lit "r1", lit "s-2") ∷ [];
  room_session_grants = push_scope ∷ [];
}

last_state-IsConsistent : IsConsistent last_state
unfolding lookup all allows_room_session list_beq
last_state-IsConsistent = record {
  pending_map = (refl, tt);
  ready_map = (refl, tt);
  terminal_map = (refl, tt);
  few_open = omega arith;
  few_terminal = omega arith;
  apart = λ k. ground (arith, eq_iff (lit "r1") k, eq_iff (lit "r2") k, eq_iff (lit "r3") k);
  ready_allowed = λ k. ground (arith, eq_iff (lit "r2") k);
  grants_allowed = refl;
}

end_room_session_lem_example :
    (lookup (lit "r3") (end_room_session last_state (lit "s-1")).0.pending
      ≡ keep_if
          (λ scope. not (scope.session_id == lit "s-1"))
          (lookup (lit "r3") last_state.pending))
    × (lookup (lit "r3") (end_room_session last_state (lit "s-1")).0.ready
        ≡ keep_if
            (λ ready. not (ready.scope.session_id == lit "s-1"))
            (lookup (lit "r3") last_state.ready))
    × (lookup (lit "r3") (end_room_session last_state (lit "s-1")).0.terminal
        ≡ keep_if (λ other. not (other == lit "s-1")) (lookup (lit "r3") last_state.terminal))
    × (contains (end_room_session last_state (lit "s-1")).0.room_session_grants push_scope ≡ (
        contains last_state.room_session_grants push_scope
        && not (push_scope.session_id == lit "s-1")))
    × (entries (end_room_session last_state (lit "s-1")).0
          + (end_room_session last_state (lit "s-1")).1
        ≡ entries last_state)
end_room_session_lem_example =
    end_room_session_lem last_state (lit "s-1") (lit "r3") push_scope last_state-IsConsistent

-- Outside Windows a drive is an ordinary part of a name.
drive_accepted : workspace_relative_directory (lit "C:\\outside") ≡ ok (lit "C:\\outside")
unfolding workspace_relative_directory m_i_o.Command.Paths.path_beq list_beq
    m_i_o.Command.Paths.relative_from contains
drive_accepted = refl

drive_refused : windows_valid_path_segment (lit "C:\\outside") ≡ false
unfolding windows_valid_path_segment m_i_o.Text.is_utf8 m_i_o.Prelude.option_beq m_i_o.Prelude.last
    contains list_beq
drive_refused = refl

device_refused : windows_valid_path_segment (lit "Com1.txt") ≡ false
unfolding windows_valid_path_segment m_i_o.Text.is_utf8 m_i_o.Prelude.option_beq m_i_o.Prelude.last
    contains list_beq
device_refused = refl

name_accepted : windows_valid_path_segment (lit "common.txt") ≡ true
unfolding windows_valid_path_segment m_i_o.Text.is_utf8 m_i_o.Prelude.option_beq m_i_o.Prelude.last
    contains list_beq
name_accepted = refl
