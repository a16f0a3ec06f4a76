-- ===== src/Command/Registry/Invariant/Calls.antt =====
-- The calls that keep a registry of confirmations consistent
-- (crates/moe-command-broker/src/confirmation.rs).
use m_i_o.Prelude.{
  suc, ◌+◌, ◌≤◌, refl, not, List, [], ◌∷◌, arith, length, all, ok, ◌==◌, eq_refl, list_eq, nat_eq,
  Bool-cases, inl, inr,
}
use m_i_o.Text.{Str}
use m_i_o.Command.Policy.{allows_room_session}
use m_i_o.Command.Maps.{
  lookup, remove, lookup-remove, lookup-retain, length-remove, length-retain-le, IsMap-retain,
  lookup-retain-none,
}
use m_i_o.Command.Confirmation.{
  maximum_pending_confirmations, CommandConfirmationScope, scope_eq, CommandConfirmationRequest,
  ConfirmationDecision, allow_once, allow_room_session, deny, once, room_session, denied,
  owner_denied, session_lifetime_not_allowed, ConfirmationDenial,
}
use m_i_o.Command.Registry.{
  CommandConfirmationRegistry, default, add_grant, register, resolve, consume_authorization,
  end_room_session, Call, decide, registers, resolves, consumes, ends, after_call, after_calls,
}
use m_i_o.Command.Registry.Cases.{finish_then_state, resolve_cases, consume_cases}
use m_i_o.Command.Registry.Invariant.{
  IsConsistent, IsFresh, put_pending, put_ready, put_terminal, insert_terminal, take_pending,
  take_ready, put_grant, grants-contains, grants-filter,
}

register-IsConsistent :
    (s : CommandConfirmationRegistry) (request : CommandConfirmationRequest)
    → IsConsistent s
    → IsConsistent (register s request).0
unfolding register
register-IsConsistent s request v = ground (
  arith,
  put_pending s request.request_id request.scope,
  put_ready s request.request_id (record { scope = request.scope; lifetime = room_session }),
  grants-contains s.room_session_grants request.scope,
  v.grants_allowed,
)

decide-IsConsistent :
    (s : CommandConfirmationRegistry) (k : Str) (scope : CommandConfirmationScope)
    (decision : ConfirmationDecision)
    → IsConsistent s
    → IsFresh s k
    → suc (length s.pending + length s.ready) ≤ maximum_pending_confirmations
    → IsConsistent (decide s k scope decision).0
decide-IsConsistent s k scope allow_once v f room =
    put_ready s k (record { scope = scope; lifetime = once }) v f room refl
decide-IsConsistent s k scope allow_room_session v f room =
    elim (Bool-cases (allows_room_session scope.command)) [
      | inl allowed ↦ rw allowed (
          put_ready (record s { room_session_grants = add_grant scope s.room_session_grants }) k
            (record { scope = scope; lifetime = room_session }) (put_grant s scope v allowed) f room
            allowed)
      | inr refused ↦
          rw
            (
              refused,
              finish_then_state s k scope.session_id (ok (denied session_lifetime_not_allowed)),
            )
            (put_terminal s k scope.session_id v f)
    ]
decide-IsConsistent s k scope deny v f room =
    rw (finish_then_state s k scope.session_id (ok (denied owner_denied)))
      (put_terminal s k scope.session_id v f)
decide-IsConsistent s k scope ConfirmationDecision.dismissed v f room =
    rw (finish_then_state s k scope.session_id (ok (denied ConfirmationDenial.dismissed)))
      (put_terminal s k scope.session_id v f)
decide-IsConsistent s k scope ConfirmationDecision.timed_out v f room =
    rw (finish_then_state s k scope.session_id (ok (denied ConfirmationDenial.timed_out)))
      (put_terminal s k scope.session_id v f)

resolve-IsConsistent :
    (s : CommandConfirmationRegistry) (request_id : Str) (decision : ConfirmationDecision)
    → IsConsistent s
    → IsConsistent (resolve s request_id decision).0
unfolding resolve
resolve-IsConsistent s request_id decision v = elim (resolve_cases s request_id decision) [
  | inl (same, e) ↦ rw same v
  | inr (scope, (p, r, t, few, done)) ↦ rw done (
      decide-IsConsistent (record s { pending = remove request_id s.pending }) request_id scope
        decision (take_pending s request_id v)
        (ground (arith, lookup-remove request_id request_id s.pending, eq_refl request_id), r, t)
        (ground (arith, v.few_open, length-remove request_id s.pending p)))
]

pub consume-IsConsistent :
    (s : CommandConfirmationRegistry) (request_id : Str) (scope : CommandConfirmationScope)
    → IsConsistent s
    → IsConsistent (consume_authorization s request_id scope).0
unfolding consume_authorization
consume-IsConsistent s request_id scope v = elim (consume_cases s request_id scope) [
  | inl (same, e) ↦ rw same v
  | inr (ready, (r, few, done)) ↦ rw done (
      insert_terminal (record s { ready = remove request_id s.ready }) request_id
        ready.scope.session_id (take_ready s request_id v)
        (
          ground (arith, r, v.apart request_id),
          ground (arith, lookup-remove request_id request_id s.ready, eq_refl request_id),
          ground (arith, r, v.apart request_id),
        )
        few)
]

end-IsConsistent :
    (s : CommandConfirmationRegistry) (session_id : Str)
    → IsConsistent s
    → IsConsistent (end_room_session s session_id).0
unfolding end_room_session
end-IsConsistent s session_id v = record {
  pending_map = IsMap-retain _ s.pending v.pending_map;
  ready_map = IsMap-retain _ s.ready v.ready_map;
  terminal_map = IsMap-retain _ s.terminal v.terminal_map;
  few_open = omega (
    arith,
    v.few_open,
    length-retain-le (λ scope. not (scope.session_id == session_id)) s.pending,
    length-retain-le (λ a. not (a.scope.session_id == session_id)) s.ready,
  );
  few_terminal =
      omega
        (arith, v.few_terminal, length-retain-le (λ other. not (other == session_id)) s.terminal);
  apart = λ k. ground (
    arith,
    v.apart k,
    lookup-retain-none (λ scope. not (scope.session_id == session_id)) k s.pending,
    lookup-retain-none (λ a. not (a.scope.session_id == session_id)) k s.ready,
    lookup-retain-none (λ other. not (other == session_id)) k s.terminal,
  );
  ready_allowed = λ k. ground (
    arith,
    v.ready_allowed k,
    v.ready_map,
    lookup-retain (λ a. not (a.scope.session_id == session_id)) k s.ready,
  );
  grants_allowed = grants-filter _ s.room_session_grants v.grants_allowed;
}

pub call-IsConsistent :
    (s : CommandConfirmationRegistry) (c : Call) → IsConsistent s → IsConsistent (after_call s c)
unfolding after_call
call-IsConsistent s (registers request) v = register-IsConsistent s request v
call-IsConsistent s (resolves request_id decision) v = resolve-IsConsistent s request_id decision v
call-IsConsistent s (consumes request_id scope) v = consume-IsConsistent s request_id scope v
call-IsConsistent s (ends session_id) v = end-IsConsistent s session_id v

pub calls-IsConsistent :
    (s : CommandConfirmationRegistry) (cs : List Call)
    → IsConsistent s
    → IsConsistent (after_calls s cs)
unfolding after_calls
calls-IsConsistent s [] v = v
calls-IsConsistent s (c ∷ cs) v = calls-IsConsistent (after_call s c) cs (call-IsConsistent s c v)

-- After any sequence of calls on an empty registry each request is in one of the three maps at
-- most, at most 32 requests are pending or ready and at most 1,024 are remembered as over, and both
-- the grants and the ready authorizations for a room session are for commands that allow one.
pub after_calls-default-IsConsistent : (cs : List Call) → IsConsistent (after_calls default cs)
unfolding all lookup
after_calls-default-IsConsistent cs = calls-IsConsistent default cs (record {
  pending_map = tt;
  ready_map = tt;
  terminal_map = tt;
  few_open = ground arith;
  few_terminal = ground arith;
  apart = λ k. (refl, refl, refl);
  ready_allowed = λ k. tt;
  grants_allowed = refl;
})
