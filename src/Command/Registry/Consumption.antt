-- ===== src/Command/Registry/Consumption.antt =====
-- How often, and for what, an authorization is used
-- (crates/moe-command-broker/src/confirmation.rs).
use m_i_o.Prelude.{
  ap, ◌<◌, any, ◌≡◌, refl, Bool, true, false, not, none, some, List, [], ◌∷◌, arith, length, Result,
  ok, ◌==◌, eq_iff, eq_refl, eq_refl, list_eq, nat_eq, is_ok, Bool-cases, inl, inr,
}
use m_i_o.Text.{Str}
use m_i_o.Command.Policy.{allows_room_session}
use m_i_o.Command.Maps.{lookup, insert, lookup-insert, lookup-retain}
use m_i_o.Command.Confirmation.{
  CommandAuthorization, maximum_terminal_confirmations, CommandConfirmationScope, scope_eq,
  ConfirmationDecision, allow_once, allow_room_session, deny, ReadyAuthorization,
  ConfirmationContractError,
}
use m_i_o.Command.Registry.{
  CommandConfirmationRegistry, register, finish_terminal, resolve, consume_authorization,
  end_room_session, Call, decide, finish_then, registers, resolves, consumes, ends, after_call,
  after_calls,
}
use m_i_o.Command.Registry.Invariant.Calls.{
  call-IsConsistent, calls-IsConsistent, consume-IsConsistent,
}
use m_i_o.Command.Registry.Cases.{resolve_cases, consume_cases}
use m_i_o.Command.Registry.Invariant.{lifetime_allowed, IsConsistent}

-- A consumed authorization is for the expected request and scope, which were ready, and for a
-- room session only if the command allows one.
pub consume_authorization_lem :
    (s : CommandConfirmationRegistry) (request_id : Str) (scope : CommandConfirmationScope)
    {a : CommandAuthorization}
    → IsConsistent s
    → (consume_authorization s request_id scope).1 ≡ ok a
    → (a.request_id ≡ request_id)
      × (a.scope ≡ scope)
      × (lookup request_id s.ready ≡ some (record { scope = a.scope; lifetime = a.lifetime }))
      × (lifetime_allowed (record { scope = a.scope; lifetime = a.lifetime }) ≡ true)
consume_authorization_lem s request_id scope {a} v h = elim (consume_cases s request_id scope) [
  | inl (same, e) ↦ ground (arith, e, h)
  | inr (ready, (r, few, done)) ↦
      ground (arith, ap (λ q. q.1) done, h, r, v.ready_allowed request_id, eq_iff ready.scope scope)
]

-- Whether a call ends a session.
abbrev pub ends_session : Str → Call → Bool
ends_session session_id (ends other) = other == session_id
ends_session session_id (registers request) = false
ends_session session_id (resolves request_id decision) = false
ends_session session_id (consumes request_id scope) = false

over-finish_then :
    {A : Type 0} (s : CommandConfirmationRegistry) (k session_id other other_session : Str)
    (result : Result ConfirmationContractError A)
    → lookup k s.terminal ≡ some session_id
    → lookup other s.terminal ≡ none
    → lookup k (finish_then s other other_session result).0.terminal ≡ some session_id
unfolding finish_terminal
over-finish_then s k session_id other other_session result o f =
    ground (arith, lookup-insert other k other_session s.terminal, eq_iff other k)

over-decide :
    (s : CommandConfirmationRegistry) (k session_id other : Str) (scope : CommandConfirmationScope)
    (decision : ConfirmationDecision)
    → lookup k s.terminal ≡ some session_id
    → lookup other s.terminal ≡ none
    → lookup k (decide s other scope decision).0.terminal ≡ some session_id
over-decide s k session_id other scope allow_once o f = o
over-decide s k session_id other scope allow_room_session o f =
    elim (Bool-cases (allows_room_session scope.command)) [
      | inl allowed ↦ rw allowed o
      | inr refused ↦ rw refused (over-finish_then s k session_id other scope.session_id _ o f)
    ]
over-decide s k session_id other scope deny o f =
    over-finish_then s k session_id other scope.session_id _ o f
over-decide s k session_id other scope ConfirmationDecision.dismissed o f =
    over-finish_then s k session_id other scope.session_id _ o f
over-decide s k session_id other scope ConfirmationDecision.timed_out o f =
    over-finish_then s k session_id other scope.session_id _ o f

over-resolve :
    (s : CommandConfirmationRegistry) (k session_id other : Str) (decision : ConfirmationDecision)
    → lookup k s.terminal ≡ some session_id
    → lookup k (resolve s other decision).0.terminal ≡ some session_id
over-resolve s k session_id other decision o = elim (resolve_cases s other decision) [
  | inl (same, e) ↦ rw same o
  | inr (scope, (p, r, t, few, done)) ↦
      rw done (over-decide _ k session_id other scope decision o t)
]

over-consume :
    (s : CommandConfirmationRegistry) (k session_id other : Str) (scope : CommandConfirmationScope)
    → IsConsistent s
    → lookup k s.terminal ≡ some session_id
    → lookup k (consume_authorization s other scope).0.terminal ≡ some session_id
over-consume s k session_id other scope v o = elim (consume_cases s other scope) [
  | inl (same, e) ↦ rw same o
  | inr (ready, (r, few, done)) ↦ rw done (
      ground (
        arith,
        o,
        r,
        v.apart other,
        lookup-insert other k ready.scope.session_id s.terminal,
        eq_iff other k,
      ))
]

over-after_call :
    (s : CommandConfirmationRegistry) (c : Call) (k session_id : Str)
    → IsConsistent s
    → lookup k s.terminal ≡ some session_id
    → ends_session session_id c ≡ false
    → lookup k (after_call s c).terminal ≡ some session_id
unfolding after_call register end_room_session
over-after_call s (registers request) k session_id v o n = ground arith
over-after_call s (resolves other decision) k session_id v o n =
    over-resolve s k session_id other decision o
over-after_call s (consumes other scope) k session_id v o n =
    over-consume s k session_id other scope v o
over-after_call s (ends other) k session_id v o n = ground (
  arith,
  v.terminal_map,
  eq_iff other session_id,
  eq_iff session_id other,
  lookup-retain (λ terminal_session_id. not (terminal_session_id == other)) k s.terminal,
)

over-after_calls :
    (s : CommandConfirmationRegistry) (cs : List Call) (k session_id : Str)
    → IsConsistent s
    → lookup k s.terminal ≡ some session_id
    → any (ends_session session_id) cs ≡ false
    → lookup k (after_calls s cs).terminal ≡ some session_id
unfolding after_calls any
over-after_calls s [] k session_id v o n = o
over-after_calls s (c ∷ cs) k session_id v o n =
    over-after_calls (after_call s c) cs k session_id (call-IsConsistent s c v)
      (over-after_call s c k session_id v o (ground arith)) (ground arith)

over_refused :
    (s : CommandConfirmationRegistry) (k session_id : Str) (scope : CommandConfirmationScope)
    → IsConsistent s
    → lookup k s.terminal ≡ some session_id
    → is_ok (consume_authorization s k scope).1 ≡ false
over_refused s k session_id scope v o = elim (consume_cases s k scope) [
  | inl (same, e) ↦ e
  | inr (ready, (r, few, done)) ↦ ground (arith, v.apart k)
]

consume_terminal :
    (s : CommandConfirmationRegistry) (request_id : Str) (ready : ReadyAuthorization)
    (scope : CommandConfirmationScope)
    → lookup request_id s.ready ≡ some ready
    → length s.terminal < maximum_terminal_confirmations
    → (consume_authorization s request_id scope).0.terminal
      ≡ insert request_id ready.scope.session_id s.terminal
unfolding consume_authorization
consume_terminal s request_id ready scope r few = ground (arith, r, few)

-- A ready request is used at most once, whatever the scope of the attempt: after a first attempt on
-- a registry that can still remember it, every later attempt is refused, whatever calls are made in
-- between, unless one of them ends the request's session.
pub consume_once :
    (s : CommandConfirmationRegistry) (request_id : Str) (ready : ReadyAuthorization)
    (first second : CommandConfirmationScope) (cs : List Call)
    → IsConsistent s
    → lookup request_id s.ready ≡ some ready
    → length s.terminal < maximum_terminal_confirmations
    → any (ends_session ready.scope.session_id) cs ≡ false
    → is_ok
        (consume_authorization
          (after_calls (consume_authorization s request_id first).0 cs)
          request_id
          second).1
      ≡ false
consume_once s request_id ready first second cs v r few n =
    let w = consume-IsConsistent s request_id first v in
    over_refused _ request_id ready.scope.session_id second (calls-IsConsistent _ cs w) (
      over-after_calls _ cs request_id ready.scope.session_id w
        (rw
          (
            consume_terminal s request_id ready first r few,
            lookup-insert request_id request_id ready.scope.session_id s.terminal,
            eq_refl request_id,
          )
          refl)
        n)
