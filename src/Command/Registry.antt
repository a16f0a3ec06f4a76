-- ===== src/Command/Registry.antt =====
-- The registry of confirmations (crates/moe-command-broker/src/confirmation.rs): a method returns
-- the registry as the call leaves it, and its result. `terminal` maps a request that is over to its
-- session.
pub mod Cases
pub mod Invariant
pub mod Consumption
pub mod Sessions
pub mod Provenance
use m_i_o.Prelude.{
  ℕ, ◌+◌, ◌-◌, Bool, true, false, not, ◌&&◌, ◌||◌, Option, none, some, List, [], ◌∷◌, map, length,
  leb, if◌then◌else◌, Result, ok, err, PartialEq, ◌==◌, contains, list_eq, nat_eq, filter,
}
use m_i_o.Text.{Str}
use m_i_o.Command.Policy.{allows_room_session}
use m_i_o.Command.Maps.{lookup, contains_key, insert, remove, retain}
use m_i_o.Command.Confirmation.{
  maximum_pending_confirmations, maximum_terminal_confirmations, CommandConfirmationScope, scope_eq,
  ConfirmationContractError, request_id_conflict, request_already_resolved, unknown_request,
  too_many_pending, terminal_registry_full, scope_mismatch, CommandConfirmationRequest,
  ConfirmationDecision, allow_once, allow_room_session, deny, ConfirmationDenial, owner_denied,
  session_lifetime_not_allowed, once, room_session, CommandAuthorization,
  ConfirmationRegisterOutcome, already_pending, authorized_by_room_session,
  ConfirmationResolveOutcome, authorization_ready, denied, ReadyAuthorization,
}

pub record CommandConfirmationRegistry : Type 0 where
  pub pending : List (Str × CommandConfirmationScope)
  pub ready : List (Str × ReadyAuthorization)
  pub terminal : List (Str × Str)
  pub room_session_grants : List CommandConfirmationScope

abbrev pub default : CommandConfirmationRegistry
default = record { pending = []; ready = []; terminal = []; room_session_grants = [] }

abbrev pub Step : Type 0 → Type 0
Step A = CommandConfirmationRegistry × Result ConfirmationContractError A

-- `BTreeSet::insert`.
unfoldable pub add_grant :
    CommandConfirmationScope → List CommandConfirmationScope → List CommandConfirmationScope
add_grant scope grants = if contains grants scope then grants else scope ∷ grants

unfoldable pub register :
    CommandConfirmationRegistry → CommandConfirmationRequest → Step ConfirmationRegisterOutcome
register s request = elim (lookup request.request_id s.pending) [
  | some existing ↦
      if existing == request.scope then (s, ok already_pending) else (s, err request_id_conflict)
  | none ↦
      if contains_key request.request_id s.ready || contains_key request.request_id s.terminal
      then (s, err request_already_resolved)
      else if leb maximum_terminal_confirmations (length s.terminal)
      then (s, err terminal_registry_full)
      else if leb maximum_pending_confirmations (length s.pending + length s.ready)
      then (s, err too_many_pending)
      else if contains s.room_session_grants request.scope
      then (
        record s {
          ready =
              insert request.request_id (record { scope = request.scope; lifetime = room_session })
                s.ready;
        },
        ok authorized_by_room_session,
      )
      else (
        record s { pending = insert request.request_id request.scope s.pending },
        ok ConfirmationRegisterOutcome.pending,
      )
]

unfoldable pub finish_terminal : CommandConfirmationRegistry → Str → Str → Step (Unit {0})
finish_terminal s request_id session_id =
    if leb maximum_terminal_confirmations (length s.terminal)
    then (s, err terminal_registry_full)
    else (record s { terminal = insert request_id session_id s.terminal }, ok tt)

-- `self.finish_terminal(request_id, session_id)?; result`.
abbrev pub finish_then :
    {A : Type 0}
    → CommandConfirmationRegistry
    → Str
    → Str
    → Result ConfirmationContractError A
    → Step A
finish_then s request_id session_id result =
    let (t, finished) = finish_terminal s request_id session_id in
    elim finished [ err e ↦ (t, err e) | ok u ↦ (t, result) ]

-- What `resolve` does with the decision on a pending request, which has left `pending`.
abbrev pub decide :
    CommandConfirmationRegistry
    → Str
    → CommandConfirmationScope
    → ConfirmationDecision
    → Step ConfirmationResolveOutcome
decide s request_id scope allow_once = (
  record s { ready = insert request_id (record { scope = scope; lifetime = once }) s.ready },
  ok authorization_ready,
)
decide s request_id scope allow_room_session =
    if allows_room_session scope.command
    then (
      record s {
        room_session_grants = add_grant scope s.room_session_grants;
        ready = insert request_id (record { scope = scope; lifetime = room_session }) s.ready;
      },
      ok authorization_ready,
    )
    else finish_then s request_id scope.session_id (ok (denied session_lifetime_not_allowed))
decide s request_id scope deny =
    finish_then s request_id scope.session_id (ok (denied owner_denied))
decide s request_id scope ConfirmationDecision.dismissed =
    finish_then s request_id scope.session_id (ok (denied ConfirmationDenial.dismissed))
decide s request_id scope ConfirmationDecision.timed_out =
    finish_then s request_id scope.session_id (ok (denied ConfirmationDenial.timed_out))

unfoldable pub resolve :
    CommandConfirmationRegistry → Str → ConfirmationDecision → Step ConfirmationResolveOutcome
unfolding finish_terminal
resolve s request_id decision =
    if leb maximum_terminal_confirmations (length s.terminal)
    then (s, err terminal_registry_full)
    else if contains_key request_id s.ready || contains_key request_id s.terminal
    then (s, err request_already_resolved)
    else elim (lookup request_id s.pending) [
      | none ↦ (s, err unknown_request)
      | some scope ↦
          decide (record s { pending = remove request_id s.pending }) request_id scope decision
    ]

unfoldable pub missing_request_error : CommandConfirmationRegistry → Str → ConfirmationContractError
missing_request_error s request_id =
    if contains_key request_id s.terminal then request_already_resolved else unknown_request

unfoldable pub consume_authorization :
    CommandConfirmationRegistry → Str → CommandConfirmationScope → Step CommandAuthorization
unfolding finish_terminal missing_request_error
consume_authorization s request_id expected_scope =
    if leb maximum_terminal_confirmations (length s.terminal)
    then (s, err terminal_registry_full)
    else elim (lookup request_id s.ready) [
      | none ↦ (s, err (missing_request_error s request_id))
      | some ready ↦
          let t = record s { ready = remove request_id s.ready } in
          if not (ready.scope == expected_scope)
          then finish_then t request_id ready.scope.session_id (err scope_mismatch)
          else finish_then t request_id ready.scope.session_id (
              ok (record {
                request_id = request_id;
                scope = ready.scope;
                lifetime = ready.lifetime;
              }))
    ]

unfoldable pub pending_requests : CommandConfirmationRegistry → List CommandConfirmationRequest
pending_requests s = map (λ entry. record { request_id = entry.0; scope = entry.1 }) s.pending

-- How many entries the registry has.
abbrev pub entries : CommandConfirmationRegistry → ℕ
entries s = length s.pending + length s.ready + length s.terminal + length s.room_session_grants

-- The registry without the entries of a session.
abbrev pub without_session : CommandConfirmationRegistry → Str → CommandConfirmationRegistry
without_session s session_id = record {
  pending = retain (λ scope. not (scope.session_id == session_id)) s.pending;
  ready = retain (λ authorization. not (authorization.scope.session_id == session_id)) s.ready;
  terminal = retain (λ terminal_session_id. not (terminal_session_id == session_id)) s.terminal;
  room_session_grants =
      filter (λ scope. not (scope.session_id == session_id)) s.room_session_grants;
}

unfoldable pub end_room_session :
    CommandConfirmationRegistry → Str → CommandConfirmationRegistry × ℕ
end_room_session s session_id =
    (without_session s session_id, entries s - entries (without_session s session_id))

-- A call of one of the methods above.
pub data Call : Type 0 where
  registers : CommandConfirmationRequest → Call
  resolves : Str → ConfirmationDecision → Call
  consumes : Str → CommandConfirmationScope → Call
  ends : Str → Call

unfoldable pub after_call : CommandConfirmationRegistry → Call → CommandConfirmationRegistry
unfolding register resolve consume_authorization end_room_session
after_call s (registers request) = (register s request).0
after_call s (resolves request_id decision) = (resolve s request_id decision).0
after_call s (consumes request_id scope) = (consume_authorization s request_id scope).0
after_call s (ends session_id) = (end_room_session s session_id).0

unfoldable pub after_calls : CommandConfirmationRegistry → List Call → CommandConfirmationRegistry
after_calls s [] = s
after_calls s (c ∷ cs) = after_calls (after_call s c) cs
