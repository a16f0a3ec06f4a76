-- ===== src/Command/Registry/Provenance.antt =====
-- Which calls stand behind what a registry of confirmations holds
-- (crates/moe-command-broker/src/confirmation.rs): a history is the calls made on an empty
-- registry, the last one at the end, and evidence says what each call found and replied.
pub mod Entries
pub mod Calls
use m_i_o.Prelude.{◌≡◌, Bool, true, Option, none, some, List, [], ◌∷◌, ◌++◌, ok, contains}
use m_i_o.Text.{Str}
use m_i_o.Command.Maps.{lookup}
use m_i_o.Command.Confirmation.{
  CommandConfirmationScope, scope_eq, CommandConfirmationRequest, ConfirmationDecision, allow_once,
  allow_room_session, AuthorizationLifetime, once, room_session, ReadyAuthorization,
  ConfirmationRegisterOutcome, authorized_by_room_session, authorization_ready,
}
use m_i_o.Command.Registry.{
  CommandConfirmationRegistry, default, register, resolve, Call, registers, resolves, after_calls,
}

abbrev pub after : List Call → CommandConfirmationRegistry
after h = after_calls default h

abbrev pub with_call : List Call → Call → List Call
with_call h c = h ++ c ∷ []

-- The owner is being asked about exactly this scope: the registry did not have the request
-- pending, it accepted the request as pending, and has had it pending with the scope ever since.
pub data Waiting : List Call → Str → CommandConfirmationScope → Type 0 where
  accepted :
      (h : List Call) (request : CommandConfirmationRequest)
      → lookup request.request_id (after h).pending ≡ none
      → (register (after h) request).1 ≡ ok ConfirmationRegisterOutcome.pending
      → Waiting (with_call h (registers request)) request.request_id request.scope
  still :
      (h : List Call) (c : Call) (k : Str) (scope : CommandConfirmationScope)
      → Waiting h k scope
      → lookup k (after (with_call h c)).pending ≡ some scope
      → Waiting (with_call h c) k scope

-- The owner allowed the scope for the session when asked about it, and it has not been ended since.
pub data Granted : List Call → CommandConfirmationScope → Type 0 where
  given :
      (h : List Call) (k : Str) (scope : CommandConfirmationScope)
      → Waiting h k scope
      → (resolve (after h) k allow_room_session).1 ≡ ok authorization_ready
      → Granted (with_call h (resolves k allow_room_session)) scope
  still :
      (h : List Call) (c : Call) (scope : CommandConfirmationScope)
      → Granted h scope
      → contains (after (with_call h c)).room_session_grants scope ≡ true
      → Granted (with_call h c) scope

-- The decisions that allow, and for how long.
pub data Allows : ConfirmationDecision → AuthorizationLifetime → Type 0 where
  for_once : Allows allow_once once
  for_session : Allows allow_room_session room_session

-- The request is ready because the owner allowed it when asked about its scope, or because it was
-- registered while the scope was granted; and it has been ready ever since.
pub data Backed : List Call → Str → ReadyAuthorization → Type 0 where
  allowed :
      (h : List Call) (k : Str) (scope : CommandConfirmationScope) (decision : ConfirmationDecision)
      (lifetime : AuthorizationLifetime)
      → Waiting h k scope
      → Allows decision lifetime
      → (resolve (after h) k decision).1 ≡ ok authorization_ready
      → Backed (with_call h (resolves k decision)) k (record { scope = scope; lifetime = lifetime })
  granted :
      (h : List Call) (request : CommandConfirmationRequest)
      → Granted h request.scope
      → (register (after h) request).1 ≡ ok authorized_by_room_session
      → Backed
          (with_call h (registers request))
          request.request_id
          (record { scope = request.scope; lifetime = room_session })
  still :
      (h : List Call) (c : Call) (k : Str) (ready : ReadyAuthorization)
      → Backed h k ready
      → lookup k (after (with_call h c)).ready ≡ some ready
      → Backed (with_call h c) k ready

-- Everything in the registry has its evidence.
pub record IsKnown (h : List Call) : Type 0 where
  pub pending_known :
      (k : Str) (scope : CommandConfirmationScope)
      → lookup k (after h).pending ≡ some scope
      → Waiting h k scope
  pub ready_known :
      (k : Str) (ready : ReadyAuthorization)
      → lookup k (after h).ready ≡ some ready
      → Backed h k ready
  pub grants_known :
      (scope : CommandConfirmationScope)
      → contains (after h).room_session_grants scope ≡ true
      → Granted h scope
