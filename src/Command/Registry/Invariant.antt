-- ===== src/Command/Registry/Invariant.antt =====
-- What holds of a registry of confirmations between two calls
-- (crates/moe-command-broker/src/confirmation.rs).
pub mod Calls
use m_i_o.Prelude.{
  ℕ, suc, ◌+◌, ◌-◌, ◌≤◌, ◌≡◌, refl, Bool, true, false, not, ◌&&◌, ◌||◌, Option, none, some, List,
  [], ◌∷◌, arith, length, all, filter, leb, if◌then◌else◌, Result, ok, err, PartialEq, ◌==◌, eq_iff,
  contains, list_eq, nat_eq, is_some, Option-cases, Bool-cases, inl, inr,
}
use m_i_o.Text.{Str}
use m_i_o.Command.Policy.{allows_room_session}
use m_i_o.Command.Maps.{
  lookup, contains_key, insert, remove, retain, IsMap, lookup-insert, lookup-remove, lookup-retain,
  length-insert, length-remove, length-remove-le, length-retain-le, IsMap-insert, IsMap-remove,
  IsMap-retain, keep_if,
}
use m_i_o.Command.Confirmation.{
  maximum_pending_confirmations, maximum_terminal_confirmations, CommandConfirmationScope, scope_eq,
  CommandConfirmationRequest, ConfirmationDecision, allow_once, allow_room_session, deny, once,
  room_session, ReadyAuthorization,
}
use m_i_o.Command.Registry.{
  CommandConfirmationRegistry, default, add_grant, register, finish_terminal, resolve,
  consume_authorization, end_room_session, without_session, Call, registers, resolves, consumes,
  ends, after_call, after_calls,
}

-- A request is in one of the maps at most.
abbrev pub IsApart : CommandConfirmationRegistry → Str → Type 0
IsApart s k =
    (contains_key k s.pending && contains_key k s.ready ≡ false)
    × (contains_key k s.pending && contains_key k s.terminal ≡ false)
    × (contains_key k s.ready && contains_key k s.terminal ≡ false)

-- An authorization for a room session is for a command that allows it.
abbrev pub lifetime_allowed : ReadyAuthorization → Bool
lifetime_allowed ready = elim ready.lifetime [
  | once ↦ true
  | room_session ↦ allows_room_session ready.scope.command
]

abbrev pub IsAllowed : Option ReadyAuthorization → Type 0
IsAllowed none = Unit
IsAllowed (some ready) = lifetime_allowed ready ≡ true

abbrev pub grants_allowed : List CommandConfirmationScope → Bool
grants_allowed grants = all (λ scope. allows_room_session scope.command) grants

pub record IsConsistent (s : CommandConfirmationRegistry) : Type 0 where
  pub pending_map : IsMap s.pending
  pub ready_map : IsMap s.ready
  pub terminal_map : IsMap s.terminal
  pub few_open : length s.pending + length s.ready ≤ maximum_pending_confirmations
  pub few_terminal : length s.terminal ≤ maximum_terminal_confirmations
  pub apart : (k : Str) → IsApart s k
  pub ready_allowed : (k : Str) → IsAllowed (lookup k s.ready)
  pub grants_allowed : grants_allowed s.room_session_grants ≡ true

pub grants-contains :
    (grants : List CommandConfirmationScope) (scope : CommandConfirmationScope)
    → grants_allowed grants ≡ true
    → contains grants scope ≡ true
    → allows_room_session scope.command ≡ true
unfolding all contains
grants-contains [] scope h c = cc
grants-contains (g ∷ grants) scope h c =
    ground (arith, eq_iff g scope, grants-contains grants scope)

pub grants-filter :
    (p : CommandConfirmationScope → Bool) (grants : List CommandConfirmationScope)
    → grants_allowed grants ≡ true
    → grants_allowed (filter p grants) ≡ true
unfolding all filter
grants-filter p [] h = refl
grants-filter p (g ∷ grants) h = ground (arith, grants-filter p grants)

-- A request that no map has.
abbrev pub IsFresh : CommandConfirmationRegistry → Str → Type 0
IsFresh s k = (lookup k s.pending ≡ none) × (lookup k s.ready ≡ none) × (lookup k s.terminal ≡ none)

pub put_pending :
    (s : CommandConfirmationRegistry) (k : Str) (scope : CommandConfirmationScope)
    → IsConsistent s
    → IsFresh s k
    → suc (length s.pending + length s.ready) ≤ maximum_pending_confirmations
    → IsConsistent (record s { pending = insert k scope s.pending })
put_pending s k scope v f room = record {
  pending_map = IsMap-insert k scope s.pending f.0 v.pending_map;
  ready_map = v.ready_map;
  terminal_map = v.terminal_map;
  few_open = omega (arith, length-insert k scope s.pending f.0, room);
  few_terminal = v.few_terminal;
  apart = λ j. ground (arith, v.apart j, lookup-insert k j scope s.pending, eq_iff k j);
  ready_allowed = v.ready_allowed;
  grants_allowed = v.grants_allowed;
}

pub put_ready :
    (s : CommandConfirmationRegistry) (k : Str) (ready : ReadyAuthorization)
    → IsConsistent s
    → IsFresh s k
    → suc (length s.pending + length s.ready) ≤ maximum_pending_confirmations
    → IsAllowed (some ready)
    → IsConsistent (record s { ready = insert k ready s.ready })
put_ready s k ready v f room allowed = record {
  pending_map = v.pending_map;
  ready_map = IsMap-insert k ready s.ready f.1 v.ready_map;
  terminal_map = v.terminal_map;
  few_open = omega (arith, length-insert k ready s.ready f.1, room);
  few_terminal = v.few_terminal;
  apart = λ j. ground (arith, v.apart j, lookup-insert k j ready s.ready, eq_iff k j);
  ready_allowed = λ j. ground (arith, v.ready_allowed j, lookup-insert k j ready s.ready);
  grants_allowed = v.grants_allowed;
}

pub insert_terminal :
    (s : CommandConfirmationRegistry) (k session_id : Str)
    → IsConsistent s
    → IsFresh s k
    → suc (length s.terminal) ≤ maximum_terminal_confirmations
    → IsConsistent (record s { terminal = insert k session_id s.terminal })
insert_terminal s k session_id v f space = record {
  pending_map = v.pending_map;
  ready_map = v.ready_map;
  terminal_map = IsMap-insert k session_id s.terminal f.2 v.terminal_map;
  few_open = v.few_open;
  few_terminal = omega (arith, length-insert k session_id s.terminal f.2, space);
  apart = λ j. ground (arith, v.apart j, lookup-insert k j session_id s.terminal, eq_iff k j);
  ready_allowed = v.ready_allowed;
  grants_allowed = v.grants_allowed;
}

pub put_terminal :
    (s : CommandConfirmationRegistry) (k session_id : Str)
    → IsConsistent s
    → IsFresh s k
    → IsConsistent (finish_terminal s k session_id).0
unfolding finish_terminal
put_terminal s k session_id v f =
    elim (Bool-cases (leb maximum_terminal_confirmations (length s.terminal))) [
      | inl full ↦ rw full v
      | inr space ↦ rw space (insert_terminal s k session_id v f (ground (arith, space)))
    ]

pub take_pending :
    (s : CommandConfirmationRegistry) (k : Str)
    → IsConsistent s
    → IsConsistent (record s { pending = remove k s.pending })
take_pending s k v = record {
  pending_map = IsMap-remove k s.pending v.pending_map;
  ready_map = v.ready_map;
  terminal_map = v.terminal_map;
  few_open = omega (arith, length-remove-le k s.pending, v.few_open);
  few_terminal = v.few_terminal;
  apart = λ j. ground (arith, v.apart j, lookup-remove k j s.pending);
  ready_allowed = v.ready_allowed;
  grants_allowed = v.grants_allowed;
}

pub take_ready :
    (s : CommandConfirmationRegistry) (k : Str)
    → IsConsistent s
    → IsConsistent (record s { ready = remove k s.ready })
take_ready s k v = record {
  pending_map = v.pending_map;
  ready_map = IsMap-remove k s.ready v.ready_map;
  terminal_map = v.terminal_map;
  few_open = omega (arith, length-remove-le k s.ready, v.few_open);
  few_terminal = v.few_terminal;
  apart = λ j. ground (arith, v.apart j, lookup-remove k j s.ready);
  ready_allowed = λ j. ground (arith, v.ready_allowed j, lookup-remove k j s.ready);
  grants_allowed = v.grants_allowed;
}

pub put_grant :
    (s : CommandConfirmationRegistry) (scope : CommandConfirmationScope)
    → IsConsistent s
    → allows_room_session scope.command ≡ true
    → IsConsistent (record s { room_session_grants = add_grant scope s.room_session_grants })
unfolding add_grant all
put_grant s scope v allowed = record {
  pending_map = v.pending_map;
  ready_map = v.ready_map;
  terminal_map = v.terminal_map;
  few_open = v.few_open;
  few_terminal = v.few_terminal;
  apart = v.apart;
  ready_allowed = v.ready_allowed;
  grants_allowed = ground (arith, v.grants_allowed, allowed);
}
