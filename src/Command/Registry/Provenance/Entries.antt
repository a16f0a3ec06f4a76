-- ===== src/Command/Registry/Provenance/Entries.antt =====
-- What one call adds to a registry of confirmations
-- (crates/moe-command-broker/src/confirmation.rs).
use m_i_o.Prelude.{
  ◌≡◌, ◌⊎◌, inl, inr, true, not, none, some, List, arith, ◌==◌, eq_iff, contains, list_eq, nat_eq,
  ok, Result, ap, sym, refl, ◌∙◌, Bool-cases,
}
use m_i_o.Text.{Str}
use m_i_o.Command.Policy.{allows_room_session}
use m_i_o.Command.Maps.{lookup, insert, remove, lookup-insert, lookup-remove, lookup-retain}
use m_i_o.Command.Confirmation.{
  CommandConfirmationScope, scope_eq, CommandConfirmationRequest, ConfirmationDecision, allow_once,
  allow_room_session, deny, once, room_session, ReadyAuthorization, ConfirmationRegisterOutcome,
  authorized_by_room_session, authorization_ready, denied, session_lifetime_not_allowed,
  AuthorizationLifetime, ConfirmationContractError,
}
use m_i_o.Command.Registry.{
  CommandConfirmationRegistry, add_grant, register, resolve, decide, finish_terminal, finish_then,
  consume_authorization, end_room_session,
}
use m_i_o.Command.Registry.Cases.{resolve_cases, consume_cases}
use m_i_o.Command.Registry.Invariant.{IsConsistent}
use m_i_o.Command.Registry.Provenance.{Allows, for_once, for_session}
use m_i_o.Command.Registry.Sessions.{contains-filter}

insert_cases :
    {V : Type 0} (k j : Str) (v w : V) (m : List (Str × V))
    → lookup j (insert k v m) ≡ some w
    → ((k ≡ j) × (v ≡ w)) ⊎ (lookup j m ≡ some w)
insert_cases k j v w m e = ground (arith, e, lookup-insert k j v m, eq_iff k j)

add_grant_cases :
    (scope other : CommandConfirmationScope) (grants : List CommandConfirmationScope)
    → contains (add_grant scope grants) other ≡ true
    → (scope ≡ other) ⊎ (contains grants other ≡ true)
unfolding add_grant contains
add_grant_cases scope other grants e = ground (arith, e, eq_iff scope other)

module _ (s : CommandConfirmationRegistry) (request : CommandConfirmationRequest) where
  pub register_pending :
      (k : Str) (scope : CommandConfirmationScope)
      → lookup k (register s request).0.pending ≡ some scope
      → (lookup k s.pending ≡ some scope)
        ⊎ ((request.request_id ≡ k)
            × (request.scope ≡ scope)
            × (lookup request.request_id s.pending ≡ none)
            × ((register s request).1 ≡ ok ConfirmationRegisterOutcome.pending))
  unfolding register
  register_pending k scope e = ground (
    arith,
    e,
    lookup-insert request.request_id k request.scope s.pending,
    eq_iff request.request_id k,
  )

  pub register_ready :
      (k : Str) (ready : ReadyAuthorization)
      → lookup k (register s request).0.ready ≡ some ready
      → (lookup k s.ready ≡ some ready)
        ⊎ ((request.request_id ≡ k)
            × (record { scope = request.scope; lifetime = room_session } ≡ ready)
            × (contains s.room_session_grants request.scope ≡ true)
            × ((register s request).1 ≡ ok authorized_by_room_session))
  unfolding register
  register_ready k ready e = ground (
    arith,
    e,
    lookup-insert request.request_id k (record { scope = request.scope; lifetime = room_session })
        s.ready,
    eq_iff request.request_id k,
  )

  pub register_grants : (register s request).0.room_session_grants ≡ s.room_session_grants
  unfolding register
  register_grants = ground arith

finish_then_kept :
    {A : Type 0} (s : CommandConfirmationRegistry) (k session_id : Str)
    (result : Result ConfirmationContractError A)
    → ((finish_then s k session_id result).0.pending ≡ s.pending)
      × ((finish_then s k session_id result).0.ready ≡ s.ready)
      × ((finish_then s k session_id result).0.room_session_grants ≡ s.room_session_grants)
unfolding finish_terminal
finish_then_kept s k session_id result = ground arith

-- What a decision on a pending request leaves: the new entries are the request's.
abbrev Decided :
    CommandConfirmationRegistry → Str → CommandConfirmationScope → ConfirmationDecision → Type 0
Decided s k scope decision =
    let t = decide s k scope decision in
    (t.0.pending ≡ s.pending)
    × (((t.0.ready ≡ s.ready) × (t.0.room_session_grants ≡ s.room_session_grants))
        ⊎ ((t.1 ≡ ok authorization_ready)
            × (lifetime : AuthorizationLifetime) × Allows decision lifetime
            × (t.0.ready ≡ insert k (record { scope = scope; lifetime = lifetime }) s.ready)
            × ((t.0.room_session_grants ≡ s.room_session_grants)
                ⊎ ((decision ≡ allow_room_session)
                    × (t.0.room_session_grants ≡ add_grant scope s.room_session_grants)))))

unchanged-Decided :
    (s : CommandConfirmationRegistry) (k : Str) (scope : CommandConfirmationScope)
    (decision : ConfirmationDecision) (result : Result ConfirmationContractError _)
    → decide s k scope decision ≡ finish_then s k scope.session_id result
    → Decided s k scope decision
unchanged-Decided s k scope decision result e =
    let (p, r, g) = finish_then_kept s k scope.session_id result in rw e (p, inl (r, g))

decide-Decided :
    (s : CommandConfirmationRegistry) (k : Str) (scope : CommandConfirmationScope)
    (decision : ConfirmationDecision)
    → Decided s k scope decision
decide-Decided s k scope allow_once = (refl, inr (refl, once, for_once, refl, inl refl))
decide-Decided s k scope allow_room_session =
    elim (Bool-cases (allows_room_session scope.command)) [
      | inl permitted ↦
          rw permitted (refl, inr (refl, room_session, for_session, refl, inr (refl, refl)))
      | inr refused ↦
          unchanged-Decided s k scope allow_room_session (ok (denied session_lifetime_not_allowed))
            (rw refused refl)
    ]
decide-Decided s k scope deny = unchanged-Decided s k scope deny _ refl
decide-Decided s k scope ConfirmationDecision.dismissed =
    unchanged-Decided s k scope ConfirmationDecision.dismissed _ refl
decide-Decided s k scope ConfirmationDecision.timed_out =
    unchanged-Decided s k scope ConfirmationDecision.timed_out _ refl

module _ (s : CommandConfirmationRegistry) (k : Str) (decision : ConfirmationDecision) where
  pub resolve_pending :
      (j : Str) (scope : CommandConfirmationScope)
      → lookup j (resolve s k decision).0.pending ≡ some scope
      → lookup j s.pending ≡ some scope
  resolve_pending j scope e = elim (resolve_cases s k decision) [
    | inl (same, _) ↦ ground (arith, e, same)
    | inr (asked, (p, r, t, few, done)) ↦
        let (kept, _) =
          decide-Decided (record s { pending = remove k s.pending }) k asked decision in
        ground (arith, e, done, kept, lookup-remove k j s.pending)
  ]

  pub resolve_ready :
      (j : Str) (ready : ReadyAuthorization)
      → lookup j (resolve s k decision).0.ready ≡ some ready
      → (lookup j s.ready ≡ some ready)
        ⊎ ((k ≡ j)
            × (lookup k s.pending ≡ some ready.scope)
            × Allows decision ready.lifetime
            × ((resolve s k decision).1 ≡ ok authorization_ready))
  resolve_ready j ready e = elim (resolve_cases s k decision) [
    | inl (same, _) ↦ ground (arith, e, same)
    | inr (asked, (p, r, t, few, done)) ↦
        elim (decide-Decided (record s { pending = remove k s.pending }) k asked decision).1 [
          | inl (kept, _) ↦ inl (ground (arith, e, done, kept))
          | inr (replied, lifetime, allows, put, _) ↦
              elim (insert_cases k j (record { scope = asked; lifetime = lifetime }) ready s.ready
                (ground (arith, e, done, put))) [
                  | inl (same, it) ↦
                      inr (same, rw (sym it) p, rw (sym it) allows, ap (λ q. q.1) done ∙ replied)
                  | inr old ↦ inl old
                ]
        ]
  ]

  pub resolve_grants :
      (scope : CommandConfirmationScope)
      → contains (resolve s k decision).0.room_session_grants scope ≡ true
      → (contains s.room_session_grants scope ≡ true)
        ⊎ ((decision ≡ allow_room_session)
            × (lookup k s.pending ≡ some scope)
            × ((resolve s k decision).1 ≡ ok authorization_ready))
  resolve_grants scope e = elim (resolve_cases s k decision) [
    | inl (same, _) ↦ ground (arith, e, same)
    | inr (asked, (p, r, t, few, done)) ↦
        elim (decide-Decided (record s { pending = remove k s.pending }) k asked decision).1 [
          | inl (_, kept) ↦ inl (ground (arith, e, done, kept))
          | inr (replied, lifetime, allows, put, inl kept) ↦ inl (ground (arith, e, done, kept))
          | inr (replied, lifetime, allows, put, inr (session, added)) ↦
              elim (add_grant_cases asked scope s.room_session_grants
                (ground (arith, e, done, added))) [
                  | inl same ↦ inr (session, ground (arith, p, same), ap (λ q. q.1) done ∙ replied)
                  | inr old ↦ inl old
                ]
        ]
  ]

-- Only these are left of the entries.
abbrev pub Shrinks : CommandConfirmationRegistry → CommandConfirmationRegistry → Type 0
Shrinks s t =
    ((k : Str) (scope : CommandConfirmationScope)
      → lookup k t.pending ≡ some scope
      → lookup k s.pending ≡ some scope)
    × ((k : Str) (ready : ReadyAuthorization)
        → lookup k t.ready ≡ some ready
        → lookup k s.ready ≡ some ready)
    × ((scope : CommandConfirmationScope)
        → contains t.room_session_grants scope ≡ true
        → contains s.room_session_grants scope ≡ true)

pub consume-Shrinks :
    (s : CommandConfirmationRegistry) (k : Str) (scope : CommandConfirmationScope)
    → Shrinks s (consume_authorization s k scope).0
consume-Shrinks s k scope = elim (consume_cases s k scope) [
  | inl (same, _) ↦ rw same ((λ j it e. e), (λ j it e. e), (λ it e. e))
  | inr (ready, (r, few, done)) ↦
      rw done ((λ j it e. e), (λ j it e. ground (arith, e, lookup-remove k j s.ready)), (λ it e. e))
]

pub end-Shrinks :
    (s : CommandConfirmationRegistry) (session_id : Str)
    → IsConsistent s
    → Shrinks s (end_room_session s session_id).0
unfolding end_room_session
end-Shrinks s session_id d = (
  λ k scope e. ground (
    arith,
    e,
    d.pending_map,
    lookup-retain (λ scope. not (scope.session_id == session_id)) k s.pending,
  ),
  λ k ready e. ground (
    arith,
    e,
    d.ready_map,
    lookup-retain (λ a. not (a.scope.session_id == session_id)) k s.ready,
  ),
  λ scope e. ground (
    arith,
    e,
    contains-filter (λ scope. not (scope.session_id == session_id)) s.room_session_grants scope,
  ),
)
