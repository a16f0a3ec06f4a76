-- ===== src/Command/Registry/Cases.antt =====
-- What the methods of the registry that end a request do, by cases
-- (crates/moe-command-broker/src/confirmation.rs).
use m_i_o.Prelude.{
  ◌⊎◌, suc, ◌≤◌, ◌≡◌, refl, false, ◌||◌, none, some, arith, length, leb, if◌then◌else◌, Result, ok,
  err, ◌==◌, list_eq, nat_eq, is_ok, Option-cases, Bool-cases, inl, inr,
}
use m_i_o.Text.{Str}
use m_i_o.Command.Maps.{lookup, contains_key, insert, remove}
use m_i_o.Command.Confirmation.{
  maximum_terminal_confirmations, CommandConfirmationScope, scope_eq, ConfirmationDecision,
  ReadyAuthorization, ConfirmationContractError, scope_mismatch,
}
use m_i_o.Command.Registry.{
  CommandConfirmationRegistry, finish_terminal, resolve, consume_authorization, decide, finish_then,
}

pub finish_then_state :
    {A : Type 0} (s : CommandConfirmationRegistry) (k session_id : Str)
    (result : Result ConfirmationContractError A)
    → (finish_then s k session_id result).0 ≡ (finish_terminal s k session_id).0
unfolding finish_terminal
finish_then_state s k session_id result = ground arith

pub finish_then_room :
    {A : Type 0} (s : CommandConfirmationRegistry) (k session_id : Str)
    (result : Result ConfirmationContractError A)
    → suc (length s.terminal) ≤ maximum_terminal_confirmations
    → finish_then s k session_id result
      ≡ (record s { terminal = insert k session_id s.terminal }, result)
unfolding finish_terminal
finish_then_room s k session_id result h = ground arith

-- What `resolve` does with a pending request.
abbrev pub Decides :
    CommandConfirmationRegistry → Str → ConfirmationDecision → CommandConfirmationScope → Type 0
Decides s request_id decision scope =
    (lookup request_id s.pending ≡ some scope)
    × (lookup request_id s.ready ≡ none)
    × (lookup request_id s.terminal ≡ none)
    × (suc (length s.terminal) ≤ maximum_terminal_confirmations)
    × (resolve s request_id decision
        ≡ decide (record s { pending = remove request_id s.pending }) request_id scope decision)

pub resolve_cases :
    (s : CommandConfirmationRegistry) (request_id : Str) (decision : ConfirmationDecision)
    → ((resolve s request_id decision).0 ≡ s × is_ok (resolve s request_id decision).1 ≡ false)
      ⊎ ((scope : CommandConfirmationScope) × Decides s request_id decision scope)
unfolding resolve
resolve_cases s request_id decision = elim (Option-cases (lookup request_id s.pending)) [
  | inl absent ↦ inl (ground (arith, absent))
  | inr (scope, present) ↦
      elim (Bool-cases (leb maximum_terminal_confirmations (length s.terminal))) [
        | inl full ↦ inl (rw full (refl, refl))
        | inr space ↦
            elim (Bool-cases
              (contains_key request_id s.ready || contains_key request_id s.terminal)) [
                | inl over ↦ inl (rw (space, over) (refl, refl))
                | inr live ↦ inr (
                  scope,
                  (
                    present,
                    ground (arith, live),
                    ground (arith, live),
                    ground (arith, space),
                    rw (space, live, present) refl,
                  ),
                )
              ]
      ]
]

-- What `consume_authorization` does with a ready request: the result, and the request is over.
abbrev pub Consumes :
    CommandConfirmationRegistry → Str → CommandConfirmationScope → ReadyAuthorization → Type 0
Consumes s request_id expected_scope ready =
    (lookup request_id s.ready ≡ some ready)
    × (suc (length s.terminal) ≤ maximum_terminal_confirmations)
    × (consume_authorization s request_id expected_scope ≡ (
      record s {
        ready = remove request_id s.ready;
        terminal = insert request_id ready.scope.session_id s.terminal;
      },
      if ready.scope == expected_scope
          then ok
              (record { request_id = request_id; scope = ready.scope; lifetime = ready.lifetime })
          else err scope_mismatch,
    ))

pub consume_cases :
    (s : CommandConfirmationRegistry) (request_id : Str) (expected_scope : CommandConfirmationScope)
    → ((consume_authorization s request_id expected_scope).0 ≡ s
        × is_ok (consume_authorization s request_id expected_scope).1 ≡ false)
      ⊎ ((ready : ReadyAuthorization) × Consumes s request_id expected_scope ready)
unfolding consume_authorization
consume_cases s request_id expected_scope = elim (Option-cases (lookup request_id s.ready)) [
  | inl absent ↦ inl (ground (arith, absent))
  | inr (ready, present) ↦
      elim (Bool-cases (leb maximum_terminal_confirmations (length s.terminal))) [
        | inl full ↦ inl (rw full (refl, refl))
        | inr space ↦ inr (
          ready,
          (
            present,
            ground (arith, space),
            elim (Bool-cases (ready.scope == expected_scope)) [
              | inl same ↦
                  rw (space, present, same)
                    (finish_then_room _ request_id ready.scope.session_id _ (ground (arith, space)))
              | inr other ↦
                  rw (space, present, other)
                    (finish_then_room _ request_id ready.scope.session_id _ (ground (arith, space)))
            ],
          ),
        )
      ]
]
