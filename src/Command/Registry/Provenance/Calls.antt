-- ===== src/Command/Registry/Provenance/Calls.antt =====
-- No authorization without the owner: the calls that lead to one
-- (crates/moe-command-broker/src/confirmation.rs).
use m_i_o.Prelude.{
  ◌≡◌, ◌⊎◌, inl, inr, subst, ap, sym, refl, ◌∙◌, true, some, List, [], ◌∷◌, ◌++◌, arith, contains,
  ok,
}
use m_i_o.Text.{Str}
use m_i_o.Command.Maps.{lookup}
use m_i_o.Command.Confirmation.{
  CommandConfirmationScope, scope_eq, CommandConfirmationRequest, CommandAuthorization,
  ConfirmationDecision, ReadyAuthorization,
}
use m_i_o.Command.Registry.{
  CommandConfirmationRegistry, default, resolve, consume_authorization, Call, registers, resolves,
  consumes, ends, after_call, after_calls,
}
use m_i_o.Command.Registry.Invariant.{IsConsistent}
use m_i_o.Command.Registry.Invariant.Calls.{after_calls-default-IsConsistent}
use m_i_o.Command.Registry.Consumption.{consume_authorization_lem}
use m_i_o.Command.Registry.Provenance.{
  after, with_call, Waiting, Granted, Backed, accepted, given, allowed, granted, IsKnown,
}
use m_i_o.Command.Registry.Provenance.Entries.{
  register_pending, register_ready, register_grants, resolve_pending, resolve_ready, resolve_grants,
  Shrinks, consume-Shrinks, end-Shrinks,
}

after_calls-with_call :
    (s : CommandConfirmationRegistry) (h : List Call) (c : Call)
    → after_calls s (with_call h c) ≡ after_call (after_calls s h) c
unfolding after_calls
after_calls-with_call s [] c = refl
after_calls-with_call s (x ∷ h) c = after_calls-with_call (after_call s x) h c

-- The registry is known after a call if whatever the call adds has its evidence.
module _ (h : List Call) (c : Call) (v : IsKnown h) where
  extend :
      ((k : Str) (scope : CommandConfirmationScope)
        → lookup k (after_call (after h) c).pending ≡ some scope
        → (lookup k (after h).pending ≡ some scope) ⊎ Waiting (with_call h c) k scope)
      → ((k : Str) (ready : ReadyAuthorization)
          → lookup k (after_call (after h) c).ready ≡ some ready
          → (lookup k (after h).ready ≡ some ready) ⊎ Backed (with_call h c) k ready)
      → ((scope : CommandConfirmationScope)
          → contains (after_call (after h) c).room_session_grants scope ≡ true
          → (contains (after h).room_session_grants scope ≡ true) ⊎ Granted (with_call h c) scope)
      → IsKnown (with_call h c)
  extend waits backs grants =
      let moved = after_calls-with_call default h c in
      record {
        pending_known = λ k scope e. elim (waits k scope (rw (sym moved) e)) [
          | inl old ↦ Waiting.still h c k scope (v.pending_known k scope old) e
          | inr now ↦ now
        ];
        ready_known = λ k ready e. elim (backs k ready (rw (sym moved) e)) [
          | inl old ↦ Backed.still h c k ready (v.ready_known k ready old) e
          | inr now ↦ now
        ];
        grants_known = λ scope e. elim (grants scope (rw (sym moved) e)) [
          | inl old ↦ Granted.still h c scope (v.grants_known scope old) e
          | inr now ↦ now
        ];
      }

  shrink-IsKnown : Shrinks (after h) (after_call (after h) c) → IsKnown (with_call h c)
  shrink-IsKnown (p, r, g) =
      extend (λ k scope e. inl (p k scope e)) (λ k ready e. inl (r k ready e))
        (λ scope e. inl (g scope e))

register-IsKnown :
    (h : List Call) (request : CommandConfirmationRequest)
    → IsKnown h
    → IsKnown (with_call h (registers request))
unfolding after_call
register-IsKnown h request v =
    extend h (registers request) v
      (λ k scope e. elim (register_pending (after h) request k scope e) [
        | inl old ↦ inl old
        | inr (a, b, fresh, replied) ↦ inr (rw (sym a, sym b) (accepted h request fresh replied))
      ])
      (λ k ready e. elim (register_ready (after h) request k ready e) [
        | inl old ↦ inl old
        | inr (a, b, held, replied) ↦
            inr (rw (sym a, sym b) (granted h request (v.grants_known request.scope held) replied))
      ])
      (λ scope e. inl (ground (arith, e, register_grants (after h) request)))

resolve-IsKnown :
    (h : List Call) (k : Str) (decision : ConfirmationDecision)
    → IsKnown h
    → IsKnown (with_call h (resolves k decision))
unfolding after_call
resolve-IsKnown h k decision v =
    extend h (resolves k decision) v
      (λ j scope e. inl (resolve_pending (after h) k decision j scope e))
      (λ j ready e. elim (resolve_ready (after h) k decision j ready e) [
        | inl old ↦ inl old
        | inr (same, asked, allows, replied) ↦ inr (
            rw (sym same) (
              allowed h k ready.scope decision ready.lifetime (v.pending_known k ready.scope asked)
                allows replied))
      ])
      (λ scope e. elim (resolve_grants (after h) k decision scope e) [
        | inl old ↦ inl old
        | inr (session, asked, replied) ↦ inr (
            rw session (
              given h k scope (v.pending_known k scope asked)
                (ap (λ d. (resolve (after h) k d).1) (sym session) ∙ replied)))
      ])

call-IsKnown :
    (h : List Call) (c : Call) → IsConsistent (after h) → IsKnown h → IsKnown (with_call h c)
unfolding after_call
call-IsKnown h (registers request) d v = register-IsKnown h request v
call-IsKnown h (resolves k decision) d v = resolve-IsKnown h k decision v
call-IsKnown h (consumes k scope) d v =
    shrink-IsKnown h (consumes k scope) v (consume-Shrinks (after h) k scope)
call-IsKnown h (ends session_id) d v =
    shrink-IsKnown h (ends session_id) v (end-Shrinks (after h) session_id d)

append_assoc : (h : List Call) (c : Call) (cs : List Call) → with_call h c ++ cs ≡ h ++ c ∷ cs
append_assoc [] c cs = refl
append_assoc (x ∷ h) c cs = ap (λ l. x ∷ l) (append_assoc h c cs)

append_nil : (h : List Call) → h ++ [] ≡ h
append_nil [] = refl
append_nil (x ∷ h) = ap (λ l. x ∷ l) (append_nil h)

calls-IsKnown : (h cs : List Call) → IsKnown h → IsKnown (h ++ cs)
calls-IsKnown h [] v = subst IsKnown (sym (append_nil h)) v
calls-IsKnown h (c ∷ cs) v =
    subst IsKnown (append_assoc h c cs)
      (calls-IsKnown (with_call h c) cs (call-IsKnown h c (after_calls-default-IsConsistent h) v))

default-IsKnown : IsKnown []
unfolding lookup contains after_calls
default-IsKnown = record {
  pending_known = λ k scope e. absurd (ground (arith, e));
  ready_known = λ k ready e. absurd (ground (arith, e));
  grants_known = λ scope e. absurd (ground (arith, e));
}

-- Whatever calls are made on an empty registry, an authorization that it hands out is for the
-- request and the scope that were asked for, and the owner stands behind it. Either the registry
-- accepted the request for exactly this scope as a new one and kept it pending with that scope
-- until the owner allowed it, once or for the room session as the authorization says; or it
-- registered the request as authorized, for the room session, while a grant for this scope was in
-- force, which the owner had given, in the same way, for a request with the same scope. The
-- request has been ready from then on.
pub consume_authorization-Backed :
    (cs : List Call) (request_id : Str) (scope : CommandConfirmationScope)
    {a : CommandAuthorization}
    → (consume_authorization (after_calls default cs) request_id scope).1 ≡ ok a
    → (a.request_id ≡ request_id)
      × (a.scope ≡ scope)
      × Backed cs request_id (record { scope = scope; lifetime = a.lifetime })
consume_authorization-Backed cs request_id scope {a} e =
    let d = after_calls-default-IsConsistent cs in
    let v = calls-IsKnown [] cs default-IsKnown in
    let (i, same, r, l) = consume_authorization_lem (after_calls default cs) request_id scope d e in
    (i, same, rw (sym same) (v.ready_known request_id _ r))
