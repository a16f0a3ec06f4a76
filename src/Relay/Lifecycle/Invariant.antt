-- ===== src/Relay/Lifecycle/Invariant.antt =====
-- What holds of a relay lifecycle between two calls
-- (crates/moe-relay-client/src/lifecycle.rs).
use m_i_o.Prelude.{
  ℕ, zero, suc, ◌-◌, ◌≤◌, ◌<◌, ◌≡◌, ◌⊎◌, ok, true, none, List, [], ◌∷◌, arith, get_elem?, ok,
  is_some,
}
use m_i_o.Relay.Status.{
  RelayConnectionErrorCode, relay_retry_delays_ms, RelayRuntimePhase, offline, connecting,
  retry_waiting, stopping, RelayLifecycle,
}
use m_i_o.Relay.Lifecycle.{
  status_of, new, stop, stopped, after_connection_loss, Call, starts, connects, elapses, stops,
  halts, crashes, fails, disconnects, after_call, after_calls,
}

-- What the phase says of the other fields.
abbrev pub PhaseFits : RelayLifecycle → RelayRuntimePhase → Type 0
PhaseFits s offline = s.status ≡ status_of offline
PhaseFits s connecting = s.next_retry_delay_ms ≡ none
PhaseFits s RelayRuntimePhase.connected = s.status ≡ status_of RelayRuntimePhase.connected
PhaseFits s retry_waiting =
    (0 < s.retry_attempt)
    × (s.next_retry_delay_ms ≡ get_elem? relay_retry_delays_ms (s.retry_attempt - 1))
    × (is_some s.last_error_code ≡ true)
PhaseFits s stopping = s.next_retry_delay_ms ≡ none
PhaseFits s RelayRuntimePhase.error =
    (s.next_retry_delay_ms ≡ none) × (is_some s.last_error_code ≡ true)

pub record IsConsistent (s : RelayLifecycle) : Type 0 where
  pub few_attempts : s.retry_attempt ≤ 5
  pub phase_fits : PhaseFits s s.phase

loss_at :
    (k : ℕ) (s : RelayLifecycle) (e : RelayConnectionErrorCode)
    → s.retry_attempt ≡ k
    → k ≤ 5
    → IsConsistent (after_connection_loss s e).0
unfolding after_connection_loss
loss_at zero s e a h = ground arith
loss_at (suc zero) s e a h = ground arith
loss_at (suc (suc zero)) s e a h = ground arith
loss_at (suc (suc (suc zero))) s e a h = ground arith
loss_at (suc (suc (suc (suc zero)))) s e a h = ground arith
loss_at (suc (suc (suc (suc (suc k))))) s e a h = ground arith

call-IsConsistent : (s : RelayLifecycle) (c : Call) → IsConsistent s → IsConsistent (after_call s c)
unfolding after_call
call-IsConsistent s starts v = ground arith
call-IsConsistent s connects v = ground arith
call-IsConsistent s elapses v = ground arith
call-IsConsistent s stops v = ground arith
call-IsConsistent s halts v = ground arith
call-IsConsistent s crashes v = ground arith
call-IsConsistent s (fails e) v = ground (arith, loss_at s.retry_attempt s e)
call-IsConsistent s (disconnects e) v = ground (arith, loss_at s.retry_attempt s e)

calls-IsConsistent :
    (s : RelayLifecycle) (cs : List Call) → IsConsistent s → IsConsistent (after_calls s cs)
unfolding after_calls
calls-IsConsistent s [] v = v
calls-IsConsistent s (c ∷ cs) v = calls-IsConsistent (after_call s c) cs (call-IsConsistent s c v)

-- After any sequence of calls on a new lifecycle the attempts are at most five, and the attempts,
-- the announced delay and the last error fit the phase: a waiting lifecycle announces the delay
-- that belongs to its attempt, and no other lifecycle announces one.
pub after_calls-new-IsConsistent : (cs : List Call) → IsConsistent (after_calls new cs)
unfolding new
after_calls-new-IsConsistent cs = calls-IsConsistent _ cs (ground arith)

-- From every state stopping ends in the state of a new lifecycle: at once, or with the `stopped`
-- that confirms the closing.
pub stop_ends_new : (s : RelayLifecycle) → ((stop s).0 ≡ new) ⊎ (stopped (stop s).0 ≡ (new, ok tt))
unfolding stop stopped new
stop_ends_new s = ground arith
