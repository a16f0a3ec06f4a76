-- ===== src/Relay/Samples.antt =====
-- Small runs of the relay lifecycle (crates/moe-relay-client/src/lifecycle.rs), at which the
-- theorems are applied.
use m_i_o.Prelude.{
  ◌+◌, ◌≡◌, refl, List, [], ◌∷◌, arith, length, take, drop, leb, if◌then◌else◌, All,
}
use m_i_o.Relay.Status.{
  RelayConnectionErrorCode, relay_unavailable, protocol, relay_retry_delays_ms, RelayRuntimePhase,
  connecting, RelayLifecycle,
}
use m_i_o.Relay.Lifecycle.{
  new, is_retryable_connection_error, status_of, Call, starts, connects, fails, elapses,
  disconnects, after_calls,
}
use m_i_o.Relay.Lifecycle.Invariant.{IsConsistent, after_calls-new-IsConsistent}
use m_i_o.Relay.Lifecycle.Retries.{outage, IsRetryable, outage_delays}

abbrev lost : List Call
lost = starts ∷ fails protocol ∷ elapses ∷ connects ∷ disconnects relay_unavailable ∷ []

after_calls-new-IsConsistent_example : IsConsistent (after_calls new lost)
after_calls-new-IsConsistent_example = after_calls-new-IsConsistent lost

abbrev opening : RelayLifecycle
opening = record { status = status_of connecting }

abbrev errors : List RelayConnectionErrorCode
errors = relay_unavailable ∷ protocol ∷ relay_unavailable ∷ []

errors-IsRetryable : All IsRetryable errors
unfolding is_retryable_connection_error
errors-IsRetryable = (refl, (refl, (refl, tt)))

outage_delays_example :
    ((outage opening errors).1 ≡ take (length errors) (drop 0 relay_retry_delays_ms))
    × ((outage opening errors).0.phase
        ≡ (if leb (0 + length errors) 5 then connecting else RelayRuntimePhase.error))
outage_delays_example = outage_delays opening errors 0 refl refl (omega arith) errors-IsRetryable
