-- ===== src/Relay/Lifecycle.antt =====
-- The relay connection as a state machine (crates/moe-relay-client/src/lifecycle.rs): a method
-- returns the lifecycle as the call leaves it, and its result. The attempts are a `u8`.
pub mod Invariant
pub mod Retries
use m_i_o.Prelude.{
  ℕ, ◌+◌, ◌%◌, Bool, true, false, Option, none, some, List, [], ◌∷◌, get_elem?, Result, ok, err,
}
use m_i_o.Relay.Status.{
  RelayConnectionErrorCode, relay_unavailable, protocol, runtime_unavailable, relay_retry_delays_ms,
  RelayRuntimePhase, offline, connecting, retry_waiting, stopping, RelayLifecycleAction, no_action,
  start_connection, close_connection, cancel_retry, schedule_retry, RelayLifecycleTransitionError,
  already_active, invalid_transition, RelayRuntimeStatus, RelayLifecycle,
}

abbrev pub status_of : RelayRuntimePhase → RelayRuntimeStatus
status_of phase = record {
  phase = phase;
  retry_attempt = 0;
  next_retry_delay_ms = none;
  last_error_code = none;
}

unfoldable pub new : RelayLifecycle
new = record { status = status_of offline }

abbrev pub ActionStep : Type 0
ActionStep = RelayLifecycle × Result RelayLifecycleTransitionError RelayLifecycleAction

abbrev pub UnitStep : Type 0
UnitStep = RelayLifecycle × Result RelayLifecycleTransitionError (Unit {0})

unfoldable pub start : RelayLifecycle → ActionStep
start s = elim s.phase [
  | offline ↦ (record { status = status_of connecting }, ok start_connection)
  | RelayRuntimePhase.error ↦ (record { status = status_of connecting }, ok start_connection)
  | _ ↦ (s, err already_active)
]

unfoldable pub connected : RelayLifecycle → UnitStep
connected s = elim s.phase [
  | connecting ↦ (record { status = status_of RelayRuntimePhase.connected }, ok tt)
  | _ ↦ (s, err invalid_transition)
]

unfoldable pub is_retryable_connection_error : RelayConnectionErrorCode → Bool
is_retryable_connection_error relay_unavailable = true
is_retryable_connection_error protocol = true
is_retryable_connection_error _ = false

-- The delay of the next retry, if the error and the number of attempts allow one.
abbrev pub retry_delay : RelayConnectionErrorCode → ℕ → Option ℕ
retry_delay error_code attempt = elim (is_retryable_connection_error error_code) [
  | true ↦ get_elem? relay_retry_delays_ms attempt
  | false ↦ none
]

unfoldable pub after_connection_loss :
    RelayLifecycle → RelayConnectionErrorCode → RelayLifecycle × RelayLifecycleAction
unfolding is_retryable_connection_error
after_connection_loss s error_code = elim (retry_delay error_code s.retry_attempt) [
  | some delay_ms ↦ (
    record {
      status = record {
        phase = retry_waiting;
        retry_attempt = (s.retry_attempt + 1) % 256;
        next_retry_delay_ms = some delay_ms;
        last_error_code = some error_code;
      };
    },
    schedule_retry delay_ms,
  )
  | none ↦ (
    record {
      status = record {
        phase = RelayRuntimePhase.error;
        retry_attempt = s.retry_attempt;
        next_retry_delay_ms = none;
        last_error_code = some error_code;
      };
    },
    no_action,
  )
]

unfoldable pub connection_failed : RelayLifecycle → RelayConnectionErrorCode → ActionStep
unfolding after_connection_loss
connection_failed s error_code = elim s.phase [
  | connecting ↦ let (t, action) = after_connection_loss s error_code in (t, ok action)
  | _ ↦ (s, err invalid_transition)
]

unfoldable pub unexpected_disconnect : RelayLifecycle → RelayConnectionErrorCode → ActionStep
unfolding after_connection_loss
unexpected_disconnect s error_code = elim s.phase [
  | RelayRuntimePhase.connected ↦
      let (t, action) = after_connection_loss s error_code in (t, ok action)
  | _ ↦ (s, err invalid_transition)
]

unfoldable pub retry_elapsed : RelayLifecycle → ActionStep
retry_elapsed s = elim s.phase [
  | retry_waiting ↦ (
    record { status = record s.status { phase = connecting; next_retry_delay_ms = none } },
    ok start_connection,
  )
  | _ ↦ (s, err invalid_transition)
]

unfoldable pub reset_offline : RelayLifecycle → RelayLifecycle
reset_offline s = record { status = status_of offline }

unfoldable pub stop : RelayLifecycle → RelayLifecycle × RelayLifecycleAction
unfolding reset_offline
stop s = elim s.phase [
  | offline ↦ (reset_offline s, no_action)
  | connecting ↦ (closing, close_connection)
  | RelayRuntimePhase.connected ↦ (closing, close_connection)
  | retry_waiting ↦ (reset_offline s, cancel_retry)
  | stopping ↦ (s, no_action)
  | RelayRuntimePhase.error ↦ (reset_offline s, no_action)
]
  where
    closing : RelayLifecycle
    closing = record { status = record s.status { phase = stopping; next_retry_delay_ms = none } }

unfoldable pub stopped : RelayLifecycle → UnitStep
unfolding reset_offline
stopped s = elim s.phase [ stopping ↦ (reset_offline s, ok tt) | _ ↦ (s, err invalid_transition) ]

unfoldable pub runtime_failed : RelayLifecycle → RelayLifecycle
runtime_failed s = record {
  status = record s.status {
    phase = RelayRuntimePhase.error;
    next_retry_delay_ms = none;
    last_error_code = some runtime_unavailable;
  };
}

-- A call of one of the methods above.
pub data Call : Type 0 where
  starts connects elapses stops halts crashes : Call
  fails disconnects : RelayConnectionErrorCode → Call

unfoldable pub after_call : RelayLifecycle → Call → RelayLifecycle
unfolding start connected connection_failed unexpected_disconnect retry_elapsed stop stopped
    runtime_failed
after_call s starts = (start s).0
after_call s connects = (connected s).0
after_call s elapses = (retry_elapsed s).0
after_call s stops = (stop s).0
after_call s halts = (stopped s).0
after_call s crashes = runtime_failed s
after_call s (fails e) = (connection_failed s e).0
after_call s (disconnects e) = (unexpected_disconnect s e).0

unfoldable pub after_calls : RelayLifecycle → List Call → RelayLifecycle
after_calls s [] = s
after_calls s (c ∷ cs) = after_calls (after_call s c) cs
