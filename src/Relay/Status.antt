-- ===== src/Relay/Status.antt =====
-- The status of a relay connection (crates/moe-relay-client/src/lifecycle.rs, with the error codes
-- of crates/moe-relay-client/src/lib.rs).
use m_i_o.Prelude.{ℕ, Option, List, [], ◌∷◌}

pub data RelayConnectionErrorCode : Type 0 where
  credential_missing secure_storage_unavailable secure_storage_failed : RelayConnectionErrorCode
  pairing_rejected pairing_expired pairing_used pairing_locked : RelayConnectionErrorCode
  relay_rejected relay_unavailable protocol cancelled already_active : RelayConnectionErrorCode
  runtime_unavailable : RelayConnectionErrorCode

abbrev pub relay_retry_delays_ms : List ℕ
relay_retry_delays_ms = 1000 ∷ 2000 ∷ 5000 ∷ 10000 ∷ 30000 ∷ []

pub data RelayRuntimePhase : Type 0 where
  offline connecting connected retry_waiting stopping error : RelayRuntimePhase

pub data RelayLifecycleAction : Type 0 where
  no_action start_connection close_connection cancel_retry : RelayLifecycleAction
  schedule_retry : (delay_ms : ℕ) → RelayLifecycleAction

pub data RelayLifecycleTransitionError : Type 0 where
  already_active invalid_transition : RelayLifecycleTransitionError

pub record RelayRuntimeStatus : Type 0 where
  pub phase : RelayRuntimePhase
  pub retry_attempt : ℕ
  pub next_retry_delay_ms : Option ℕ
  pub last_error_code : Option RelayConnectionErrorCode

pub record RelayLifecycle : Type 0 where
  pub status : RelayRuntimeStatus
  pub open status use *
