-- ===== src/Relay/Lifecycle/Retries.antt =====
-- How often, and how late, a lost relay connection is tried again
-- (crates/moe-relay-client/src/lifecycle.rs).
use m_i_o.Prelude.{
  ℕ, zero, suc, ◌+◌, ◌≤◌, ◌<◌, ◌≡◌, refl, true, none, some, List, [], ◌∷◌, arith, get_elem?, length,
  drop, take, ok, if◌then◌else◌, leb, All, ◌++◌, ap, ◌⊎◌, inl, inr,
}
use m_i_o.Relay.Status.{
  RelayConnectionErrorCode, relay_retry_delays_ms, RelayRuntimePhase, connecting, RelayLifecycle,
  schedule_retry,
}
use m_i_o.Relay.Lifecycle.{
  connection_failed, retry_elapsed, after_connection_loss, is_retryable_connection_error,
}

-- A failed connection whose retry timer then elapses: the lifecycle, and the delay scheduled.
pub round : RelayLifecycle → RelayConnectionErrorCode → RelayLifecycle × List ℕ
unfolding connection_failed retry_elapsed
round s e = elim (connection_failed s e).1 [
  | ok (schedule_retry delay) ↦ ((retry_elapsed (connection_failed s e).0).0, delay ∷ [])
  | _ ↦ ((connection_failed s e).0, [])
]

-- An outage: round after round with these errors.
pub outage : RelayLifecycle → List RelayConnectionErrorCode → RelayLifecycle × List ℕ
outage s [] = (s, [])
outage s (e ∷ es) = let (t, now) = round s e in let (u, later) = outage t es in (u, now ++ later)

outage_over :
    (s : RelayLifecycle) (es : List RelayConnectionErrorCode)
    → s.phase ≡ RelayRuntimePhase.error
    → outage s es ≡ (s, [])
unfolding outage round
outage_over s [] h = refl
outage_over s (e ∷ es) h = ground (arith, outage_over s es h)

drop_step : (k d : ℕ) (xs : List ℕ) → get_elem? xs k ≡ some d → drop k xs ≡ d ∷ drop (suc k) xs
drop_step k d [] h = cc
drop_step zero d (x ∷ xs) h = ground arith
drop_step (suc k) d (x ∷ xs) h = drop_step k d xs h

drop_past : (k : ℕ) (xs : List ℕ) → get_elem? xs k ≡ none → drop k xs ≡ []
drop_past zero [] h = refl
drop_past (suc k) [] h = refl
drop_past zero (x ∷ xs) h = cc
drop_past (suc k) (x ∷ xs) h = drop_past k xs h

index_range :
    (k : ℕ) (xs : List ℕ)
    → ((get_elem? xs k ≡ none) × (length xs ≤ k))
      ⊎ ((d : ℕ) × (get_elem? xs k ≡ some d) × (k < length xs))
index_range k [] = inl (refl, omega arith)
index_range zero (x ∷ xs) = inr (x, refl, omega arith)
index_range (suc k) (x ∷ xs) = elim (index_range k xs) [
  | inl (e, h) ↦ inl (e, omega arith)
  | inr (d, e, h) ↦ inr (d, e, omega arith)
]

abbrev pub IsRetryable : RelayConnectionErrorCode → Type 0
IsRetryable e = is_retryable_connection_error e ≡ true

-- A retryable failure while an attempt is left: the timer of that attempt, then a new connection.
round_retries :
    (s : RelayLifecycle) (e : RelayConnectionErrorCode) (k d : ℕ)
    → s.phase ≡ connecting
    → s.retry_attempt ≡ k
    → k < 5
    → IsRetryable e
    → get_elem? relay_retry_delays_ms k ≡ some d
    → ((round s e).0.phase ≡ connecting)
      × ((round s e).0.retry_attempt ≡ k + 1)
      × ((round s e).1 ≡ d ∷ [])
unfolding round after_connection_loss
round_retries s e k d p a h r at = ground arith

round_gives_up :
    (s : RelayLifecycle) (e : RelayConnectionErrorCode) (k : ℕ)
    → s.phase ≡ connecting
    → s.retry_attempt ≡ k
    → get_elem? relay_retry_delays_ms k ≡ none
    → ((round s e).0.phase ≡ RelayRuntimePhase.error) × ((round s e).1 ≡ [])
unfolding round after_connection_loss
round_gives_up s e k p a at = ground arith

-- From a connecting lifecycle that has used `k` attempts, retryable failures schedule exactly the
-- delays from the `k`-th on, one for each failure, until the five are used up; with one failure
-- more than that the lifecycle is in error, and until then it is connecting again.
pub outage_delays :
    (s : RelayLifecycle) (es : List RelayConnectionErrorCode) (k : ℕ)
    → s.phase ≡ connecting
    → s.retry_attempt ≡ k
    → k ≤ 5
    → All IsRetryable es
    → ((outage s es).1 ≡ take (length es) (drop k relay_retry_delays_ms))
      × ((outage s es).0.phase
          ≡ (if leb (k + length es) 5 then connecting else RelayRuntimePhase.error))
unfolding outage
outage_delays s [] k p a h r = ground arith
outage_delays s (e ∷ es) k p a h r = elim (index_range k relay_retry_delays_ms) [
  | inl (past, end) ↦
      let over = round_gives_up s e k p a past in
      ground (
        arith,
        over,
        outage_over (round s e).0 es over.0,
        ap (take (suc (length es))) (drop_past k relay_retry_delays_ms past),
      )
  | inr (d, at, left) ↦
      let again = round_retries s e k d p a left r.0 at in
      let rest = outage_delays (round s e).0 es (suc k) again.0 (ground (arith, again)) left r.1 in
      ground
        (arith, again, rest, ap (take (suc (length es))) (drop_step k d relay_retry_delays_ms at))
]
