-- ===== src/ReplayAdmission/Waiting.antt =====
-- replayAdmissionState.ts: the wait for the replay gate ends, within bounds, for one of three reasons.
use cse356_discord.Common.{
  ℕ, zero, suc, ◌+◌, ◌*◌, ◌≤◌, ◌<◌, ◌≡◌, false, inl, inr, arith, Bool-cases,
}
use cse356_discord.ReplayAdmission.{
  ReplayAdmissionConfig, Moment, is_ok, gate_at, compute_replay_deferred_delay_ms, wait_loop,
  wait_for_replay_gate_open,
}

delay-le :
    (attempt jitter : ℕ) (c : ReplayAdmissionConfig)
    → jitter < 150
    → compute_replay_deferred_delay_ms attempt c jitter ≤ c.replay_defer_max_delay_ms + 149
unfolding compute_replay_deferred_delay_ms
delay-le attempt jitter c small = omega arith

module _ (c : ReplayAdmissionConfig) (at_attempt : ℕ → Moment) where
  abbrev longest : ℕ
  longest = c.replay_defer_max_delay_ms + 149

  wait_loop-bounds :
      ((n : ℕ) → (at_attempt n).jitter < 150)
      → (left n total : ℕ)
      → (wait_loop c at_attempt left n total).total_wait_ms ≤ total + left * longest
  unfolding wait_loop
  wait_loop-bounds small zero n total = omega arith
  wait_loop-bounds small (suc left) n total = elim (Bool-cases (is_ok (gate_at c (at_attempt n)))) [
    | inl ok ↦ rw ok (omega arith)
    | inr shut ↦ elim (Bool-cases (at_attempt n).is_socket_open) [
      | inr closed ↦ rw (shut, closed) (omega arith)
      | inl opened ↦
          rw (shut, opened)
            (omega (
              arith,
              wait_loop-bounds small left (n + 1)
                  (total + compute_replay_deferred_delay_ms (n + 1) c (at_attempt n).jitter),
              delay-le (n + 1) (at_attempt n).jitter c (small n),
            ))
    ]
  ]

  wait_loop-attempts :
      (left n total : ℕ) → (wait_loop c at_attempt left n total).attempts ≤ n + left
  unfolding wait_loop
  wait_loop-attempts zero n total = omega arith
  wait_loop-attempts (suc left) n total = elim (Bool-cases (is_ok (gate_at c (at_attempt n)))) [
    | inl ok ↦ rw ok (omega arith)
    | inr shut ↦ elim (Bool-cases (at_attempt n).is_socket_open) [
      | inr closed ↦ rw (shut, closed) (omega arith)
      | inl opened ↦ rw (shut, opened) (omega (arith, wait_loop-attempts left (n + 1) _))
    ]
  ]

  -- A wait that ends shut, and not because the socket closed, has used up its attempts.
  wait_loop-gives_up :
      (left n total : ℕ)
      → (wait_loop c at_attempt left n total).cancelled ≡ false
      → is_ok (wait_loop c at_attempt left n total).gate ≡ false
      → (wait_loop c at_attempt left n total).attempts ≡ n + left
  unfolding wait_loop
  wait_loop-gives_up zero n total going shut = omega arith
  wait_loop-gives_up (suc left) n total going shut =
      elim (Bool-cases (is_ok (gate_at c (at_attempt n)))) [
        | inl ok ↦ absurd (ground (arith, rw ok at shut, ok))
        | inr not_yet ↦ elim (Bool-cases (at_attempt n).is_socket_open) [
          | inr closed ↦ absurd (ground (arith, rw (not_yet, closed) at going))
          | inl opened ↦
              rw (not_yet, opened)
                (omega (
                  arith,
                  wait_loop-gives_up left (n + 1) _ (rw (not_yet, opened) at going)
                      (rw (not_yet, opened) at shut),
                ))
        ]
      ]

-- If the random part of each delay is below 150 ms, then whatever else the process observes a wait
-- makes no more attempts than configured, and it sleeps for at most that many times the longest
-- delay, the random part included.
pub wait_for_replay_gate_open-bounds :
    (c : ReplayAdmissionConfig) (at_attempt : ℕ → Moment)
    → ((n : ℕ) → (at_attempt n).jitter < 150)
    → ((wait_for_replay_gate_open c at_attempt).attempts ≤ c.replay_defer_max_attempts)
      × ((wait_for_replay_gate_open c at_attempt).total_wait_ms
          ≤ c.replay_defer_max_attempts * (c.replay_defer_max_delay_ms + 149))
unfolding wait_for_replay_gate_open
wait_for_replay_gate_open-bounds c at_attempt small = (
  omega (arith, wait_loop-attempts c at_attempt c.replay_defer_max_attempts 0 0),
  omega (arith, wait_loop-bounds c at_attempt small c.replay_defer_max_attempts 0 0),
)

-- A wait that was not cancelled and ends with the gate shut gave up only after its last attempt.
pub wait_for_replay_gate_open-gives_up :
    (c : ReplayAdmissionConfig) (at_attempt : ℕ → Moment)
    → (wait_for_replay_gate_open c at_attempt).cancelled ≡ false
    → is_ok (wait_for_replay_gate_open c at_attempt).gate ≡ false
    → (wait_for_replay_gate_open c at_attempt).attempts ≡ c.replay_defer_max_attempts
unfolding wait_for_replay_gate_open
wait_for_replay_gate_open-gives_up c at_attempt going shut =
    omega (arith, wait_loop-gives_up c at_attempt c.replay_defer_max_attempts 0 0 going shut)
