-- ===== src/LockPressure/Window.antt =====
-- messageInsertLockPressure.ts: the window is bounded.
use cse356_discord.Common.{
  ℕ, ◌-◌, ◌≤◌, inl, inr, List, [], ◌∷◌, ◌++◌, arith, ltb, length, length-drop, Bool-cases,
}
use cse356_discord.LockPressure.{
  AcquireSample, Pressure, PressureEnv, drop_old_samples, drop_old_timeouts, prune, last_of,
  record_acquire_wait, record_timeout_event, should_trigger, has_healthy_window,
  get_should_defer_read_receipt, parse_p95_threshold_ms, parse_read_shed_recover_p95_ms, clamped,
  parse_window_ms,
}

pub record IsBounded (p : Pressure) : Type 0 where
  pub samples : length p.acquire_samples ≤ 512
  pub timeouts : length p.timeout_timestamps ≤ 128

length-last_of : {A : Type 0} (most : ℕ) (xs : List A) → length (last_of most xs) ≤ most
length-last_of most xs = omega (arith, length-drop (length xs - most) xs)

length-drop_old_samples :
    (cutoff : ℕ) (xs : List AcquireSample) → length (drop_old_samples cutoff xs) ≤ length xs
unfolding drop_old_samples
length-drop_old_samples cutoff [] = omega arith
length-drop_old_samples cutoff (x ∷ xs) = ground (arith, length-drop_old_samples cutoff xs)

length-drop_old_timeouts :
    (cutoff : ℕ) (xs : List ℕ) → length (drop_old_timeouts cutoff xs) ≤ length xs
unfolding drop_old_timeouts
length-drop_old_timeouts cutoff [] = omega arith
length-drop_old_timeouts cutoff (x ∷ xs) = ground (arith, length-drop_old_timeouts cutoff xs)

prune-IsBounded :
    (env : PressureEnv) (now : ℕ) (p : Pressure) → IsBounded p → IsBounded (prune env now p)
unfolding prune
prune-IsBounded env now p b = record {
  samples =
      omega
        (arith, b.samples, length-drop_old_samples (now - parse_window_ms env) p.acquire_samples);
  timeouts = omega (
    arith,
    b.timeouts,
    length-drop_old_timeouts (now - parse_window_ms env) p.timeout_timestamps,
  );
}

acquire_wait-IsBounded :
    (env : PressureEnv) (wait_ms now : ℕ) (p : Pressure)
    → IsBounded p
    → IsBounded (record_acquire_wait env wait_ms now p)
unfolding record_acquire_wait
acquire_wait-IsBounded env wait_ms now p b = record {
  samples =
      length-last_of 512
        ((prune env now p).acquire_samples ++ record { t = now; wait_ms = wait_ms } ∷ []);
  timeouts = (prune-IsBounded env now p b).timeouts;
}

timeout_event-IsBounded :
    (env : PressureEnv) (now : ℕ) (p : Pressure)
    → IsBounded p
    → IsBounded (record_timeout_event env now p)
unfolding record_timeout_event
timeout_event-IsBounded env now p b = record {
  samples = (prune-IsBounded env now p b).samples;
  timeouts = length-last_of 128 ((prune env now p).timeout_timestamps ++ now ∷ []);
}

defer-IsBounded :
    (env : PressureEnv) (now : ℕ) (p : Pressure)
    → IsBounded p
    → IsBounded (get_should_defer_read_receipt env now p).0
unfolding get_should_defer_read_receipt
defer-IsBounded env now p b =
    let w : IsBounded (prune env now p) = prune-IsBounded env now p b in
    elim (Bool-cases (should_trigger env (prune env now p))) [
      | inl triggered ↦ rw triggered record { samples = w.samples; timeouts = w.timeouts }
      | inr calm ↦ elim (Bool-cases (ltb now (prune env now p).read_shed_active_until_ms)) [
        | inr over ↦ rw (calm, over) w
        | inl cooling ↦ elim (Bool-cases (has_healthy_window env (prune env now p))) [
          | inl healthy ↦
              rw (calm, cooling, healthy) record { samples = w.samples; timeouts = w.timeouts }
          | inr unhealthy ↦ rw (calm, cooling, unhealthy) w
        ]
      ]
    ]

-- A window of at most 512 samples and 128 timeouts stays one, whichever of the three operations runs.
pub operations_keep-IsBounded :
    (env : PressureEnv) (wait_ms now : ℕ) (p : Pressure)
    → IsBounded p
    → IsBounded (record_acquire_wait env wait_ms now p)
      × IsBounded (record_timeout_event env now p)
      × IsBounded (get_should_defer_read_receipt env now p).0
operations_keep-IsBounded env wait_ms now p b = (
  acquire_wait-IsBounded env wait_ms now p b,
  timeout_event-IsBounded env now p b,
  defer-IsBounded env now p b,
)

-- Whatever the environment says, shedding starts at a 95th percentile from 200 to 500 ms and may end early
-- at one of at least 80 ms that is not above it.
pub recover_threshold-le :
    (env : PressureEnv)
    → (200 ≤ parse_p95_threshold_ms env)
      × (parse_p95_threshold_ms env ≤ 500)
      × (80 ≤ parse_read_shed_recover_p95_ms env (parse_p95_threshold_ms env))
      × (parse_read_shed_recover_p95_ms env (parse_p95_threshold_ms env)
          ≤ parse_p95_threshold_ms env)
unfolding clamped
recover_threshold-le env = (ground arith, ground arith, ground arith, ground arith)
