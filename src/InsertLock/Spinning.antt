-- ===== src/InsertLock/Spinning.antt =====
-- The polling loop of `acquireChannelInsertLease` ends, and how long it sleeps.
use native.Mathlib.Nat.{pow-suc}
use cse356_discord.Common.{
  ℕ, zero, suc, ◌+◌, ◌*◌, ◌^◌, ◌≤◌, ◌<◌, ◌≢◌, String, List, [], ◌∷◌, arith, length,
}
use cse356_discord.InsertLock.Queue.{Entry, Locks, LockConfig}
use cse356_discord.InsertLock.Acquire.{Attempt, still_spinning, redis_spin, jittered_sleep_ms}

-- The clock does not run backwards, and moves across the sleep between two attempts.
abbrev pub IsTicking : ℕ → List Attempt → Type 0
IsTicking t [] = Unit {0}
IsTicking t (a ∷ attempts) =
    (t ≤ a.tested_at) × (a.tested_at ≤ a.looked_at) × IsTicking (a.looked_at + 1) attempts

-- If the clock goes forward at each attempt and the loop starts before the deadline, then however
-- Redis answers it has come to a lease, to the fallback or to a time-out after as many attempts as
-- there are milliseconds up to the deadline.
pub redis_spin-ends :
    (c : LockConfig) (channel : String) (e : Entry) (started_at t : ℕ) (attempts : List Attempt)
    (s : Locks)
    → IsTicking t attempts
    → t ≤ e.deadline_ms
    → e.deadline_ms < t + length attempts
    → (redis_spin c channel e started_at attempts s).1 ≢ still_spinning
unfolding redis_spin
redis_spin-ends c channel e started_at t [] s ticking early enough = absurd (omega arith)
redis_spin-ends c channel e started_at t (a ∷ attempts) s (p, q, r) early enough =
    ground (arith, redis_spin-ends c channel e started_at (a.looked_at + 1) attempts s r)

pow_pos : (k : ℕ) → 0 < 2 ^ k
pow_pos zero = omega arith
pow_pos (suc k) = rw (pow-suc 2 k) (omega (arith, pow_pos k))

le-mul_pos : (a b : ℕ) → 0 < b → a ≤ a * b
le-mul_pos a b h = grind arith

-- If the lower poll bound is not above the upper one, every sleep lies between the two.
pub jittered_sleep_ms_bounds :
    (c : LockConfig) (random_below : ℕ → ℕ) (attempt : ℕ)
    → c.poll_min_ms ≤ c.poll_max_ms
    → (c.poll_min_ms ≤ jittered_sleep_ms c random_below attempt)
      × (jittered_sleep_ms c random_below attempt ≤ c.poll_max_ms)
unfolding jittered_sleep_ms
jittered_sleep_ms_bounds c random_below attempt h =
    let enough : c.poll_min_ms ≤ c.poll_min_ms * 2 ^ attempt =
      le-mul_pos c.poll_min_ms (2 ^ attempt) (pow_pos attempt) in
    (omega arith, omega arith)
