-- ===== src/LockPressure/Shedding.antt =====
-- messageInsertLockPressure.ts: when read receipts are shed.
use cse356_discord.Common.{
  ℕ, ◌+◌, ◌-◌, ◌≤◌, ◌<◌, ◌≡◌, refl, Bool, any, All, true, false, inl, inr, List, [], ◌∷◌, ◌++◌,
  arith, leb, lt→ltb, length, drop, drop-append, length-append, Bool-cases,
}
use cse356_discord.LockPressure.{
  Pressure, PressureEnv, drop_old_timeouts, prune, last_of, record_timeout_event,
  record_acquire_wait, should_trigger, has_healthy_window, get_should_defer_read_receipt, clamped,
  parse_read_shed_cooldown_ms, parse_window_ms,
}

-- Anything that the module is asked for, with its time.
pub data Call : Type 0 where
  waited : (wait_ms now : ℕ) → Call
  timed_out asked : (now : ℕ) → Call

abbrev pub time_of : Call → ℕ
time_of (waited wait_ms now) = now
time_of (timed_out now) = now
time_of (asked now) = now

unfoldable pub called : PressureEnv → Call → Pressure → Pressure
called env (waited wait_ms now) p = record_acquire_wait env wait_ms now p
called env (timed_out now) p = record_timeout_event env now p
called env (asked now) p = (get_should_defer_read_receipt env now p).0

-- The answers that a run of calls gives, in order.
unfoldable pub answers : PressureEnv → List Call → Pressure → List Bool
unfolding called
answers env [] p = []
answers env (asked now ∷ calls) p =
    (get_should_defer_read_receipt env now p).1 ∷ answers env calls (called env (asked now) p)
answers env (call ∷ calls) p = answers env calls (called env call p)

abbrev pub IsWithin : ℕ → ℕ → ℕ → Type 0
IsWithin least most t = (least ≤ t) × (t ≤ most)

-- The window has a timeout from `since` on.
abbrev has_since : ℕ → List ℕ → Bool
has_since since xs = any (λ x. leb since x) xs

drop_old_timeouts-has_since :
    (cutoff since : ℕ) (xs : List ℕ)
    → cutoff ≤ since
    → has_since since xs ≡ true
    → has_since since (drop_old_timeouts cutoff xs) ≡ true
unfolding drop_old_timeouts
drop_old_timeouts-has_since cutoff since [] h k = k
drop_old_timeouts-has_since cutoff since (x ∷ xs) h k =
    ground (arith, drop_old_timeouts-has_since cutoff since xs h)

has_since-append :
    (since now : ℕ) (xs : List ℕ) → since ≤ now → has_since since (xs ++ now ∷ []) ≡ true
has_since-append since now [] h = ground arith
has_since-append since now (x ∷ xs) h = ground (arith, has_since-append since now xs h)

has_since-length : (since : ℕ) (xs : List ℕ) → has_since since xs ≡ true → leb 1 (length xs) ≡ true
has_since-length since [] h = absurd (ground arith)
has_since-length since (x ∷ xs) h = ground arith

window_at_least : (env : PressureEnv) → 5000 ≤ parse_window_ms env
unfolding clamped
window_at_least env = ground arith

last_of-append :
    (now : ℕ) (xs : List ℕ)
    → last_of 128 (xs ++ now ∷ []) ≡ drop (length (xs ++ now ∷ []) - 128) xs ++ now ∷ []
last_of-append now xs =
    drop-append (length (xs ++ now ∷ []) - 128) xs (now ∷ [])
      (omega (arith, length-append xs (now ∷ [])))

-- What holds of the window in the five seconds after a timeout at `since`.
module _ (env : PressureEnv) (since now : ℕ) (h : IsWithin since (since + 5000) now) where
  prune-has_since :
      (p : Pressure)
      → has_since since p.timeout_timestamps ≡ true
      → has_since since (prune env now p).timeout_timestamps ≡ true
  unfolding prune
  prune-has_since p k =
      drop_old_timeouts-has_since (now - parse_window_ms env) since p.timeout_timestamps
        (omega (arith, window_at_least env, h.1)) k

  timed_out-has_since :
      (p : Pressure) → has_since since (record_timeout_event env now p).timeout_timestamps ≡ true
  unfolding record_timeout_event
  timed_out-has_since p =
      let kept : List ℕ = (prune env now p).timeout_timestamps in
      rw (last_of-append now kept)
        (has_since-append since now (drop (length (kept ++ now ∷ []) - 128) kept) h.0)

  triggered :
      (p : Pressure)
      → has_since since p.timeout_timestamps ≡ true
      → should_trigger env (prune env now p) ≡ true
  unfolding should_trigger
  triggered p k =
      rw (has_since-length since (prune env now p).timeout_timestamps (prune-has_since p k)) refl

  asked-defers :
      (p : Pressure)
      → has_since since p.timeout_timestamps ≡ true
      → ((get_should_defer_read_receipt env now p).1 ≡ true)
        × (has_since since (get_should_defer_read_receipt env now p).0.timeout_timestamps ≡ true)
  unfolding get_should_defer_read_receipt
  asked-defers p k = rw (triggered p k) (refl, prune-has_since p k)

called-has_since :
    (env : PressureEnv) (since : ℕ) (call : Call) (p : Pressure)
    → IsWithin since (since + 5000) (time_of call)
    → has_since since p.timeout_timestamps ≡ true
    → has_since since (called env call p).timeout_timestamps ≡ true
unfolding called record_acquire_wait
called-has_since env since (waited wait_ms now) p h k = prune-has_since env since now h p k
called-has_since env since (timed_out now) p h k = timed_out-has_since env since now h p
called-has_since env since (asked now) p h k = (asked-defers env since now h p k).1

answers-defer :
    (env : PressureEnv) (since : ℕ) (calls : List Call) (p : Pressure)
    → All (λ call. IsWithin since (since + 5000) (time_of call)) calls
    → has_since since p.timeout_timestamps ≡ true
    → All (λ answer. answer ≡ true) (answers env calls p)
unfolding answers
answers-defer env since [] p v k = tt
answers-defer env since (waited wait_ms now ∷ calls) p (h, v) k =
    answers-defer env since calls (called env (waited wait_ms now) p) v
      (called-has_since env since (waited wait_ms now) p h k)
answers-defer env since (timed_out now ∷ calls) p (h, v) k =
    answers-defer env since calls (called env (timed_out now) p) v
      (called-has_since env since (timed_out now) p h k)
answers-defer env since (asked now ∷ calls) p (h, v) k = (
  (asked-defers env since now h p k).0,
  answers-defer env since calls (called env (asked now) p) v
      (called-has_since env since (asked now) p h k),
)

-- After a lock timeout at `now`, whatever calls follow within five seconds, of waits, of further timeouts
-- and of questions, in whatever order, each question is answered that the read receipt is deferred,
-- whatever the environment says and whatever the window held before.
pub answers-after_timeout :
    (env : PressureEnv) (now : ℕ) (calls : List Call) (p : Pressure)
    → All (λ call. IsWithin now (now + 5000) (time_of call)) calls
    → All (λ answer. answer ≡ true) (answers env calls (record_timeout_event env now p))
answers-after_timeout env now calls p v =
    answers-defer env now calls (record_timeout_event env now p) v
      (timed_out-has_since env now now (omega arith, omega arith) p)

cooldown_at_least : (env : PressureEnv) → 500 ≤ parse_read_shed_cooldown_ms env
unfolding clamped
cooldown_at_least env = ground arith

triggered-until :
    (env : PressureEnv) (now : ℕ) (p : Pressure)
    → should_trigger env (prune env now p) ≡ true
    → now + 500 ≤ (get_should_defer_read_receipt env now p).0.read_shed_active_until_ms
unfolding get_should_defer_read_receipt
triggered-until env now p triggered = rw triggered (omega (arith, cooldown_at_least env))

cooling-defers :
    (env : PressureEnv) (now : ℕ) (p : Pressure)
    → now < p.read_shed_active_until_ms
    → has_healthy_window env (prune env now p) ≡ false
    → (get_should_defer_read_receipt env now p).1 ≡ true
unfolding get_should_defer_read_receipt prune
cooling-defers env now p soon unhealthy = elim (Bool-cases (should_trigger env (prune env now p))) [
  | inl triggered ↦ rw triggered refl
  | inr calm ↦ rw (calm, lt→ltb now p.read_shed_active_until_ms soon, unhealthy) refl
]

-- Once pressure triggered, read receipts stay deferred for at least half a second, unless by then the
-- window is a healthy one.
pub get_should_defer-cooldown :
    (env : PressureEnv) (now later : ℕ) (p : Pressure)
    → should_trigger env (prune env now p) ≡ true
    → later < now + 500
    → has_healthy_window env (prune env later (get_should_defer_read_receipt env now p).0) ≡ false
    → (get_should_defer_read_receipt env later (get_should_defer_read_receipt env now p).0).1 ≡ true
get_should_defer-cooldown env now later p triggered soon unhealthy =
    cooling-defers env later (get_should_defer_read_receipt env now p).0
      (omega (arith, triggered-until env now p triggered)) unhealthy
