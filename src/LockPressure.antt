-- ===== src/LockPressure.antt =====
-- backend/src/messages/messageInsertLockPressure.ts: the rolling window of insert-lock waits and timeouts
-- that sheds read receipts. Time is an argument; an environment variable is `none` where parseInt gives no
-- number, and negative numbers are read as 0, which the lower bounds make the same. Up to the 512 samples
-- that are kept, `Math.ceil(0.95 * n)` in floating point is the ceiling of 95 n / 100.
pub mod Window
pub mod Shedding
pub mod Tests
use cse356_discord.Common.{
  ℕ, zero, suc, ◌+◌, ◌-◌, ◌*◌, ◌/◌, min, max, String, Bool, true, false, not, ◌&&◌, ◌||◌, Option,
  none, some, List, [], ◌∷◌, ◌++◌, map, ltb, leb, if◌then◌else◌, ◌==◌, nat_eq, length, drop,
  get_elem?, any,
}

pub record AcquireSample : Type 0 where
  pub t : ℕ
  pub wait_ms : ℕ

-- The module's variables.
pub record Pressure : Type 0 where
  pub acquire_samples : List AcquireSample
  pub timeout_timestamps : List ℕ
  pub read_shed_active_until_ms : ℕ

pub record PressureEnv : Type 0 where
  pub window_ms : Option ℕ
  pub wait_p95_ms : Option ℕ
  pub min_samples_for_p95 : Option ℕ
  pub cooldown_ms : Option ℕ
  pub recover_p95_ms : Option ℕ

-- `Number.isFinite(v) ? Math.min(most, Math.max(least, v)) : fallback`
unfoldable pub clamped : Option ℕ → ℕ → ℕ → ℕ → ℕ
clamped none least most fallback = fallback
clamped (some v) least most fallback = min most (max least v)

abbrev pub parse_window_ms : PressureEnv → ℕ
parse_window_ms env = clamped env.window_ms 5000 120000 30000

abbrev pub parse_p95_threshold_ms : PressureEnv → ℕ
parse_p95_threshold_ms env = clamped env.wait_p95_ms 200 500 320

abbrev pub parse_min_samples_for_p95 : PressureEnv → ℕ
parse_min_samples_for_p95 env = clamped env.min_samples_for_p95 1 100 6

abbrev pub parse_read_shed_cooldown_ms : PressureEnv → ℕ
parse_read_shed_cooldown_ms env = clamped env.cooldown_ms 500 15000 3000

abbrev pub parse_read_shed_recover_p95_ms : PressureEnv → ℕ → ℕ
parse_read_shed_recover_p95_ms env trigger =
    clamped env.recover_p95_ms 80 trigger (max 120 (trigger - 80))

unfoldable pub drop_old_samples : ℕ → List AcquireSample → List AcquireSample
drop_old_samples cutoff [] = []
drop_old_samples cutoff (x ∷ xs) = if ltb x.t cutoff then drop_old_samples cutoff xs else x ∷ xs

unfoldable pub drop_old_timeouts : ℕ → List ℕ → List ℕ
drop_old_timeouts cutoff [] = []
drop_old_timeouts cutoff (x ∷ xs) = if ltb x cutoff then drop_old_timeouts cutoff xs else x ∷ xs

unfoldable pub prune : PressureEnv → ℕ → Pressure → Pressure
prune env now p =
    let cutoff : ℕ = now - parse_window_ms env in
    record p {
      acquire_samples = drop_old_samples cutoff p.acquire_samples;
      timeout_timestamps = drop_old_timeouts cutoff p.timeout_timestamps;
    }

insert_ascending : ℕ → List ℕ → List ℕ
insert_ascending a [] = a ∷ []
insert_ascending a (x ∷ xs) = if leb a x then a ∷ x ∷ xs else x ∷ insert_ascending a xs

-- `[...values].sort((a, b) => a - b)`
unfoldable pub sorted : List ℕ → List ℕ
unfolding insert_ascending
sorted [] = []
sorted (x ∷ xs) = insert_ascending x (sorted xs)

abbrev or_zero : Option ℕ → ℕ
or_zero none = 0
or_zero (some n) = n

unfoldable pub percentile95 : List ℕ → ℕ
percentile95 values =
    or_zero
      (get_elem? (sorted values) (min (length values - 1) ((95 * length values + 99) / 100 - 1)))

abbrev pub last_of {ℓ} : {A : Type ℓ} → ℕ → List A → List A
last_of most xs = drop (length xs - most) xs

unfoldable pub record_acquire_wait : PressureEnv → ℕ → ℕ → Pressure → Pressure
record_acquire_wait env wait_ms now p = record p {
  acquire_samples =
      last_of 512 ((prune env now p).acquire_samples ++ record { t = now; wait_ms = wait_ms } ∷ []);
  timeout_timestamps = (prune env now p).timeout_timestamps;
}

unfoldable pub record_timeout_event : PressureEnv → ℕ → Pressure → Pressure
record_timeout_event env now p = record p {
  acquire_samples = (prune env now p).acquire_samples;
  timeout_timestamps = last_of 128 ((prune env now p).timeout_timestamps ++ now ∷ []);
}

abbrev pub waits_of : List AcquireSample → List ℕ
waits_of [] = []
waits_of (x ∷ xs) = x.wait_ms ∷ waits_of xs

-- `shouldTrigger`, on a window that was pruned
unfoldable pub should_trigger : PressureEnv → Pressure → Bool
should_trigger env p =
    let waits : List ℕ = waits_of p.acquire_samples in
    leb 1 (length p.timeout_timestamps)
    || (leb (parse_min_samples_for_p95 env) (length waits)
        && ltb (parse_p95_threshold_ms env) (percentile95 waits))
    || (leb 4 (length waits) && any (λ w. leb 380 w) waits)

unfoldable pub has_healthy_window : PressureEnv → Pressure → Bool
has_healthy_window env p =
    let waits : List ℕ = waits_of p.acquire_samples in
    leb (max 4 (parse_min_samples_for_p95 env)) (length waits)
    && (length p.timeout_timestamps == 0)
    && leb (percentile95 waits) (parse_read_shed_recover_p95_ms env (parse_p95_threshold_ms env))
    && not (any (λ w. leb 340 w) waits)

-- The second component is the function's result.
unfoldable pub get_should_defer_read_receipt : PressureEnv → ℕ → Pressure → Pressure × Bool
get_should_defer_read_receipt env now p =
    let w : Pressure = prune env now p in
    if should_trigger env w
    then (
      record w {
        read_shed_active_until_ms =
            max w.read_shed_active_until_ms (now + parse_read_shed_cooldown_ms env);
      },
      true,
    )
    else (if ltb now w.read_shed_active_until_ms
        then (if has_healthy_window env w
            then (record w { read_shed_active_until_ms = 0 }, false)
            else (w, true))
        else (w, false))
