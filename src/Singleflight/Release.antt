-- ===== src/Singleflight/Release.antt =====
-- Whose lock a run of distributedSingleflight.ts releases.
use cse356_discord.Common.{
  ℕ, ◌≡◌, Bool, true, false, Option, none, some, arith, ◌==◌, nat_eq, map_get,
}
use cse356_discord.Value.{Value}
use cse356_discord.Singleflight.{
  Phase, locking, reading_stale, polling, reading_fresh, loading, releasing, Run, Outcome, Flights,
  Params, Reply, answered, failed, set_nx, release_lock, join_or_start,
  with_distributed_singleflight, finish, without_lock, lock_replied, stale_answered, poll,
  fresh_answered, Event, called, replies, reads, throws, wakes, loads, releases, lock_expires,
  run_replied, run_read, run_threw, run_woke, run_loaded, run_released, happen,
}
use cse356_discord.Singleflight.Runs.{on_run-keeps}

-- The events that may take the lock from the run with token `t`: its own release, and the expiry.
abbrev pub may_free : ℕ → Event → Bool
may_free t lock_expires = true
may_free t (releases is_reachable token) = token == t
may_free t _ = false

abbrev Has : ℕ → Flights → Type 0
Has t s = s.lock ≡ some t

run_replied-keeps :
    (p : Params) (t now : ℕ) (reply : Reply) (token : ℕ) (phase : Phase) (run : Run) (s : Flights)
    → Has t s
    → Has t (run_replied p now reply token phase run s)
unfolding run_replied lock_replied without_lock set_nx
run_replied-keeps p t now answered token locking run s h = rw h (ground arith)
run_replied-keeps p t now (failed true) token locking run s h = rw h (ground arith)
run_replied-keeps p t now (failed false) token locking run s h = ground arith
run_replied-keeps p t now reply token _ run s h = h

run_read-keeps :
    (p : Params) (t now : ℕ) (answer : Option Value) (token : ℕ) (phase : Phase) (run : Run)
    (s : Flights)
    → Has t s
    → Has t (run_read p now answer token phase run s)
unfolding run_read stale_answered fresh_answered finish
run_read-keeps p t now (some v) token reading_stale run s h = h
run_read-keeps p t now none token reading_stale run s h = h
run_read-keeps p t now (some v) token (reading_fresh deadline) run s h = h
run_read-keeps p t now none token (reading_fresh deadline) run s h = h
run_read-keeps p t now answer token _ run s h = h

run_threw-keeps :
    (t token : ℕ) (phase : Phase) (run : Run) (s : Flights)
    → Has t s
    → Has t (run_threw token phase run s)
unfolding run_threw finish
run_threw-keeps t token reading_stale run s h = h
run_threw-keeps t token (reading_fresh deadline) run s h = h
run_threw-keeps t token _ run s h = h

run_woke-keeps :
    (t now token : ℕ) (phase : Phase) (run : Run) (s : Flights)
    → Has t s
    → Has t (run_woke now token phase run s)
unfolding run_woke poll
run_woke-keeps t now token (polling deadline) run s h = ground arith
run_woke-keeps t now token _ run s h = h

run_loaded-keeps :
    (t : ℕ) (outcome : Outcome) (token : ℕ) (phase : Phase) (run : Run) (s : Flights)
    → Has t s
    → Has t (run_loaded outcome token phase run s)
unfolding run_loaded finish
run_loaded-keeps t outcome token (loading true) run s h = h
run_loaded-keeps t outcome token (loading false) run s h = h
run_loaded-keeps t outcome token _ run s h = h

run_released-keeps :
    (t : ℕ) (is_reachable : Bool) (token : ℕ) (phase : Phase) (run : Run) (s : Flights)
    → (token == t) ≡ false
    → Has t s
    → Has t (run_released is_reachable token phase run s)
unfolding run_released finish release_lock
run_released-keeps t true token (releasing outcome) run s other h = rw h (ground (arith, other))
run_released-keeps t false token (releasing outcome) run s other h = h
run_released-keeps t is_reachable token _ run s other h = h

join_or_start-keeps :
    (t process : ℕ) (found : Option ℕ) (s : Flights)
    → Has t s
    → Has t (join_or_start process found s).0
unfolding join_or_start
join_or_start-keeps t process (some token) s h = h
join_or_start-keeps t process none s h = h

-- In any state, a lock that Redis has under the token of one run stays through everything but its expiry
-- and that run's own release: a run whose lock expired does not free the lock that another took since.
pub happen-keeps_lock :
    (p : Params) (t : ℕ) (event : Event) (s : Flights)
    → may_free t event ≡ false
    → s.lock ≡ some t
    → (happen p event s).lock ≡ some t
unfolding happen with_distributed_singleflight
happen-keeps_lock p t (called process) s k h =
    join_or_start-keeps t process (map_get process s.inflight) s h
happen-keeps_lock p t (replies now reply token) s k h =
    on_run-keeps (Has t) (λ u. run_replied p now reply u) token s h
      (λ run found. run_replied-keeps p t now reply token run.phase run s h)
happen-keeps_lock p t (reads now answer token) s k h =
    on_run-keeps (Has t) (λ u. run_read p now answer u) token s h
      (λ run found. run_read-keeps p t now answer token run.phase run s h)
happen-keeps_lock p t (throws token) s k h =
    on_run-keeps (Has t) run_threw token s h
      (λ run found. run_threw-keeps t token run.phase run s h)
happen-keeps_lock p t (wakes now token) s k h =
    on_run-keeps (Has t) (λ u. run_woke now u) token s h
      (λ run found. run_woke-keeps t now token run.phase run s h)
happen-keeps_lock p t (loads outcome token) s k h =
    on_run-keeps (Has t) (λ u. run_loaded outcome u) token s h
      (λ run found. run_loaded-keeps t outcome token run.phase run s h)
happen-keeps_lock p t (releases is_reachable token) s k h =
    on_run-keeps (Has t) (λ u. run_released is_reachable u) token s h
      (λ run found. run_released-keeps t is_reachable token run.phase run s k h)
happen-keeps_lock p t lock_expires s k h = absurd (ground arith)
