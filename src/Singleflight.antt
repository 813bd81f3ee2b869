-- ===== src/Singleflight.antt =====
-- backend/src/utils/distributedSingleflight.ts: one load of a cached value at a time, over processes. The
-- state is that of one cache key; a process is a number, and so is a token, fresh for each run. A run is
-- cut at its awaits. What the callbacks `load`, `readFresh` and `readStale` give is an argument.
pub mod Ttl
pub mod Runs
pub mod Holding
pub mod Inflight
pub mod Exclusion
pub mod Release
pub mod Tests
use cse356_discord.Common.{
  ℕ, ◌+◌, Bool, true, false, not, ◌&&◌, Option, none, some, List, [], ◌∷◌, min, max, ltb,
  if◌then◌else◌, ◌==◌, nat_eq, map_get, map_set, map_delete,
}
use cse356_discord.Value.{Value}

-- How the promise of a run is settled.
pub data Outcome : Type 0 where
  resolved : Value → Outcome
  rejected : Outcome

-- Where a run waits; a load knows whether its run has the lock.
pub data Phase : Type 0 where
  locking reading_stale : Phase
  polling reading_fresh : (deadline : ℕ) → Phase
  loading : (lock_acquired : Bool) → Phase
  releasing : Outcome → Phase

pub record Run : Type 0 where
  pub process : ℕ
  pub phase : Phase

-- `lock` is what Redis has under the key of the lock.
pub record Flights : Type 0 where
  pub lock : Option ℕ
  pub inflight : List (ℕ × ℕ)
  pub runs : List (ℕ × Run)
  pub settled : List (ℕ × Outcome)
  pub next_token : ℕ

abbrev pub idle_flights : Flights
idle_flights = record { lock = none; inflight = []; runs = []; settled = []; next_token = 0 }

-- What the caller gave: whether there is a `readStale`, and `waitForFreshMs`.
pub record Params : Type 0 where
  pub has_read_stale : Bool
  pub wait_for_fresh_ms : ℕ

abbrev pub clamp_int : ℕ → ℕ → ℕ → ℕ
clamp_int n lo hi = min hi (max lo n)

-- The reply to `SET NX`: as Redis applies it, or an error, before or after Redis applied it.
pub data Reply : Type 0 where
  answered : Reply
  failed : (was_applied : Bool) → Reply

unfoldable pub set_nx : ℕ → Option ℕ → Option ℕ
set_nx token none = some token
set_nx token (some held) = some held

-- `LOCK_RELEASE_IF_MATCH_LUA`
unfoldable pub release_lock : ℕ → Option ℕ → Option ℕ
release_lock token none = none
release_lock token (some held) = if held == token then none else some held

-- The token of the run that the caller's promise is the promise of.
unfoldable pub join_or_start : ℕ → Option ℕ → Flights → Flights × ℕ
join_or_start process (some token) s = (s, token)
join_or_start process none s = (
  record s {
    inflight = map_set process s.next_token s.inflight;
    runs = map_set s.next_token (record { process = process; phase = locking }) s.runs;
    next_token = s.next_token + 1;
  },
  s.next_token,
)

unfoldable pub with_distributed_singleflight : ℕ → Flights → Flights × ℕ
unfolding join_or_start
with_distributed_singleflight process s = join_or_start process (map_get process s.inflight) s

abbrev pub at_phase : ℕ → Run → Phase → Flights → Flights
at_phase token run phase s = record s { runs = map_set token (record run { phase = phase }) s.runs }

-- The promise is settled, and the `finally` of the run takes it out of the map.
unfoldable pub finish : ℕ → Run → Outcome → Flights → Flights
finish token run outcome s = record s {
  inflight = map_delete run.process s.inflight;
  runs = map_delete token s.runs;
  settled = map_set token outcome s.settled;
}

abbrev pub deadline_of : Params → ℕ → ℕ
deadline_of p now = now + clamp_int p.wait_for_fresh_ms 100 5000

unfoldable pub without_lock : Params → ℕ → ℕ → Run → Flights → Flights
without_lock p now token run s =
    if p.has_read_stale
    then at_phase token run reading_stale s
    else at_phase token run (polling (deadline_of p now)) s

abbrev pub is_free : Option ℕ → Bool
is_free none = true
is_free (some held) = false

unfoldable pub lock_replied : Params → ℕ → Reply → ℕ → Run → Flights → Flights
unfolding without_lock set_nx
lock_replied p now answered token run s =
    if is_free s.lock
    then at_phase token run (loading true) (record s { lock = set_nx token s.lock })
    else without_lock p now token run s
lock_replied p now (failed was_applied) token run s =
    without_lock p now token run
      (if was_applied then record s { lock = set_nx token s.lock } else s)

-- `none` stands for `null`.
unfoldable pub stale_answered : Params → ℕ → Option Value → ℕ → Run → Flights → Flights
unfolding finish
stale_answered p now (some stale) token run s = finish token run (resolved stale) s
stale_answered p now none token run s = at_phase token run (polling (deadline_of p now)) s

-- The test of the loop.
unfoldable pub poll : ℕ → ℕ → ℕ → Run → Flights → Flights
poll now deadline token run s =
    if ltb now deadline
    then at_phase token run (reading_fresh deadline) s
    else at_phase token run (loading false) s

unfoldable pub fresh_answered : ℕ → Option Value → ℕ → Run → Flights → Flights
unfolding finish
fresh_answered deadline (some fresh) token run s = finish token run (resolved fresh) s
fresh_answered deadline none token run s = at_phase token run (polling deadline) s

-- What a run waits for, and what else can happen to the key.
pub data Event : Type 0 where
  called : (process : ℕ) → Event
  replies : (now : ℕ) → Reply → (token : ℕ) → Event
  reads : (now : ℕ) → Option Value → (token : ℕ) → Event
  throws : (token : ℕ) → Event
  wakes : (now : ℕ) → (token : ℕ) → Event
  loads : Outcome → (token : ℕ) → Event
  releases : (is_reachable : Bool) → (token : ℕ) → Event
  lock_expires : Event

-- An event of a run that waits for something else does not happen.
unfoldable pub run_replied : Params → ℕ → Reply → ℕ → Phase → Run → Flights → Flights
unfolding lock_replied
run_replied p now reply token locking run s = lock_replied p now reply token run s
run_replied p now reply token _ run s = s

unfoldable pub run_read : Params → ℕ → Option Value → ℕ → Phase → Run → Flights → Flights
unfolding stale_answered fresh_answered
run_read p now answer token reading_stale run s = stale_answered p now answer token run s
run_read p now answer token (reading_fresh deadline) run s =
    fresh_answered deadline answer token run s
run_read p now answer token _ run s = s

-- A read that throws rejects the run.
unfoldable pub run_threw : ℕ → Phase → Run → Flights → Flights
unfolding finish
run_threw token reading_stale run s = finish token run rejected s
run_threw token (reading_fresh deadline) run s = finish token run rejected s
run_threw token _ run s = s

unfoldable pub run_woke : ℕ → ℕ → Phase → Run → Flights → Flights
unfolding poll
run_woke now token (polling deadline) run s = poll now deadline token run s
run_woke now token _ run s = s

unfoldable pub run_loaded : Outcome → ℕ → Phase → Run → Flights → Flights
unfolding finish
run_loaded outcome token (loading true) run s = at_phase token run (releasing outcome) s
run_loaded outcome token (loading false) run s = finish token run outcome s
run_loaded outcome token _ run s = s

-- A release that does not reach Redis leaves the lock to expire.
unfoldable pub run_released : Bool → ℕ → Phase → Run → Flights → Flights
unfolding finish release_lock
run_released is_reachable token (releasing outcome) run s =
    finish token run outcome
      (if is_reachable then record s { lock = release_lock token s.lock } else s)
run_released is_reachable token _ run s = s

-- `step token phase run s`, for the run of the token, if it is under way.
unfoldable pub on_run : (ℕ → Phase → Run → Flights → Flights) → ℕ → Option Run → Flights → Flights
on_run step token none s = s
on_run step token (some run) s = step token run.phase run s

unfoldable pub happen : Params → Event → Flights → Flights
unfolding with_distributed_singleflight on_run run_replied run_read run_threw run_woke run_loaded
    run_released
happen p (called process) s = (with_distributed_singleflight process s).0
happen p (replies now reply token) s =
    on_run (λ t. run_replied p now reply t) token (map_get token s.runs) s
happen p (reads now answer token) s =
    on_run (λ t. run_read p now answer t) token (map_get token s.runs) s
happen p (throws token) s = on_run run_threw token (map_get token s.runs) s
happen p (wakes now token) s = on_run (λ t. run_woke now t) token (map_get token s.runs) s
happen p (loads outcome token) s = on_run (λ t. run_loaded outcome t) token (map_get token s.runs) s
happen p (releases is_reachable token) s =
    on_run (λ t. run_released is_reachable t) token (map_get token s.runs) s
happen p lock_expires s = record s { lock = none }

unfoldable pub happen_all : Params → List Event → Flights → Flights
unfolding happen
happen_all p [] s = s
happen_all p (event ∷ events) s = happen_all p events (happen p event s)
