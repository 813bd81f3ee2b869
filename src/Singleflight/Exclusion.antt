-- ===== src/Singleflight/Exclusion.antt =====
-- Who loads at the same time under distributedSingleflight.ts.
use cse356_discord.Common.{
  ℕ, ◌≡◌, refl, Bool, true, false, some, List, [], ◌∷◌, arith, nat_eq, any, map_get,
}
use cse356_discord.Singleflight.{
  Run, Flights, idle_flights, Params, join_or_start, with_distributed_singleflight, Event, called,
  replies, reads, throws, wakes, loads, releases, lock_expires, run_replied, run_read, run_threw,
  run_woke, run_loaded, run_released, happen, happen_all,
}
use cse356_discord.Singleflight.Runs.{has_lock, HoldsLock, IsInflight, on_run-keeps}
use cse356_discord.Singleflight.Holding.{
  run_replied-HoldsLock, run_read-HoldsLock, run_threw-HoldsLock, run_woke-HoldsLock,
  run_loaded-HoldsLock, run_released-HoldsLock, join_or_start-HoldsLock,
}
use cse356_discord.Singleflight.Inflight.{
  run_replied-IsInflight, run_read-IsInflight, run_threw-IsInflight, run_woke-IsInflight,
  run_loaded-IsInflight, run_released-IsInflight, join_or_start-IsInflight,
}

abbrev pub is_expiry : Event → Bool
is_expiry lock_expires = true
is_expiry _ = false

happen-HoldsLock :
    (p : Params) (event : Event) (s : Flights)
    → is_expiry event ≡ false
    → HoldsLock s
    → HoldsLock (happen p event s)
unfolding happen with_distributed_singleflight
happen-HoldsLock p (called process) s h inv =
    join_or_start-HoldsLock process (map_get process s.inflight) s inv
happen-HoldsLock p (replies now reply token) s h inv =
    on_run-keeps HoldsLock (λ t. run_replied p now reply t) token s inv
      (λ run found. run_replied-HoldsLock p now reply token run.phase run s inv)
happen-HoldsLock p (reads now answer token) s h inv =
    on_run-keeps HoldsLock (λ t. run_read p now answer t) token s inv
      (λ run found. run_read-HoldsLock p now answer token run.phase run s inv)
happen-HoldsLock p (throws token) s h inv =
    on_run-keeps HoldsLock run_threw token s inv
      (λ run found. run_threw-HoldsLock token run.phase run s inv)
happen-HoldsLock p (wakes now token) s h inv =
    on_run-keeps HoldsLock (λ t. run_woke now t) token s inv
      (λ run found. run_woke-HoldsLock now token run.phase run s inv)
happen-HoldsLock p (loads outcome token) s h inv =
    on_run-keeps HoldsLock (λ t. run_loaded outcome t) token s inv
      (λ run found. run_loaded-HoldsLock outcome token run.phase run s inv found refl)
happen-HoldsLock p (releases is_reachable token) s h inv =
    on_run-keeps HoldsLock (λ t. run_released is_reachable t) token s inv
      (λ run found. run_released-HoldsLock is_reachable token run.phase run s inv)
happen-HoldsLock p lock_expires s h inv = absurd (ground arith)

happen_all-HoldsLock :
    (p : Params) (events : List Event) (s : Flights)
    → any is_expiry events ≡ false
    → HoldsLock s
    → HoldsLock (happen_all p events s)
unfolding happen_all
happen_all-HoldsLock p [] s h inv = inv
happen_all-HoldsLock p (event ∷ events) s h inv =
    happen_all-HoldsLock p events (happen p event s) (ground arith)
      (happen-HoldsLock p event s (ground arith) inv)

-- From the start on, whatever happens in any process but that the lock expires: two runs that are both
-- loading under the lock, or about to release it, are the same run.
pub happen_all-one_loader :
    (p : Params) (events : List Event) (t u : ℕ) (r q : Run)
    → any is_expiry events ≡ false
    → map_get t (happen_all p events idle_flights).runs ≡ some r
    → map_get u (happen_all p events idle_flights).runs ≡ some q
    → has_lock r.phase ≡ true
    → has_lock q.phase ≡ true
    → t ≡ u
happen_all-one_loader p events t u r q h at_t at_u has_t has_u =
    let inv : HoldsLock (happen_all p events idle_flights) =
      happen_all-HoldsLock p events idle_flights h (λ t r e l. absurd (ground arith)) in
    ground (arith, inv t r at_t has_t, inv u q at_u has_u)

happen-IsInflight :
    (p : Params) (event : Event) (s : Flights) → IsInflight s → IsInflight (happen p event s)
unfolding happen with_distributed_singleflight
happen-IsInflight p (called process) s inv =
    join_or_start-IsInflight process (map_get process s.inflight) s inv refl
happen-IsInflight p (replies now reply token) s inv =
    on_run-keeps IsInflight (λ t. run_replied p now reply t) token s inv
      (λ run found. run_replied-IsInflight p now reply token run.phase run s inv found)
happen-IsInflight p (reads now answer token) s inv =
    on_run-keeps IsInflight (λ t. run_read p now answer t) token s inv
      (λ run found. run_read-IsInflight p now answer token run.phase run s inv found)
happen-IsInflight p (throws token) s inv =
    on_run-keeps IsInflight run_threw token s inv
      (λ run found. run_threw-IsInflight token run.phase run s inv found)
happen-IsInflight p (wakes now token) s inv =
    on_run-keeps IsInflight (λ t. run_woke now t) token s inv
      (λ run found. run_woke-IsInflight now token run.phase run s inv found)
happen-IsInflight p (loads outcome token) s inv =
    on_run-keeps IsInflight (λ t. run_loaded outcome t) token s inv
      (λ run found. run_loaded-IsInflight outcome token run.phase run s inv found)
happen-IsInflight p (releases is_reachable token) s inv =
    on_run-keeps IsInflight (λ t. run_released is_reachable t) token s inv
      (λ run found. run_released-IsInflight is_reachable token run.phase run s inv found)
happen-IsInflight p lock_expires s inv = inv

happen_all-IsInflight :
    (p : Params) (events : List Event) (s : Flights)
    → IsInflight s
    → IsInflight (happen_all p events s)
unfolding happen_all
happen_all-IsInflight p [] s inv = inv
happen_all-IsInflight p (event ∷ events) s inv =
    happen_all-IsInflight p events (happen p event s) (happen-IsInflight p event s inv)

-- From the start on, whatever happens, an expiry of the lock included: two runs of one process that are
-- under way are the same run, and a further call of that process is given the promise of that run.
pub happen_all-one_run :
    (p : Params) (events : List Event) (t u : ℕ) (r q : Run)
    → map_get t (happen_all p events idle_flights).runs ≡ some r
    → map_get u (happen_all p events idle_flights).runs ≡ some q
    → r.process ≡ q.process
    → (t ≡ u)
      × (with_distributed_singleflight r.process (happen_all p events idle_flights)
          ≡ (happen_all p events idle_flights, t))
unfolding with_distributed_singleflight join_or_start
happen_all-one_run p events t u r q at_t at_u same =
    let inv : IsInflight (happen_all p events idle_flights) =
      happen_all-IsInflight p events idle_flights (λ t r e. absurd (ground arith)) in
    (ground (arith, inv t r at_t, inv u q at_u, same), rw (inv t r at_t) refl)
