-- ===== src/Singleflight/Inflight.antt =====
-- A process has one run of a key of distributedSingleflight.ts at a time.
use cse356_discord.Common.{
  ℕ, ◌≡◌, Bool, true, false, Option, none, some, arith, nat_eq, sym, ap, inl, inr, Bool-cases, ltb,
  map_get, map_get-map_set,
}
use cse356_discord.Value.{Value}
use cse356_discord.Singleflight.{
  Phase, locking, reading_stale, polling, reading_fresh, loading, releasing, Run, Outcome, resolved,
  rejected, Flights, Params, Reply, answered, failed, set_nx, release_lock, join_or_start,
  without_lock, deadline_of, is_free, lock_replied, stale_answered, poll, fresh_answered,
  run_replied, run_read, run_threw, run_woke, run_loaded, run_released,
}
use cse356_discord.Singleflight.Runs.{
  IsInflight, found_at_phase, at_phase-IsInflight, finish-IsInflight,
}

without_lock-IsInflight :
    (p : Params) (now token : ℕ) (run : Run) (s : Flights)
    → IsInflight s
    → map_get token s.runs ≡ some run
    → IsInflight (without_lock p now token run s)
unfolding without_lock
without_lock-IsInflight p now token run s inv found = elim (Bool-cases p.has_read_stale) [
  | inl stale ↦ rw stale (at_phase-IsInflight token run reading_stale s inv found)
  | inr none_given ↦
      rw none_given (at_phase-IsInflight token run (polling (deadline_of p now)) s inv found)
]

pub run_replied-IsInflight :
    (p : Params) (now : ℕ) (reply : Reply) (token : ℕ) (phase : Phase) (run : Run) (s : Flights)
    → IsInflight s
    → map_get token s.runs ≡ some run
    → IsInflight (run_replied p now reply token phase run s)
unfolding run_replied lock_replied
run_replied-IsInflight p now answered token locking run s inv found =
    elim (Bool-cases (is_free s.lock)) [
      | inl free ↦ rw free (
          at_phase-IsInflight token run (loading true) (record s { lock = set_nx token s.lock }) inv
            found)
      | inr taken ↦ rw taken (without_lock-IsInflight p now token run s inv found)
    ]
run_replied-IsInflight p now (failed true) token locking run s inv found =
    without_lock-IsInflight p now token run (record s { lock = set_nx token s.lock }) inv found
run_replied-IsInflight p now (failed false) token locking run s inv found =
    without_lock-IsInflight p now token run s inv found
run_replied-IsInflight p now reply token _ run s inv found = inv

pub run_read-IsInflight :
    (p : Params) (now : ℕ) (answer : Option Value) (token : ℕ) (phase : Phase) (run : Run)
    (s : Flights)
    → IsInflight s
    → map_get token s.runs ≡ some run
    → IsInflight (run_read p now answer token phase run s)
unfolding run_read stale_answered fresh_answered
run_read-IsInflight p now (some v) token reading_stale run s inv found =
    finish-IsInflight token run (resolved v) s inv found
run_read-IsInflight p now none token reading_stale run s inv found =
    at_phase-IsInflight token run (polling (deadline_of p now)) s inv found
run_read-IsInflight p now (some v) token (reading_fresh deadline) run s inv found =
    finish-IsInflight token run (resolved v) s inv found
run_read-IsInflight p now none token (reading_fresh deadline) run s inv found =
    at_phase-IsInflight token run (polling deadline) s inv found
run_read-IsInflight p now answer token _ run s inv found = inv

pub run_threw-IsInflight :
    (token : ℕ) (phase : Phase) (run : Run) (s : Flights)
    → IsInflight s
    → map_get token s.runs ≡ some run
    → IsInflight (run_threw token phase run s)
unfolding run_threw
run_threw-IsInflight token reading_stale run s inv found =
    finish-IsInflight token run rejected s inv found
run_threw-IsInflight token (reading_fresh deadline) run s inv found =
    finish-IsInflight token run rejected s inv found
run_threw-IsInflight token _ run s inv found = inv

pub run_woke-IsInflight :
    (now token : ℕ) (phase : Phase) (run : Run) (s : Flights)
    → IsInflight s
    → map_get token s.runs ≡ some run
    → IsInflight (run_woke now token phase run s)
unfolding run_woke poll
run_woke-IsInflight now token (polling deadline) run s inv found =
    elim (Bool-cases (ltb now deadline)) [
      | inl early ↦ rw early (at_phase-IsInflight token run (reading_fresh deadline) s inv found)
      | inr late ↦ rw late (at_phase-IsInflight token run (loading false) s inv found)
    ]
run_woke-IsInflight now token _ run s inv found = inv

pub run_loaded-IsInflight :
    (outcome : Outcome) (token : ℕ) (phase : Phase) (run : Run) (s : Flights)
    → IsInflight s
    → map_get token s.runs ≡ some run
    → IsInflight (run_loaded outcome token phase run s)
unfolding run_loaded
run_loaded-IsInflight outcome token (loading true) run s inv found =
    at_phase-IsInflight token run (releasing outcome) s inv found
run_loaded-IsInflight outcome token (loading false) run s inv found =
    finish-IsInflight token run outcome s inv found
run_loaded-IsInflight outcome token _ run s inv found = inv

pub run_released-IsInflight :
    (is_reachable : Bool) (token : ℕ) (phase : Phase) (run : Run) (s : Flights)
    → IsInflight s
    → map_get token s.runs ≡ some run
    → IsInflight (run_released is_reachable token phase run s)
unfolding run_released
run_released-IsInflight true token (releasing outcome) run s inv found =
    finish-IsInflight token run outcome (record s { lock = release_lock token s.lock }) inv found
run_released-IsInflight false token (releasing outcome) run s inv found =
    finish-IsInflight token run outcome s inv found
run_released-IsInflight is_reachable token _ run s inv found = inv

-- A process that has no run does not have another one in the list.
pub join_or_start-IsInflight :
    (process : ℕ) (found : Option ℕ) (s : Flights)
    → IsInflight s
    → map_get process s.inflight ≡ found
    → IsInflight (join_or_start process found s).0
unfolding join_or_start
join_or_start-IsInflight process (some token) s inv at t r e = inv t r e
join_or_start-IsInflight process none s inv at t r e =
    elim (found_at_phase s.next_token t (record { process = process; phase = locking }) r locking s
      e) [
        | inl (same, is_run) ↦
            rw
              (
                sym (ap (λ x. x.process) is_run),
                map_get-map_set process process s.next_token s.inflight,
              )
              (ground (arith, same))
        | inr before ↦
            ground
              (arith, at, inv t r before, map_get-map_set process r.process s.next_token s.inflight)
      ]
