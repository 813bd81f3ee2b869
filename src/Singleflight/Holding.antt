-- ===== src/Singleflight/Holding.antt =====
-- While the lock does not expire, a run of distributedSingleflight.ts that loads under it has it.
use cse356_discord.Common.{
  ℕ, ◌≡◌, refl, Bool, true, false, Option, none, some, arith, nat_eq, sym, ap, inl, inr, Bool-cases,
  Option-cases, subst, ltb, map_get,
}
use cse356_discord.Value.{Value}
use cse356_discord.Singleflight.{
  Phase, locking, reading_stale, polling, reading_fresh, loading, releasing, Run, Outcome, resolved,
  rejected, Flights, Params, Reply, answered, failed, set_nx, release_lock, join_or_start, at_phase,
  finish, without_lock, deadline_of, lock_replied, stale_answered, poll, fresh_answered,
  run_replied, run_read, run_threw, run_woke, run_loaded, run_released,
}
use cse356_discord.Singleflight.Runs.{
  has_lock, HoldsLock, found_finished, at_phase-HoldsLock, finish-HoldsLock,
}

abbrev take_lock : ℕ → Flights → Flights
take_lock token s = record s { lock = set_nx token s.lock }

take_lock-HoldsLock : (token : ℕ) (s : Flights) → HoldsLock s → HoldsLock (take_lock token s)
unfolding set_nx
take_lock-HoldsLock token s inv t r e l = rw (inv t r e l) refl

release-HoldsLock :
    (token : ℕ) (run : Run) (outcome : Outcome) (s : Flights)
    → HoldsLock s
    → HoldsLock (finish token run outcome (record s { lock = release_lock token s.lock }))
unfolding finish release_lock
release-HoldsLock token run outcome s inv t r e l =
    let (differs, before) = found_finished token t run r outcome s e in
    rw (inv t r before l) (ground (arith, differs))

without_lock-HoldsLock :
    (p : Params) (now token : ℕ) (run : Run) (s : Flights)
    → HoldsLock s
    → HoldsLock (without_lock p now token run s)
unfolding without_lock
without_lock-HoldsLock p now token run s inv = elim (Bool-cases p.has_read_stale) [
  | inl stale ↦ rw stale (at_phase-HoldsLock token run reading_stale s inv (λ h. ground arith))
  | inr none_given ↦
      rw none_given
        (at_phase-HoldsLock token run (polling (deadline_of p now)) s inv (λ h. ground arith))
]

lock_replied-free :
    (p : Params) (now token : ℕ) (run : Run) (s : Flights)
    → s.lock ≡ none
    → lock_replied p now answered token run s
      ≡ at_phase token run (loading true) (take_lock token s)
unfolding lock_replied
lock_replied-free p now token run s free = rw free refl

lock_replied-taken :
    (p : Params) (now token held : ℕ) (run : Run) (s : Flights)
    → s.lock ≡ some held
    → lock_replied p now answered token run s ≡ without_lock p now token run s
unfolding lock_replied
lock_replied-taken p now token held run s taken = rw taken refl

taken_lock : (token : ℕ) (s : Flights) → s.lock ≡ none → (take_lock token s).lock ≡ some token
unfolding set_nx
taken_lock token s free = rw free refl

lock_replied-HoldsLock :
    (p : Params) (now : ℕ) (reply : Reply) (token : ℕ) (run : Run) (s : Flights)
    → HoldsLock s
    → HoldsLock (lock_replied p now reply token run s)
unfolding lock_replied
lock_replied-HoldsLock p now answered token run s inv = elim (Option-cases s.lock) [
  | inl free ↦ subst HoldsLock (sym (lock_replied-free p now token run s free)) (
      at_phase-HoldsLock token run (loading true) (take_lock token s)
        (take_lock-HoldsLock token s inv) (λ h. taken_lock token s free))
  | inr (held, taken) ↦
      subst HoldsLock (sym (lock_replied-taken p now token held run s taken))
        (without_lock-HoldsLock p now token run s inv)
]
lock_replied-HoldsLock p now (failed true) token run s inv =
    without_lock-HoldsLock p now token run (take_lock token s) (take_lock-HoldsLock token s inv)
lock_replied-HoldsLock p now (failed false) token run s inv =
    without_lock-HoldsLock p now token run s inv

poll-HoldsLock :
    (now deadline token : ℕ) (run : Run) (s : Flights)
    → HoldsLock s
    → HoldsLock (poll now deadline token run s)
unfolding poll
poll-HoldsLock now deadline token run s inv = elim (Bool-cases (ltb now deadline)) [
  | inl early ↦
      rw early (at_phase-HoldsLock token run (reading_fresh deadline) s inv (λ h. ground arith))
  | inr late ↦ rw late (at_phase-HoldsLock token run (loading false) s inv (λ h. ground arith))
]

pub run_loaded-HoldsLock :
    (outcome : Outcome) (token : ℕ) (phase : Phase) (run : Run) (s : Flights)
    → HoldsLock s
    → map_get token s.runs ≡ some run
    → run.phase ≡ phase
    → HoldsLock (run_loaded outcome token phase run s)
unfolding run_loaded
run_loaded-HoldsLock outcome token (loading true) run s inv found at =
    at_phase-HoldsLock token run (releasing outcome) s inv
      (λ h. inv token run found (ap has_lock at))
run_loaded-HoldsLock outcome token (loading false) run s inv found at =
    finish-HoldsLock token run outcome s inv
run_loaded-HoldsLock outcome token _ run s inv found at = inv

pub run_released-HoldsLock :
    (is_reachable : Bool) (token : ℕ) (phase : Phase) (run : Run) (s : Flights)
    → HoldsLock s
    → HoldsLock (run_released is_reachable token phase run s)
unfolding run_released
run_released-HoldsLock true token (releasing outcome) run s inv =
    release-HoldsLock token run outcome s inv
run_released-HoldsLock false token (releasing outcome) run s inv =
    finish-HoldsLock token run outcome s inv
run_released-HoldsLock is_reachable token _ run s inv = inv

pub run_replied-HoldsLock :
    (p : Params) (now : ℕ) (reply : Reply) (token : ℕ) (phase : Phase) (run : Run) (s : Flights)
    → HoldsLock s
    → HoldsLock (run_replied p now reply token phase run s)
unfolding run_replied
run_replied-HoldsLock p now reply token locking run s inv =
    lock_replied-HoldsLock p now reply token run s inv
run_replied-HoldsLock p now reply token _ run s inv = inv

pub run_read-HoldsLock :
    (p : Params) (now : ℕ) (answer : Option Value) (token : ℕ) (phase : Phase) (run : Run)
    (s : Flights)
    → HoldsLock s
    → HoldsLock (run_read p now answer token phase run s)
unfolding run_read stale_answered fresh_answered
run_read-HoldsLock p now (some v) token reading_stale run s inv =
    finish-HoldsLock token run (resolved v) s inv
run_read-HoldsLock p now none token reading_stale run s inv =
    at_phase-HoldsLock token run (polling (deadline_of p now)) s inv (λ h. ground arith)
run_read-HoldsLock p now (some v) token (reading_fresh deadline) run s inv =
    finish-HoldsLock token run (resolved v) s inv
run_read-HoldsLock p now none token (reading_fresh deadline) run s inv =
    at_phase-HoldsLock token run (polling deadline) s inv (λ h. ground arith)
run_read-HoldsLock p now answer token _ run s inv = inv

pub run_threw-HoldsLock :
    (token : ℕ) (phase : Phase) (run : Run) (s : Flights)
    → HoldsLock s
    → HoldsLock (run_threw token phase run s)
unfolding run_threw
run_threw-HoldsLock token reading_stale run s inv = finish-HoldsLock token run rejected s inv
run_threw-HoldsLock token (reading_fresh deadline) run s inv =
    finish-HoldsLock token run rejected s inv
run_threw-HoldsLock token _ run s inv = inv

pub run_woke-HoldsLock :
    (now token : ℕ) (phase : Phase) (run : Run) (s : Flights)
    → HoldsLock s
    → HoldsLock (run_woke now token phase run s)
unfolding run_woke
run_woke-HoldsLock now token (polling deadline) run s inv =
    poll-HoldsLock now deadline token run s inv
run_woke-HoldsLock now token _ run s inv = inv

pub join_or_start-HoldsLock :
    (process : ℕ) (found : Option ℕ) (s : Flights)
    → HoldsLock s
    → HoldsLock (join_or_start process found s).0
unfolding join_or_start
join_or_start-HoldsLock process (some token) s inv = inv
join_or_start-HoldsLock process none s inv =
    at_phase-HoldsLock s.next_token (record { process = process; phase = locking }) locking s inv
      (λ h. ground arith)
