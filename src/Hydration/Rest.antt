-- ===== src/Hydration/Rest.antt =====
-- bootstrapHydrationScheduler.ts, left to itself, comes to rest with every promise settled once.
use cse356_discord.Common.{
  ℕ, ◌+◌, ◌-◌, ◌≤◌, ◌<◌, ◌≡◌, refl, ◌∙◌, String, Bool, true, false, inl, inr, Option, none, some,
  List, [], ◌∷◌, ◌++◌, arith, length, length-append, string_eq, nat_eq, ==_refl, Bool-cases,
  map_get, size_of, sym, ap,
}
use cse356_discord.Hydration.Scheduler.{
  Config, Job, Position, idle, pausing, quiet, waiting_slot, jittering, Scheduler, HydrationResult,
  job_of, without_job, prune_recent_hydrations, answer_found, finish_found, hydration_answered,
  hydration_finished, answer, drain_step, resume,
}
use cse356_discord.Hydration.Invariant.{
  IsConsistent, is_busy, with_key, held, held_slots, length-without_job, one,
}
use cse356_discord.Hydration.Kept.{
  drain_step-IsConsistent, hydration_answered-IsConsistent, hydration_finished-IsConsistent,
}
use cse356_discord.Hydration.Work.{
  Surroundings, callback, work_step, work, weight, queue_weight, position_weight, resume-weight,
}

pub job_of-head : (item : Job) (rest : List Job) → job_of item.caller (item ∷ rest) ≡ some item
job_of-head item rest = rw (==_refl item.caller) refl

answer-weight :
    (c : Config) (now : ℕ) (result : Option (Option HydrationResult)) (item : Job) (s : Scheduler)
    → weight c (answer now item result s) ≡ weight c s
unfolding answer
answer-weight c now none item s = refl
answer-weight c now (some result) item s = refl

module _ (c : Config) (now : ℕ) (item : Job) (rest : List Job) (s : Scheduler) where
  answered-weight :
      (result : Option (Option HydrationResult))
      → s.running ≡ item ∷ rest
      → weight c (hydration_answered now item.caller result s) + 1 ≡ weight c s
  unfolding hydration_answered answer_found
  answered-weight result h =
      let found : job_of item.caller s.running ≡ some item = rw h (job_of-head item rest) in
      rw found (
        omega (
          arith,
          answer-weight c now result item (record s {
            running = without_job item.caller s.running;
            finishing = s.finishing ++ item ∷ [];
          }),
          length-without_job item.caller item s.running found,
          length-append s.finishing (item ∷ []),
        ))

  finished-weight :
      s.finishing ≡ item ∷ rest → weight c (hydration_finished c now item.caller s) + 1 ≡ weight c s
  unfolding hydration_finished finish_found prune_recent_hydrations
  finished-weight h =
      let found : job_of item.caller s.finishing ≡ some item = rw h (job_of-head item rest) in
      rw found (omega (arith, length-without_job item.caller item s.finishing found))

-- A loop that does not run has nothing to run for.
unserved :
    (c : Config) (s : Scheduler)
    → IsConsistent c s
    → is_busy s.position ≡ false
    → s.pending_queue ≡ []
unserved c s (t, w) off = elim w.served [
  | inl empty ↦ empty
  | inr on ↦ let clash : true ≡ false = sym on ∙ (w.flagged ∙ off) in cc
]

queue_weight-zero : (y : ℕ) (js : List Job) → queue_weight y js ≡ 0 → js ≡ []
queue_weight-zero y [] h = refl
queue_weight-zero y (j ∷ js) h = absurd (omega arith)

position_weight-zero : (y : ℕ) (p : Position) → position_weight y p ≡ 0 → p ≡ idle
position_weight-zero y idle h = refl
position_weight-zero y (pausing _) h = absurd (omega arith)
position_weight-zero y quiet h = absurd (omega arith)
position_weight-zero y waiting_slot h = absurd (omega arith)
position_weight-zero y (jittering _) h = absurd (omega arith)

idle_weight : (y : ℕ) (p : Position) → is_busy p ≡ false → position_weight y p ≡ 0
idle_weight y idle h = refl
idle_weight y (pausing _) h = cc
idle_weight y quiet h = cc
idle_weight y waiting_slot h = cc
idle_weight y (jittering _) h = cc

length-zero : (js : List Job) → length js ≡ 0 → js ≡ []
length-zero [] h = refl
length-zero (j ∷ js) h = absurd (omega arith)

resume-off :
    (c : Config) (now : ℕ) (is_open : Bool) (jitter : ℕ) (p : Position) (s : Scheduler)
    → is_busy p ≡ false
    → resume c now is_open jitter p s ≡ s
unfolding resume
resume-off c now is_open jitter idle s h = refl
resume-off c now is_open jitter (pausing _) s h = cc
resume-off c now is_open jitter quiet s h = cc
resume-off c now is_open jitter waiting_slot s h = cc
resume-off c now is_open jitter (jittering _) s h = cc

drain_step-weight :
    (c : Config) (now : ℕ) (is_open : Bool) (jitter : ℕ) (s : Scheduler)
    → IsConsistent c s
    → 0 < c.max_concurrent
    → s.running ≡ []
    → s.finishing ≡ []
    → weight c (drain_step c now is_open jitter s) ≤ weight c s - 1
unfolding drain_step
drain_step-weight c now is_open jitter s (t, w) l r f = elim (Bool-cases (is_busy s.position)) [
  | inl busy ↦
      let active : s.active_hydrations ≡ held_slots s.position =
        omega (arith, t.counted, ap length r, ap length f) in
      omega (arith, resume-weight c now is_open jitter s s.position busy w.patient active l)
  | inr off ↦ rw (resume-off c now is_open jitter s.position s off) (
      omega (
        arith,
        ap (queue_weight c.live_fanout_max_yields) (unserved c s (t, w) off),
        idle_weight c.live_fanout_max_yields s.position off,
        ap length r,
        ap length f,
      ))
]

callback-weight :
    (c : Config) (e : Surroundings) (running finishing : List Job) (s : Scheduler)
    → IsConsistent c s
    → 0 < c.max_concurrent
    → s.running ≡ running
    → s.finishing ≡ finishing
    → weight c (callback c e running finishing s) ≤ weight c s - 1
unfolding callback
callback-weight c e (item ∷ rest) finishing s v l r f =
    omega (arith, answered-weight c e.now item rest s e.result r)
callback-weight c e [] (item ∷ rest) s v l r f =
    omega (arith, finished-weight c e.now item rest s f)
callback-weight c e [] [] s v l r f = drain_step-weight c e.now e.is_open e.jitter s v l r f

pub callback-IsConsistent :
    (c : Config) (e : Surroundings) (running finishing : List Job) (s : Scheduler)
    → IsConsistent c s
    → IsConsistent c (callback c e running finishing s)
unfolding callback
callback-IsConsistent c e (item ∷ rest) finishing s v =
    hydration_answered-IsConsistent c e.now item.caller e.result s v
callback-IsConsistent c e [] (item ∷ rest) s v =
    hydration_finished-IsConsistent c e.now item.caller s v
callback-IsConsistent c e [] [] s v = drain_step-IsConsistent c e.now e.is_open e.jitter s v

-- Nothing waits, runs or is in flight.
pub record IsAtRest (s : Scheduler) : Type 0 where
  pub none_pending : s.pending_queue ≡ []
  pub none_running : s.running ≡ []
  pub none_finishing : s.finishing ≡ []
  pub stopped : s.position ≡ idle
  pub none_active : s.active_hydrations ≡ 0
  pub none_in_flight : (key : String) → map_get key s.in_flight_by_socket ≡ none

none_of_size : (o : Option ℕ) → size_of one o ≡ 0 → o ≡ none
none_of_size none h = refl
none_of_size (some n) h = absurd (omega arith)

rest-IsAtRest : (c : Config) (s : Scheduler) → IsConsistent c s → weight c s ≡ 0 → IsAtRest s
rest-IsAtRest c s (t, w) h =
    let y : ℕ = c.live_fanout_max_yields in
    let pending : s.pending_queue ≡ [] = queue_weight-zero y s.pending_queue (omega arith) in
    let stopped : s.position ≡ idle = position_weight-zero y s.position (omega arith) in
    let running : s.running ≡ [] = length-zero s.running (omega arith) in
    let finishing : s.finishing ≡ [] = length-zero s.finishing (omega arith) in
    record {
      none_pending = pending;
      none_running = running;
      none_finishing = finishing;
      stopped = stopped;
      none_active = omega (arith, t.counted, ap held_slots stopped);
      none_in_flight = λ k. none_of_size (map_get k s.in_flight_by_socket) (
          omega (
            arith,
            t.one_each k,
            ap (with_key k) pending,
            ap (held k) stopped,
            ap (with_key k) running,
            ap (with_key k) finishing,
          ));
    }

-- From a state with the invariant, if at least one hydration may run at a time, then after as many
-- callbacks as the state's weight, in the order answers, endings, loop, and whatever the clock, the sockets,
-- the jitter and the hydrations say, nothing is pending, running or in flight.
pub work-IsAtRest :
    (c : Config) (es : List Surroundings) (s : Scheduler)
    → IsConsistent c s
    → 0 < c.max_concurrent
    → weight c s ≤ length es
    → IsAtRest (work c es s)
unfolding work
work-IsAtRest c [] s v l h = rest-IsAtRest c s v (omega arith)
work-IsAtRest c (e ∷ es) s v l h =
    work-IsAtRest c es (work_step c e s) (callback-IsConsistent c e s.running s.finishing s v) l
      (omega (arith, callback-weight c e s.running s.finishing s v l refl refl))
