-- ===== src/Hydration/Work.antt =====
-- bootstrapHydrationScheduler.ts, left to itself: every job that is in flight comes to its end.
use cse356_discord.Common.{
  ℕ, ◌+◌, ◌-◌, ◌≤◌, ◌<◌, ◌≡◌, refl, Bool, true, false, ◌&&◌, inl, inr, Option, List, [], ◌∷◌, ◌++◌,
  arith, length, length-append, ltb, leb, leb→le, map_set, string_eq, nat_eq, Bool-cases,
}
use cse356_discord.Hydration.Scheduler.{
  Config, Job, Position, idle, pausing, quiet, waiting_slot, jittering, Scheduler, HydrationResult,
  prune_recent_hydrations, wait_for_live_fanout_quiet, drain_on, drain_head, launch, take_item,
  take_from, check_slot, resume, drain_step, hydration_answered, hydration_finished,
}
use cse356_discord.Hydration.Invariant.{is_busy, IsPatient, held_slots}

-- What the surroundings answer at one step.
pub record Surroundings : Type 0 where
  pub now : ℕ
  pub is_open : Bool
  pub jitter : ℕ
  pub result : Option (Option HydrationResult)

-- The next callback: an answer of `hydrateFn`, else a `finally`, else the loop's.
unfoldable pub callback : Config → Surroundings → List Job → List Job → Scheduler → Scheduler
callback c e (item ∷ _) finishing s = hydration_answered e.now item.caller e.result s
callback c e [] (item ∷ _) s = hydration_finished c e.now item.caller s
callback c e [] [] s = drain_step c e.now e.is_open e.jitter s

abbrev pub work_step : Config → Surroundings → Scheduler → Scheduler
work_step c e s = callback c e s.running s.finishing s

unfoldable pub work : Config → List Surroundings → Scheduler → Scheduler
work c [] s = s
work c (e ∷ es) s = work c es (work_step c e s)

-- How much there is to do, where a pause is one of `y` at most.
abbrev pub queue_weight : ℕ → List Job → ℕ
queue_weight y [] = 0
queue_weight y (j ∷ js) = y + 6 + queue_weight y js

abbrev pub position_weight : ℕ → Position → ℕ
position_weight y idle = 0
position_weight y (pausing yields) = (y - yields) + 2
position_weight y quiet = 1
position_weight y waiting_slot = y + 3
position_weight y (jittering _) = y + 5

abbrev pub weight : Config → Scheduler → ℕ
weight c s =
    queue_weight c.live_fanout_max_yields s.pending_queue
    + position_weight c.live_fanout_max_yields s.position
    + (length s.running + length s.running)
    + length s.finishing

module _ (c : Config) (now : ℕ) where
  wait-weight :
      (yields : ℕ) (s : Scheduler)
      → weight c (wait_for_live_fanout_quiet c now yields s)
        ≤ queue_weight c.live_fanout_max_yields s.pending_queue
          + ((c.live_fanout_max_yields - yields) + 2)
          + (length s.running + length s.running)
          + length s.finishing
  unfolding wait_for_live_fanout_quiet
  wait-weight yields s = ground arith

  drain_on-weight :
      (queue : List Job) (s : Scheduler)
      → weight c (drain_on c now queue s)
        ≤ queue_weight c.live_fanout_max_yields s.pending_queue
          + (c.live_fanout_max_yields + 2)
          + (length s.running + length s.running)
          + length s.finishing
  unfolding drain_on
  drain_on-weight [] s = omega arith
  drain_on-weight (j ∷ js) s = omega (arith, wait-weight 0 s)

  launch-weight :
      (item : Job) (s : Scheduler)
      → weight c (launch c now item s)
        ≤ queue_weight c.live_fanout_max_yields s.pending_queue
          + (c.live_fanout_max_yields + 4)
          + (length s.running + length s.running)
          + length s.finishing
  unfolding launch drain_head
  launch-weight item s = omega (
    arith,
    drain_on-weight s.pending_queue (record s {
      running = s.running ++ item ∷ [];
      in_flight_by_socket = map_set item.hydration_key item.caller s.in_flight_by_socket;
    }),
    length-append s.running (item ∷ []),
  )

  take_item-weight :
      (is_open : Bool) (jitter : ℕ) (item : Job) (s : Scheduler)
      → weight c (take_item c now is_open jitter item s)
        ≤ queue_weight c.live_fanout_max_yields s.pending_queue
          + (c.live_fanout_max_yields + 5)
          + (length s.running + length s.running)
          + length s.finishing
  unfolding take_item drain_head prune_recent_hydrations
  take_item-weight false jitter item s = omega (arith, drain_on-weight s.pending_queue _)
  take_item-weight true jitter item s = elim (Bool-cases (c.protection_enabled && ltb 0 jitter)) [
    | inl waits ↦ rw waits (omega arith)
    | inr goes_on ↦ rw goes_on (omega (arith, launch-weight item _))
  ]

  take_from-weight :
      (is_open : Bool) (jitter : ℕ) (queue : List Job) (s : Scheduler)
      → s.pending_queue ≡ queue
      → weight c (take_from c now is_open jitter queue s)
        ≤ queue_weight c.live_fanout_max_yields s.pending_queue
          + (length s.running + length s.running)
          + length s.finishing
  unfolding take_from
  take_from-weight is_open jitter [] s h = omega arith
  take_from-weight is_open jitter (item ∷ rest) s h =
      rw h (omega (arith, take_item-weight is_open jitter item (record s { pending_queue = rest })))

  check_slot-weight :
      (is_open : Bool) (jitter : ℕ) (s : Scheduler)
      → s.active_hydrations < c.max_concurrent
      → weight c (check_slot c now is_open jitter s)
        ≤ queue_weight c.live_fanout_max_yields s.pending_queue
          + (length s.running + length s.running)
          + length s.finishing
  unfolding check_slot
  check_slot-weight is_open jitter s l =
      elim (Bool-cases (leb c.max_concurrent s.active_hydrations)) [
        | inl full ↦ absurd (omega (arith, leb→le _ _ full))
        | inr room ↦ rw room (take_from-weight is_open jitter s.pending_queue s refl)
      ]

-- At the same place the loop has less to do after a step.
module _ (c : Config) (now : ℕ) (is_open : Bool) (jitter : ℕ) (s : Scheduler) where
  pub resume-weight :
      (p : Position)
      → is_busy p ≡ true
      → IsPatient c.live_fanout_max_yields p
      → s.active_hydrations ≡ held_slots p
      → 0 < c.max_concurrent
      → weight c (resume c now is_open jitter p s)
        < queue_weight c.live_fanout_max_yields s.pending_queue
          + position_weight c.live_fanout_max_yields p
          + (length s.running + length s.running)
          + length s.finishing
  unfolding resume drain_head
  resume-weight idle b q a l = cc
  resume-weight (pausing yields) b q a l = omega (arith, wait-weight c now (yields + 1) s)
  resume-weight quiet b q a l =
      omega (arith, check_slot-weight c now is_open jitter s (omega arith))
  resume-weight waiting_slot b q a l = omega (arith, drain_on-weight c now s.pending_queue s)
  resume-weight (jittering item) b q a l = omega (arith, launch-weight c now item s)
