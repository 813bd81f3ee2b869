-- ===== src/Hydration/Invariant.antt =====
-- What bootstrapHydrationScheduler.ts keeps: one job of a key at a time, and the cap.
use cse356_discord.Common.{
  ℕ, ◌+◌, ◌≤◌, ◌<◌, ◌≡◌, refl, String, Bool, true, false, ◌⊎◌, inl, inr, Option, none, some, List,
  [], ◌∷◌, ◌++◌, arith, length, length-append, ltb, ltb→lt, ◌==◌, string_eq, nat_eq, Bool-cases,
  map_get, map_set, map_get-map_set, map_get-map_delete, size_of, ◌&&◌,
}
use cse356_discord.Hydration.Scheduler.{
  Config, Job, Position, idle, pausing, quiet, waiting_slot, jittering, Scheduler, job_of,
  without_job, prune_recent_hydrations, is_live_fanout_active, wait_for_live_fanout_quiet, drain_on,
  drain_head, drain_queue, launch, take_item,
}

abbrev bit : Bool → ℕ
bit true = 1
bit false = 0

-- How many jobs have a key.
abbrev pub with_key : String → List Job → ℕ
with_key k [] = 0
with_key k (j ∷ js) = bit (j.hydration_key == k) + with_key k js

abbrev pub held : String → Position → ℕ
held k (jittering j) = bit (j.hydration_key == k)
held k _ = 0

abbrev pub held_slots : Position → ℕ
held_slots (jittering _) = 1
held_slots _ = 0

abbrev pub is_busy : Position → Bool
is_busy idle = false
is_busy _ = true

abbrev pub IsPatient : ℕ → Position → Type 0
IsPatient most (pausing yields) = yields < most
IsPatient most _ = Unit {0}

abbrev pub one : ℕ → ℕ
one _ = 1

-- The jobs waiting, started, running and finishing are those in flight, one of a key; the active ones are
-- the last three, within the cap.
pub record Tally (most active : ℕ) (pending running finishing : List Job)
    (in_flight : List (String × ℕ)) (p : Position) : Type 0 where
  pub one_each :
      (k : String)
      → with_key k pending + held k p + with_key k running + with_key k finishing
        ≡ size_of one (map_get k in_flight)
  pub counted : active ≡ held_slots p + length running + length finishing
  pub capped : active ≤ most

abbrev pub TallyAt : Config → Position → Scheduler → Type 0
TallyAt c p s =
    Tally c.max_concurrent s.active_hydrations s.pending_queue s.running s.finishing
      s.in_flight_by_socket p

-- Moreover the drain loop runs while a job waits, and pauses no longer than it may.
pub record IsDrained (most : ℕ) (pending : List Job) (draining : Bool) (p : Position) : Type 0 where
  pub flagged : draining ≡ is_busy p
  pub served : (pending ≡ []) ⊎ (draining ≡ true)
  pub patient : IsPatient most p

abbrev pub IsConsistent : Config → Scheduler → Type 0
IsConsistent c s =
    TallyAt c s.position s
    × IsDrained c.live_fanout_max_yields s.pending_queue s.draining s.position

pub with_key-append :
    (k : String) (xs ys : List Job) → with_key k (xs ++ ys) ≡ with_key k xs + with_key k ys
with_key-append k [] ys = omega arith
with_key-append k (x ∷ xs) ys = omega (arith, with_key-append k xs ys)

pub with_key-without_job :
    (k : String) (caller : ℕ) (item : Job) (js : List Job)
    → job_of caller js ≡ some item
    → with_key k (without_job caller js) + bit (item.hydration_key == k) ≡ with_key k js
with_key-without_job k caller item [] h = cc
with_key-without_job k caller item (j ∷ js) h =
    ground (arith, with_key-without_job k caller item js)

pub length-without_job :
    (caller : ℕ) (item : Job) (js : List Job)
    → job_of caller js ≡ some item
    → length (without_job caller js) + 1 ≡ length js
length-without_job caller item [] h = cc
length-without_job caller item (j ∷ js) h = ground (arith, length-without_job caller item js)

-- Where no job is held, the tally is the same.
pub put_at :
    {most active : ℕ} {pending running finishing : List Job} {in_flight : List (String × ℕ)}
    (p : Position)
    → ((k : String) → held k p ≡ 0)
    → held_slots p ≡ 0
    → Tally most active pending running finishing in_flight idle
    → Tally most active pending running finishing in_flight p
put_at p h g t = record {
  one_each = λ k. omega (arith, t.one_each k, h k);
  counted = omega arith;
  capped = t.capped;
}

pub from_unheld :
    {most active : ℕ} {pending running finishing : List Job} {in_flight : List (String × ℕ)}
    (p : Position)
    → ((k : String) → held k p ≡ 0)
    → held_slots p ≡ 0
    → Tally most active pending running finishing in_flight p
    → Tally most active pending running finishing in_flight idle
from_unheld p h g t = record {
  one_each = λ k. omega (arith, t.one_each k, h k);
  counted = omega (arith, t.counted);
  capped = t.capped;
}

at_idle :
    {most active : ℕ} {pending running finishing : List Job} {in_flight : List (String × ℕ)}
    (p : Position)
    → false ≡ is_busy p
    → Tally most active pending running finishing in_flight p
    → Tally most active pending running finishing in_flight idle
at_idle idle h t = t
at_idle (pausing _) h t = cc
at_idle quiet h t = cc
at_idle waiting_slot h t = cc
at_idle (jittering _) h t = cc

pub present-le : (o : Option ℕ) → size_of one o ≤ 1
present-le none = omega arith
present-le (some x) = omega arith

module _ (c : Config) (now : ℕ) where
  pub wait-IsConsistent :
      (yields : ℕ) (s : Scheduler)
      → TallyAt c idle s
      → s.draining ≡ true
      → IsConsistent c (wait_for_live_fanout_quiet c now yields s)
  unfolding wait_for_live_fanout_quiet
  wait-IsConsistent yields s t d =
      elim (Bool-cases (
        c.protection_enabled
        && is_live_fanout_active now s
        && ltb yields c.live_fanout_max_yields)) [
          | inl busy ↦ rw busy (
            put_at (pausing yields) (λ k. refl) refl t,
            record {
              flagged = d;
              served = inr d;
              patient = ltb→lt yields c.live_fanout_max_yields (ground arith);
            },
          )
          | inr calm ↦ rw calm (
            put_at quiet (λ k. refl) refl t,
            record { flagged = d; served = inr d; patient = tt },
          )
        ]

  drain_on-IsConsistent :
      (queue : List Job) (s : Scheduler)
      → s.pending_queue ≡ queue
      → TallyAt c idle s
      → s.draining ≡ true
      → IsConsistent c (drain_on c now queue s)
  unfolding drain_on
  drain_on-IsConsistent [] s e t d = (t, record { flagged = refl; served = inl e; patient = tt })
  drain_on-IsConsistent (item ∷ rest) s e t d = wait-IsConsistent 0 s t d

  pub drain_head-IsConsistent :
      (s : Scheduler) → TallyAt c idle s → s.draining ≡ true → IsConsistent c (drain_head c now s)
  unfolding drain_head
  drain_head-IsConsistent s t d = drain_on-IsConsistent s.pending_queue s refl t d

  pub drain_queue-IsConsistent :
      (s : Scheduler)
      → TallyAt c s.position s
      → s.draining ≡ is_busy s.position
      → IsPatient c.live_fanout_max_yields s.position
      → IsConsistent c (drain_queue c now s)
  unfolding drain_queue
  drain_queue-IsConsistent s t f q = elim (Bool-cases s.draining) [
    | inl on ↦ rw on (t, record { flagged = rw on at f; served = inr refl; patient = q })
    | inr off ↦ rw off (
        drain_head-IsConsistent (record s { draining = true }) (at_idle s.position (rw off at f) t)
          refl)
  ]

  pub launch-IsConsistent :
      (item : Job) (s : Scheduler)
      → TallyAt c (jittering item) s
      → s.draining ≡ true
      → IsConsistent c (launch c now item s)
  unfolding launch
  launch-IsConsistent item s t d =
      drain_head-IsConsistent
        (record s {
          running = s.running ++ item ∷ [];
          in_flight_by_socket = map_set item.hydration_key item.caller s.in_flight_by_socket;
        })
        (record {
          one_each = λ k. ground (
            arith,
            t.one_each k,
            with_key-append k s.running (item ∷ []),
            present-le (map_get k s.in_flight_by_socket),
            map_get-map_set item.hydration_key k item.caller s.in_flight_by_socket,
          );
          counted = omega (arith, t.counted, length-append s.running (item ∷ []));
          capped = t.capped;
        })
        d

  pub take_item-IsConsistent :
      (is_open : Bool) (jitter : ℕ) (item : Job) (s : Scheduler)
      → TallyAt c idle (record s { pending_queue = item ∷ s.pending_queue })
      → s.draining ≡ true
      → s.active_hydrations < c.max_concurrent
      → IsConsistent c (take_item c now is_open jitter item s)
  unfolding take_item prune_recent_hydrations
  take_item-IsConsistent false jitter item s t d l =
      drain_head-IsConsistent _
        (record {
          one_each = λ k. ground (
            arith,
            t.one_each k,
            present-le (map_get k s.in_flight_by_socket),
            map_get-map_delete item.hydration_key k s.in_flight_by_socket,
          );
          counted = t.counted;
          capped = t.capped;
        })
        d
  take_item-IsConsistent true jitter item s t d l =
      let begun : TallyAt c (jittering item)
          (record s { active_hydrations = s.active_hydrations + 1 }) =
        record {
          one_each = λ k. omega (arith, t.one_each k);
          counted = omega (arith, t.counted);
          capped = omega (arith, l);
        } in
      elim (Bool-cases (c.protection_enabled && ltb 0 jitter)) [
        | inl waits ↦ rw waits (begun, record { flagged = d; served = inr d; patient = tt })
        | inr goes_on ↦ rw goes_on (launch-IsConsistent item _ begun d)
      ]
