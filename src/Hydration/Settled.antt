-- ===== src/Hydration/Settled.antt =====
-- bootstrapHydrationScheduler.ts settles the promise of every caller once.
use cse356_discord.Common.{
  ℕ, ◌+◌, ◌≤◌, ◌<◌, ◌≡◌, refl, ◌∙◌, Bool, true, false, ◌&&◌, inl, inr, Option, none, some, List, [],
  ◌∷◌, ◌++◌, arith, length, ltb, leb, map_set, if◌then◌else◌, ◌==◌, string_eq, nat_eq, Bool-cases,
  ap,
}
use cse356_discord.Hydration.Scheduler.{
  Config, Job, Position, idle, pausing, quiet, waiting_slot, jittering, Scheduler, Settlement,
  HydrationResult, job_of, without_job, prune_recent_hydrations, wait_for_live_fanout_quiet,
  drain_on, drain_head, launch, take_item, take_from, check_slot, resume, drain_step, answer_found,
  finish_found, hydration_answered, hydration_finished, answer, or_hydrated, or_hydrated,
}
use cse356_discord.Hydration.Invariant.{IsConsistent}
use cse356_discord.Hydration.Work.{Surroundings, callback, work_step, work, weight}
use cse356_discord.Hydration.Rest.{IsAtRest, work-IsAtRest}

abbrev same_caller : ℕ → ℕ → ℕ
same_caller a b = if a == b then 1 else 0

-- How often a caller's promise was settled.
abbrev pub times_settled : ℕ → List (ℕ × Settlement) → ℕ
times_settled caller [] = 0
times_settled caller ((a, _) ∷ log) = same_caller a caller + times_settled caller log

-- How many jobs of a caller are waiting for an answer.
abbrev pub jobs_of : ℕ → List Job → ℕ
jobs_of caller [] = 0
jobs_of caller (j ∷ js) = same_caller j.caller caller + jobs_of caller js

abbrev pub held_of : ℕ → Position → ℕ
held_of caller (jittering j) = same_caller j.caller caller
held_of caller _ = 0

abbrev pub unsettled : ℕ → Scheduler → ℕ
unsettled caller s =
    jobs_of caller s.pending_queue + held_of caller s.position + jobs_of caller s.running

-- The settlements of a caller, made and still to make, if `p` is where the loop stands.
abbrev account_at : ℕ → Position → Scheduler → ℕ
account_at caller p s =
    times_settled caller s.settled
    + jobs_of caller s.pending_queue
    + held_of caller p
    + jobs_of caller s.running

abbrev account : ℕ → Scheduler → ℕ
account caller s = account_at caller s.position s

jobs_of-append :
    (caller : ℕ) (xs ys : List Job)
    → jobs_of caller (xs ++ ys) ≡ jobs_of caller xs + jobs_of caller ys
jobs_of-append caller [] ys = omega arith
jobs_of-append caller (x ∷ xs) ys = omega (arith, jobs_of-append caller xs ys)

times_settled-append :
    (caller : ℕ) (xs ys : List (ℕ × Settlement))
    → times_settled caller (xs ++ ys) ≡ times_settled caller xs + times_settled caller ys
times_settled-append caller [] ys = omega arith
times_settled-append caller (x ∷ xs) ys = omega (arith, times_settled-append caller xs ys)

jobs_of-without_job :
    (caller k : ℕ) (item : Job) (js : List Job)
    → job_of k js ≡ some item
    → jobs_of caller (without_job k js) + same_caller item.caller caller ≡ jobs_of caller js
jobs_of-without_job caller k item [] h = cc
jobs_of-without_job caller k item (j ∷ js) h = ground (arith, jobs_of-without_job caller k item js)

module _ (caller : ℕ) (c : Config) (now : ℕ) where
  wait-account :
      (yields : ℕ) (s : Scheduler)
      → account caller (wait_for_live_fanout_quiet c now yields s) ≡ account_at caller idle s
  unfolding wait_for_live_fanout_quiet
  wait-account yields s = ground arith

  drain_on-account :
      (queue : List Job) (s : Scheduler)
      → account caller (drain_on c now queue s) ≡ account_at caller idle s
  unfolding drain_on
  drain_on-account [] s = refl
  drain_on-account (j ∷ js) s = wait-account 0 s

  launch-account :
      (item : Job) (s : Scheduler)
      → account caller (launch c now item s) ≡ account_at caller (jittering item) s
  unfolding launch drain_head
  launch-account item s = omega (
    arith,
    drain_on-account s.pending_queue (record s {
      running = s.running ++ item ∷ [];
      in_flight_by_socket = map_set item.hydration_key item.caller s.in_flight_by_socket;
    }),
    jobs_of-append caller s.running (item ∷ []),
  )

  take_item-account :
      (is_open : Bool) (jitter : ℕ) (item : Job) (s : Scheduler)
      → account caller (take_item c now is_open jitter item s)
        ≡ account_at caller (jittering item) s
  unfolding take_item drain_head prune_recent_hydrations
  take_item-account false jitter item s = omega (
    arith,
    drain_on-account s.pending_queue _,
    times_settled-append caller s.settled
        ((item.caller, Settlement.resolved (HydrationResult.skipped "closed_socket")) ∷ []),
  )
  take_item-account true jitter item s = elim (Bool-cases (c.protection_enabled && ltb 0 jitter)) [
    | inl waits ↦ rw waits refl
    | inr goes_on ↦ rw goes_on (launch-account item _)
  ]

  take_from-account :
      (is_open : Bool) (jitter : ℕ) (queue : List Job) (s : Scheduler)
      → s.pending_queue ≡ queue
      → account caller (take_from c now is_open jitter queue s) ≡ account_at caller idle s
  unfolding take_from
  take_from-account is_open jitter [] s h = refl
  take_from-account is_open jitter (item ∷ rest) s h = omega (
    arith,
    ap (jobs_of caller) h,
    take_item-account is_open jitter item (record s { pending_queue = rest }),
  )

  check_slot-account :
      (is_open : Bool) (jitter : ℕ) (s : Scheduler)
      → account caller (check_slot c now is_open jitter s) ≡ account_at caller idle s
  unfolding check_slot
  check_slot-account is_open jitter s =
      elim (Bool-cases (leb c.max_concurrent s.active_hydrations)) [
        | inl full ↦ rw full refl
        | inr room ↦ rw room (take_from-account is_open jitter s.pending_queue s refl)
      ]

  resume-account :
      (is_open : Bool) (jitter : ℕ) (p : Position) (s : Scheduler)
      → s.position ≡ p
      → account caller (resume c now is_open jitter p s) ≡ account_at caller p s
  unfolding resume drain_head
  resume-account is_open jitter idle s e = ap (λ q. account_at caller q s) e
  resume-account is_open jitter (pausing yields) s e = wait-account (yields + 1) s
  resume-account is_open jitter quiet s e = check_slot-account is_open jitter s
  resume-account is_open jitter waiting_slot s e = drain_on-account s.pending_queue s
  resume-account is_open jitter (jittering item) s e = launch-account item s

  answer-account :
      (result : Option (Option HydrationResult)) (item : Job) (s : Scheduler)
      → account caller (answer now item result s)
        ≡ account caller s + same_caller item.caller caller
  unfolding answer
  answer-account none item s =
      omega (arith, times_settled-append caller s.settled ((item.caller, Settlement.rejected) ∷ []))
  answer-account (some result) item s = omega (
    arith,
    times_settled-append caller s.settled
        ((item.caller, Settlement.resolved (or_hydrated result)) ∷ []),
  )

  answer_found-account :
      (k : ℕ) (result : Option (Option HydrationResult)) (o : Option Job) (s : Scheduler)
      → job_of k s.running ≡ o
      → account caller (answer_found now k result o s) ≡ account caller s
  unfolding answer_found
  answer_found-account k result none s h = refl
  answer_found-account k result (some item) s h = omega (
    arith,
    jobs_of-without_job caller k item s.running h,
    answer-account result item
        (record s { running = without_job k s.running; finishing = s.finishing ++ item ∷ [] }),
  )

  finish_found-account :
      (k : ℕ) (o : Option Job) (s : Scheduler)
      → account caller (finish_found c now k o s) ≡ account caller s
  unfolding finish_found prune_recent_hydrations
  finish_found-account k none s = refl
  finish_found-account k (some item) s = refl

callback-account :
    (caller : ℕ) (c : Config) (e : Surroundings) (running finishing : List Job) (s : Scheduler)
    → account caller (callback c e running finishing s) ≡ account caller s
unfolding callback hydration_answered hydration_finished drain_step
callback-account caller c e (item ∷ rest) finishing s =
    answer_found-account caller c e.now item.caller e.result (job_of item.caller s.running) s refl
callback-account caller c e [] (item ∷ rest) s =
    finish_found-account caller c e.now item.caller (job_of item.caller s.finishing) s
callback-account caller c e [] [] s =
    resume-account caller c e.now e.is_open e.jitter s.position s refl

work-account :
    (caller : ℕ) (c : Config) (es : List Surroundings) (s : Scheduler)
    → account caller (work c es s) ≡ account caller s
unfolding work
work-account caller c [] s = refl
work-account caller c (e ∷ es) s =
    work-account caller c es (work_step c e s) ∙ callback-account caller c e s.running s.finishing s

-- From a state with the invariant, if at least one hydration may run at a time, then after as many
-- callbacks as the state's weight, in the order of `work`, which takes an answer of a hydration first, then
-- an ending, and the loop only if there is neither, each caller's promise is settled exactly once for
-- each of its jobs that waits, starts or runs, whatever the clock, the sockets, the jitter and the
-- hydrations say.
pub work-settles :
    (caller : ℕ) (c : Config) (es : List Surroundings) (s : Scheduler)
    → IsConsistent c s
    → 0 < c.max_concurrent
    → weight c s ≤ length es
    → times_settled caller (work c es s).settled
      ≡ times_settled caller s.settled + unsettled caller s
work-settles caller c es s v l h =
    let r : IsAtRest (work c es s) = work-IsAtRest c es s v l h in
    omega (
      arith,
      work-account caller c es s,
      ap (jobs_of caller) r.none_pending,
      ap (held_of caller) r.stopped,
      ap (jobs_of caller) r.none_running,
    )
