-- ===== src/Hydration/Tests.antt =====
-- A connection that asks twice of bootstrapHydrationScheduler.ts.
use cse356_discord.Common.{◌+◌, ◌≡◌, refl, true, none, some, List, [], ◌∷◌, arith, string_eq}
use cse356_discord.Hydration.Scheduler.{Config, Job, Scheduler, fresh_scheduler, drain_step}
use cse356_discord.Hydration.Requests.{enqueue_hydration}
use cse356_discord.Hydration.Invariant.{IsConsistent}
use cse356_discord.Hydration.Steps.{Step, Reach, Reach-IsConsistent}
use cse356_discord.Hydration.Work.{Surroundings, work}
use cse356_discord.Hydration.Rest.{IsAtRest, work-IsAtRest}
use cse356_discord.Hydration.Settled.{times_settled, unsettled, work-settles}
use cse356_discord.Hydration.Coalescing.{Reach-no_second}

abbrev setup : Config
setup = record {
  max_concurrent = 2;
  coalesce_window_ms = 5000;
  live_fanout_max_yields = 3;
  protection_enabled = true;
}

abbrev first_job : Job
first_job = record {
  caller = 1;
  ws = 7;
  channels = "c" ∷ [];
  enqueued_at = 10;
  fingerprint = "1:c";
  hydration_key = "u:s";
}

abbrev later_job : Job
later_job = record first_job { caller = 2; enqueued_at = 90 }

abbrev queued : Scheduler
queued = (enqueue_hydration setup 10 first_job fresh_scheduler).0

queued-Reach : Reach setup queued
queued-Reach = Reach.next fresh_scheduler _ Reach.start (Step.enqueues 10 first_job)

abbrev launched : Scheduler
launched = drain_step setup 11 true 0 queued

launched-Reach : Reach setup launched
launched-Reach = Reach.next queued _ queued-Reach (Step.goes_on 11 true 0)

abbrev quick : Surroundings
quick = record { now = 20; is_open = true; jitter = 0; result = some none }

abbrev many : List Surroundings
many = quick ∷ quick ∷ quick ∷ quick ∷ quick ∷ quick ∷ quick ∷ quick ∷ quick ∷ quick ∷ []

Reach-IsConsistent_example : IsConsistent setup launched
Reach-IsConsistent_example = Reach-IsConsistent setup launched launched-Reach

Reach-no_second_example :
    (enqueue_hydration setup 12 later_job launched).0.pending_queue ≡ launched.pending_queue
unfolding enqueue_hydration drain_step
Reach-no_second_example =
    Reach-no_second setup 12 later_job launched launched-Reach refl (omega arith)

work-IsAtRest_example : IsAtRest (work setup many queued)
unfolding enqueue_hydration
work-IsAtRest_example =
    work-IsAtRest setup many queued (Reach-IsConsistent setup queued queued-Reach) (omega arith)
      (omega arith)

work-settles_example :
    times_settled 1 (work setup many queued).settled
    ≡ times_settled 1 queued.settled + unsettled 1 queued
unfolding enqueue_hydration
work-settles_example =
    work-settles 1 setup many queued (Reach-IsConsistent setup queued queued-Reach) (omega arith)
      (omega arith)
