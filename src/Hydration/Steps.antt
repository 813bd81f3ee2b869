-- ===== src/Hydration/Steps.antt =====
-- bootstrapHydrationScheduler.ts over every interleaving of its callers, its loop and the hydrations.
use text.Mathlib.TextEquality.{eq_iff}
use cse356_discord.Common.{
  ℕ, ◌≡◌, refl, ◌∙◌, String, Bool, true, inl, inr, Option, none, some, List, [], ◌∷◌, ◌++◌, arith,
  string_eq, Bool-cases, not, map_get, map_set, map_get-map_set, ap, sym,
}
use cse356_discord.Hydration.Scheduler.{
  Config, Job, Scheduler, HydrationResult, fresh_scheduler, prune_recent_hydrations, drain_on,
  drain_head, drain_queue, wait_for_live_fanout_quiet, drain_step, hydration_answered,
  hydration_finished,
}
use cse356_discord.Hydration.Requests.{
  enqueue_job, enqueue_hydration, is_coalesced, enqueue_if_free, signal_live_fanout_pending,
  release_live_fanout_pending, was_user_recently_hydrated, mark_user_hydrated,
}
use cse356_discord.Hydration.Invariant.{
  TallyAt, IsConsistent, with_key-append, drain_queue-IsConsistent,
}
use cse356_discord.Hydration.Kept.{
  drain_step-IsConsistent, hydration_answered-IsConsistent, hydration_finished-IsConsistent,
}

module _ (c : Config) (now : ℕ) (m : List (String × ℕ)) where
  wait-in_flight :
      (yields : ℕ) (s : Scheduler)
      → wait_for_live_fanout_quiet c now yields (record s { in_flight_by_socket = m })
        ≡ record (wait_for_live_fanout_quiet c now yields s) { in_flight_by_socket = m }
  unfolding wait_for_live_fanout_quiet
  wait-in_flight yields s = ground arith

  drain_on-in_flight :
      (queue : List Job) (s : Scheduler)
      → drain_on c now queue (record s { in_flight_by_socket = m })
        ≡ record (drain_on c now queue s) { in_flight_by_socket = m }
  unfolding drain_on
  drain_on-in_flight [] s = refl
  drain_on-in_flight (item ∷ rest) s = wait-in_flight 0 s

  -- The drain does not read the map of promises before its first await.
  drain_queue-in_flight :
      (s : Scheduler)
      → drain_queue c now (record s { in_flight_by_socket = m })
        ≡ record (drain_queue c now s) { in_flight_by_socket = m }
  unfolding drain_queue drain_head
  drain_queue-in_flight s = elim (Bool-cases s.draining) [
    | inl on ↦ rw on refl
    | inr off ↦ rw off (drain_on-in_flight s.pending_queue (record s { draining = true }))
  ]

module _ (c : Config) (now : ℕ) where
  -- So the promise might as well be noted before the drain starts.
  abbrev enqueued : Job → Scheduler → Scheduler
  enqueued job s = record (prune_recent_hydrations c now s) {
    pending_queue = s.pending_queue ++ job ∷ [];
    in_flight_by_socket = map_set job.hydration_key job.caller s.in_flight_by_socket;
  }

  enqueue_job-drains :
      (job : Job) (s : Scheduler) → enqueue_job c now job s ≡ drain_queue c now (enqueued job s)
  unfolding enqueue_job prune_recent_hydrations
  enqueue_job-drains job s =
      let pushed : Scheduler =
        prune_recent_hydrations c now (record s { pending_queue = s.pending_queue ++ job ∷ [] }) in
      let kept : (drain_queue c now pushed).in_flight_by_socket ≡ s.in_flight_by_socket =
        ap (λ (x : Scheduler). x.in_flight_by_socket)
          (drain_queue-in_flight c now s.in_flight_by_socket pushed) in
      ap
        (λ (m : List (String × ℕ)). record (drain_queue c now pushed) {
          in_flight_by_socket = map_set job.hydration_key job.caller m;
        })
        kept
      ∙ sym (
          drain_queue-in_flight c now (map_set job.hydration_key job.caller s.in_flight_by_socket)
            pushed)

  enqueue_job-IsConsistent :
      (job : Job) (s : Scheduler)
      → map_get job.hydration_key s.in_flight_by_socket ≡ none
      → IsConsistent c s
      → IsConsistent c (enqueue_job c now job s)
  unfolding prune_recent_hydrations
  enqueue_job-IsConsistent job s free (t, w) =
      let tally : TallyAt c s.position (enqueued job s) = record {
        one_each = λ k. ground (
          arith,
          t.one_each k,
          with_key-append k s.pending_queue (job ∷ []),
          map_get-map_set job.hydration_key k job.caller s.in_flight_by_socket,
          eq_iff job.hydration_key k,
        );
        counted = t.counted;
        capped = t.capped;
      } in
      rw (enqueue_job-drains job s)
        (drain_queue-IsConsistent c now (enqueued job s) tally w.flagged w.patient)

  enqueue_if_free-IsConsistent :
      (job : Job) (o : Option ℕ) (s : Scheduler)
      → map_get job.hydration_key s.in_flight_by_socket ≡ o
      → IsConsistent c s
      → IsConsistent c (enqueue_if_free c now job o s).0
  unfolding enqueue_if_free
  enqueue_if_free-IsConsistent job (some caller) s e v = v
  enqueue_if_free-IsConsistent job none s e v = enqueue_job-IsConsistent job s e v

  pub enqueue_hydration-IsConsistent :
      (job : Job) (s : Scheduler)
      → IsConsistent c s
      → IsConsistent c (enqueue_hydration c now job s).0
  unfolding enqueue_hydration prune_recent_hydrations
  enqueue_hydration-IsConsistent job s v = elim (Bool-cases (not c.protection_enabled)) [
    | inl off ↦ rw off v
    | inr on ↦
        rw on
          (elim (Bool-cases (
            is_coalesced c now job.fingerprint
              (map_get job.hydration_key (prune_recent_hydrations c now s).recent_hydrations))) [
                | inl recent ↦ rw recent v
                | inr new ↦ rw new (
                    enqueue_if_free-IsConsistent job
                      (map_get job.hydration_key s.in_flight_by_socket) _ refl v)
              ])
  ]

-- What can happen: a caller enqueues, the drain starts or goes on, `hydrateFn` answers, its `finally` runs,
-- the fanout signals, or someone asks or notes who was hydrated.
pub data Step (c : Config) (s : Scheduler) : Scheduler → Type 0 where
  enqueues : (now : ℕ) (job : Job) → Step c s (enqueue_hydration c now job s).0
  drains : (now : ℕ) → Step c s (drain_queue c now s)
  goes_on : (now : ℕ) (is_open : Bool) (jitter : ℕ) → Step c s (drain_step c now is_open jitter s)
  answers :
      (now caller : ℕ) (result : Option (Option HydrationResult))
      → Step c s (hydration_answered now caller result s)
  finishes : (now caller : ℕ) → Step c s (hydration_finished c now caller s)
  signals : (now : ℕ) → Step c s (signal_live_fanout_pending now s)
  releases : Step c s (release_live_fanout_pending s)
  asks : (now : ℕ) (user_id : String) → Step c s (was_user_recently_hydrated c now user_id s).0
  marks : (now : ℕ) (user_id : String) → Step c s (mark_user_hydrated c now user_id s)

pub data Reach (c : Config) : Scheduler → Type 0 where
  start : Reach c fresh_scheduler
  next : (s s' : Scheduler) → Reach c s → Step c s s' → Reach c s'

Step-IsConsistent :
    (c : Config) (s s' : Scheduler) → Step c s s' → IsConsistent c s → IsConsistent c s'
unfolding signal_live_fanout_pending release_live_fanout_pending was_user_recently_hydrated
    mark_user_hydrated prune_recent_hydrations
Step-IsConsistent c s s' (enqueues now job) v = enqueue_hydration-IsConsistent c now job s v
Step-IsConsistent c s s' (drains now) (t, w) =
    drain_queue-IsConsistent c now s t w.flagged w.patient
Step-IsConsistent c s s' (goes_on now is_open jitter) v =
    drain_step-IsConsistent c now is_open jitter s v
Step-IsConsistent c s s' (answers now caller result) v =
    hydration_answered-IsConsistent c now caller result s v
Step-IsConsistent c s s' (finishes now caller) v = hydration_finished-IsConsistent c now caller s v
Step-IsConsistent c s s' (signals now) v = v
Step-IsConsistent c s s' releases v = v
Step-IsConsistent c s s' (asks now user_id) v = v
Step-IsConsistent c s s' (marks now user_id) v = v

-- In every state that a fresh scheduler can reach, the jobs that wait, start, run or finish are those
-- whose key has a promise in flight, one of a key; those past the queue are the active ones and within
-- the cap; the drain loop runs while a job waits, and has not paused more often than it may.
pub Reach-IsConsistent : (c : Config) (s : Scheduler) → Reach c s → IsConsistent c s
Reach-IsConsistent c s start = (
  record { one_each = λ k. refl; counted = refl; capped = omega arith },
  record { flagged = refl; served = inl refl; patient = tt },
)
Reach-IsConsistent c s (next before _ r step) =
    Step-IsConsistent c before s step (Reach-IsConsistent c before r)
