-- ===== src/Hydration/Coalescing.antt =====
-- When bootstrapHydrationScheduler.ts hydrates a connection again, and when it does not.
use cse356_discord.Common.{
  ℕ, ◌+◌, ◌≤◌, ◌<◌, ◌≡◌, refl, String, true, inl, inr, Option, none, some, List, [], ◌∷◌, ◌++◌,
  arith, string_eq, nat_eq, Bool-cases, Option-cases, ap, map_get, map_get-map_set_self, keep,
  size_of,
}
use text.Mathlib.TextEquality.{eq_iff}
use cse356_discord.Hydration.Scheduler.{
  Config, Job, Recent, Scheduler, HydrationResult, skipped, hydrated, job_of, without_job,
  is_recent, prune_recent_hydrations, answer_found, finish_found, hydration_answered,
  hydration_finished, answer, or_hydrated,
}
use cse356_discord.Hydration.Requests.{Response, enqueue_hydration, enqueue_if_free, is_coalesced}
use cse356_discord.Hydration.Invariant.{with_key, held, one}
use cse356_discord.Hydration.Steps.{Reach, Reach-IsConsistent}

map_get-prune :
    (c : Config) (now : ℕ) (k : String) (v : Recent) (m : List (String × Recent))
    → map_get k m ≡ some v
    → (now ≤ v.hydrated_at + c.coalesce_window_ms)
    → map_get k (keep (is_recent c now) m) ≡ some v
map_get-prune c now k v [] h l = cc
map_get-prune c now k v ((j, w) ∷ m) h l = ground (arith, map_get-prune c now k v m)

-- In every state that a fresh scheduler can reach, if protection is on and a connection's hydration
-- waits, starts, runs or finishes, a further request for the connection adds nothing to the queue.
pub Reach-no_second :
    (c : Config) (now : ℕ) (job : Job) (s : Scheduler)
    → Reach c s
    → c.protection_enabled ≡ true
    → 0
      < with_key job.hydration_key s.pending_queue
        + held job.hydration_key s.position
        + with_key job.hydration_key s.running
        + with_key job.hydration_key s.finishing
    → (enqueue_hydration c now job s).0.pending_queue ≡ s.pending_queue
unfolding enqueue_hydration enqueue_if_free prune_recent_hydrations
Reach-no_second c now job s r on busy =
    elim (Option-cases (map_get job.hydration_key s.in_flight_by_socket)) [
      | inl free ↦ absurd (
          omega
            (arith, (Reach-IsConsistent c s r).0.one_each job.hydration_key, ap (size_of one) free))
      | inr (caller, taken) ↦
          rw on
            (elim (Bool-cases (
              is_coalesced c now job.fingerprint
                (map_get job.hydration_key (prune_recent_hydrations c now s).recent_hydrations))) [
                  | inl recent ↦ rw recent refl
                  | inr new ↦ rw (new, taken) refl
                ])
    ]

answered_recent :
    (now : ℕ) (result : Option HydrationResult) (item : Job) (s : Scheduler)
    → or_hydrated result ≡ hydrated
    → map_get item.hydration_key (answer now item (some result) s).recent_hydrations
      ≡ some (record { hydrated_at = now; fingerprint = item.fingerprint })
unfolding answer
answered_recent now result item s h =
    rw h (map_get-map_set_self item.hydration_key _ s.recent_hydrations)

finished_recent :
    (c : Config) (now caller : ℕ) (o : Option Job) (k : String) (v : Recent) (s : Scheduler)
    → map_get k s.recent_hydrations ≡ some v
    → now ≤ v.hydrated_at + c.coalesce_window_ms
    → map_get k (finish_found c now caller o s).recent_hydrations ≡ some v
unfolding finish_found prune_recent_hydrations
finished_recent c now caller none k v s h l = h
finished_recent c now caller (some item) k v s h l = map_get-prune c now k v s.recent_hydrations h l

pruned_recent :
    (c : Config) (now : ℕ) (k : String) (v : Recent) (s : Scheduler)
    → map_get k s.recent_hydrations ≡ some v
    → now ≤ v.hydrated_at + c.coalesce_window_ms
    → map_get k (prune_recent_hydrations c now s).recent_hydrations ≡ some v
unfolding prune_recent_hydrations
pruned_recent c now k v s h l = map_get-prune c now k v s.recent_hydrations h l

-- After the hydration of a connection was answered as done and has finished, and with protection on, a
-- request for that connection with the same list of channels that comes within the window of the answer,
-- and not before the end, is told that it is skipped.
pub hydrated-coalesces :
    (c : Config) (answered finished now caller : ℕ) (result : Option HydrationResult)
    (item job : Job) (s : Scheduler)
    → c.protection_enabled ≡ true
    → job_of caller s.running ≡ some item
    → or_hydrated result ≡ hydrated
    → job.hydration_key ≡ item.hydration_key
    → job.fingerprint ≡ item.fingerprint
    → finished ≤ now
    → now < answered + c.coalesce_window_ms
    → (enqueue_hydration c now job (
        hydration_finished c finished caller
          (hydration_answered answered caller (some result) s))).1
      ≡ Response.done (skipped "recent_hydration")
unfolding enqueue_hydration hydration_answered hydration_finished answer_found
hydrated-coalesces c answered finished now caller result item job s on running h key fp l w =
    let s0 : Scheduler = record s {
      running = without_job caller s.running;
      finishing = s.finishing ++ item ∷ [];
    } in
    let s1 : Scheduler = answer answered item (some result) s0 in
    let v : Recent = record { hydrated_at = answered; fingerprint = item.fingerprint } in
    let s2 : Scheduler = finish_found c finished caller (job_of caller s1.finishing) s1 in
    let there : map_get item.hydration_key s2.recent_hydrations ≡ some v =
      finished_recent c finished caller (job_of caller s1.finishing) item.hydration_key v s1
        (answered_recent answered result item s0 h) (omega arith) in
    let kept : map_get item.hydration_key (prune_recent_hydrations c now s2).recent_hydrations
        ≡ some v =
      pruned_recent c now item.hydration_key v s2 there (omega arith) in
    let recent : is_coalesced c now job.fingerprint
          (map_get item.hydration_key (prune_recent_hydrations c now s2).recent_hydrations)
        ≡ true =
      rw kept (ground (arith, eq_iff item.fingerprint item.fingerprint)) in
    rw (running, on, key) (rw recent refl)
