-- ===== src/Hydration/Requests.antt =====
-- backend/src/websocket/bootstrapHydrationScheduler.ts: what callers ask of the scheduler.
use Prim.Native.String
use text.Mathlib.Text.{starts_with}
use cse356_discord.Common.{
  ℕ, ◌+◌, ◌-◌, String, Bool, false, not, ◌&&◌, Option, none, some, List, [], ◌∷◌, ◌++◌, ltb,
  if◌then◌else◌, ◌==◌, string_eq, any, map_get, map_set,
}
use cse356_discord.Hydration.Scheduler.{
  Config, HydrationResult, Job, Recent, Scheduler, prune_recent_hydrations, drain_queue,
}

-- What `channelFingerprint` uses of the runtime: the sort of texts, and the text of a number.
pub record Runtime : Type 0 where
  pub sort : List String → List String
  pub text_of : ℕ → String

abbrev pub join : String → List String → String
join separator [] = ""
join separator (s ∷ []) = s
join separator (s ∷ t ∷ ss) = String.◌++◌ s (String.◌++◌ separator (join separator (t ∷ ss)))

abbrev count_of : List String → ℕ
count_of [] = 0
count_of (s ∷ ss) = count_of ss + 1

unfoldable pub channel_fingerprint : Runtime → List String → String
channel_fingerprint r [] = "0:"
channel_fingerprint r (s ∷ ss) =
    let normalized = r.sort (s ∷ ss) in
    String.◌++◌ (r.text_of (count_of normalized)) (String.◌++◌ ":" (join "\n" normalized))

-- What `enqueueHydration` gives its caller: the promise of a direct call of `hydrateFn`, a promise that is
-- resolved, one that waits for the promise of another caller, or one of its own.
pub data Response : Type 0 where
  direct : Response
  done : HydrationResult → Response
  joins : ℕ → Response
  queued : Response

abbrev pub is_coalesced : Config → ℕ → String → Option Recent → Bool
is_coalesced c now fingerprint none = false
is_coalesced c now fingerprint (some recent) =
    recent.fingerprint == fingerprint && ltb now (recent.hydrated_at + c.coalesce_window_ms)

-- The new promise: pushed, the drain started, and only then noted as in flight.
unfoldable pub enqueue_job : Config → ℕ → Job → Scheduler → Scheduler
unfolding prune_recent_hydrations drain_queue
enqueue_job c now job s =
    let drained =
      drain_queue c now (
        prune_recent_hydrations c now (record s { pending_queue = s.pending_queue ++ job ∷ [] })) in
    record drained {
      in_flight_by_socket = map_set job.hydration_key job.caller drained.in_flight_by_socket;
    }

-- The test for a promise in flight, and the new promise otherwise.
unfoldable pub enqueue_if_free : Config → ℕ → Job → Option ℕ → Scheduler → Scheduler × Response
unfolding enqueue_job
enqueue_if_free c now job (some caller) s = (s, Response.joins caller)
enqueue_if_free c now job none s = (enqueue_job c now job s, Response.queued)

unfoldable pub enqueue_hydration : Config → ℕ → Job → Scheduler → Scheduler × Response
unfolding prune_recent_hydrations enqueue_if_free
enqueue_hydration c now job s =
    let s' = prune_recent_hydrations c now s in
    if not c.protection_enabled
    then (s, Response.direct)
    else (if is_coalesced c now job.fingerprint (map_get job.hydration_key s'.recent_hydrations)
        then (s', Response.done (HydrationResult.skipped "recent_hydration"))
        else enqueue_if_free c now job (map_get job.hydration_key s'.in_flight_by_socket) s')

unfoldable pub signal_live_fanout_pending : ℕ → Scheduler → Scheduler
signal_live_fanout_pending now s = record s {
  live_fanout_pending_count = s.live_fanout_pending_count + 1;
  live_fanout_signal_at = now;
}

unfoldable pub release_live_fanout_pending : Scheduler → Scheduler
release_live_fanout_pending s = record s {
  live_fanout_pending_count = s.live_fanout_pending_count - 1;
}

unfoldable pub was_user_recently_hydrated : Config → ℕ → String → Scheduler → Scheduler × Bool
unfolding prune_recent_hydrations
was_user_recently_hydrated c now user_id s =
    let s' = prune_recent_hydrations c now s in
    (
      s',
      any (λ (e : String × Recent). starts_with e.0 (String.◌++◌ user_id ":")) s'.recent_hydrations,
    )

unfoldable pub mark_user_hydrated : Config → ℕ → String → Scheduler → Scheduler
unfolding prune_recent_hydrations
mark_user_hydrated c now user_id s = prune_recent_hydrations c now (record s {
  recent_hydrations =
      map_set (String.◌++◌ user_id ":manual") (record { hydrated_at = now; fingerprint = "manual" })
        s.recent_hydrations;
})
