-- ===== src/Hydration/Scheduler.antt =====
-- backend/src/websocket/bootstrapHydrationScheduler.ts: the scheduler's state and its operations.
-- A caller of `enqueueHydration` is a number; what its promise is settled with stands in `settled`.
use Prim.Native.String
use cse356_discord.Common.{
  ℕ, ◌+◌, ◌-◌, String, Bool, true, false, not, ◌&&◌, Option, none, some, List, [], ◌∷◌, ◌++◌, ltb,
  leb, if◌then◌else◌, ◌==◌, nat_eq, string_eq, keep, map_set, map_delete,
}

pub record Config : Type 0 where
  pub max_concurrent : ℕ
  pub coalesce_window_ms : ℕ
  pub live_fanout_max_yields : ℕ
  pub protection_enabled : Bool

pub data HydrationResult : Type 0 where
  hydrated : HydrationResult
  skipped : String → HydrationResult

-- What a promise is settled with.
pub data Settlement : Type 0 where
  resolved : HydrationResult → Settlement
  rejected : Settlement

pub record Job : Type 0 where
  pub caller : ℕ
  pub ws : ℕ
  pub channels : List String
  pub enqueued_at : ℕ
  pub fingerprint : String
  pub hydration_key : String

pub record Recent : Type 0 where
  pub hydrated_at : ℕ
  pub fingerprint : String

-- Where `drainQueue` waits: nowhere, as it does not run; for the fanout to be quiet, after a number of
-- pauses; to go on now that it is quiet; for a slot; or for the jitter before a job.
pub data Position : Type 0 where
  idle : Position
  pausing : ℕ → Position
  quiet : Position
  waiting_slot : Position
  jittering : Job → Position

-- `running` are the jobs given to `hydrateFn`, `finishing` those that it answered and whose `finally` is
-- to come. The promise in `inFlightBySocket` is the caller whose promise it is.
pub record Scheduler : Type 0 where
  pub active_hydrations : ℕ
  pub pending_queue : List Job
  pub in_flight_by_socket : List (String × ℕ)
  pub recent_hydrations : List (String × Recent)
  pub live_fanout_pending_count : ℕ
  pub live_fanout_signal_at : ℕ
  pub draining : Bool
  pub position : Position
  pub running : List Job
  pub finishing : List Job
  pub settled : List (ℕ × Settlement)

abbrev pub fresh_scheduler : Scheduler
fresh_scheduler = record {
  active_hydrations = 0;
  pending_queue = [];
  in_flight_by_socket = [];
  recent_hydrations = [];
  live_fanout_pending_count = 0;
  live_fanout_signal_at = 0;
  draining = false;
  position = idle;
  running = [];
  finishing = [];
  settled = [];
}

-- `hydrationKeyFor`: the connection's id, trimmed (empty if there is none), else the socket's own key.
unfoldable pub hydration_key_for : String → String → String → String
hydration_key_for user_id connection_id own_key =
    if connection_id == ""
    then String.◌++◌ user_id (String.◌++◌ ":" own_key)
    else String.◌++◌ user_id (String.◌++◌ ":" connection_id)

-- `entry.hydratedAt < nowMs - COALESCE_WINDOW_MS` is the case for which an entry goes.
abbrev pub is_recent : Config → ℕ → String × Recent → Bool
is_recent c now (_, entry) = not (ltb (entry.hydrated_at + c.coalesce_window_ms) now)

unfoldable pub prune_recent_hydrations : Config → ℕ → Scheduler → Scheduler
prune_recent_hydrations c now s = record s {
  recent_hydrations = keep (is_recent c now) s.recent_hydrations;
}

-- A signal counts for 100 ms.
unfoldable pub is_live_fanout_active : ℕ → Scheduler → Bool
is_live_fanout_active now s =
    if s.live_fanout_pending_count == 0 then false else ltb now (s.live_fanout_signal_at + 100)

abbrev at_position : Position → Scheduler → Scheduler
at_position p s = record s { position = p }

abbrev settle : ℕ → Settlement → Scheduler → Scheduler
settle caller outcome s = record s { settled = s.settled ++ (caller, outcome) ∷ [] }

-- The test of the loop in `waitForLiveFanoutQuiet`.
unfoldable pub wait_for_live_fanout_quiet : Config → ℕ → ℕ → Scheduler → Scheduler
unfolding is_live_fanout_active
wait_for_live_fanout_quiet c now yields s =
    if c.protection_enabled && is_live_fanout_active now s && ltb yields c.live_fanout_max_yields
    then at_position (pausing yields) s
    else at_position quiet s

-- The test of the loop in `drainQueue`, up to the first await of the loop's body.
unfoldable pub drain_on : Config → ℕ → List Job → Scheduler → Scheduler
unfolding wait_for_live_fanout_quiet
drain_on c now [] s = record s { draining = false; position = idle }
drain_on c now (_ ∷ _) s = wait_for_live_fanout_quiet c now 0 s

unfoldable pub drain_head : Config → ℕ → Scheduler → Scheduler
unfolding drain_on
drain_head c now s = drain_on c now s.pending_queue s

unfoldable pub drain_queue : Config → ℕ → Scheduler → Scheduler
unfolding drain_head
drain_queue c now s = if s.draining then s else drain_head c now (record s { draining = true })

-- `hydrateFn` is called in the background, and the loop goes on.
unfoldable pub launch : Config → ℕ → Job → Scheduler → Scheduler
unfolding drain_head
launch c now item s = drain_head c now (record s {
  running = s.running ++ item ∷ [];
  in_flight_by_socket = map_set item.hydration_key item.caller s.in_flight_by_socket;
})

-- The loop's body from the shift on; `is_open` is the state of the item's socket.
unfoldable pub take_item : Config → ℕ → Bool → ℕ → Job → Scheduler → Scheduler
unfolding drain_head prune_recent_hydrations launch
take_item c now is_open jitter item s =
    if not is_open
    then drain_head c now (
        prune_recent_hydrations c now (record s {
          settled = s.settled ++ (item.caller, resolved (skipped "closed_socket")) ∷ [];
          in_flight_by_socket = map_delete item.hydration_key s.in_flight_by_socket;
        }))
    else (let started =
          prune_recent_hydrations c now
            (record s { active_hydrations = s.active_hydrations + 1 }) in
        if c.protection_enabled && ltb 0 jitter
        then at_position (jittering item) started
        else launch c now item started)

-- `pendingQueue.shift()`, and what follows.
unfoldable pub take_from : Config → ℕ → Bool → ℕ → List Job → Scheduler → Scheduler
unfolding take_item
take_from c now is_open jitter [] s = record s { draining = false; position = idle }
take_from c now is_open jitter (item ∷ rest) s =
    take_item c now is_open jitter item (record s { pending_queue = rest })

-- The loop's body after the wait for quiet.
unfoldable pub check_slot : Config → ℕ → Bool → ℕ → Scheduler → Scheduler
unfolding take_from
check_slot c now is_open jitter s =
    if leb c.max_concurrent s.active_hydrations
    then at_position waiting_slot s
    else take_from c now is_open jitter s.pending_queue s

-- The loop goes on from where it waits. `is_open` is the state of the socket of the head of the queue.
unfoldable pub resume : Config → ℕ → Bool → ℕ → Position → Scheduler → Scheduler
unfolding wait_for_live_fanout_quiet check_slot drain_head launch
resume c now is_open jitter idle s = s
resume c now is_open jitter (pausing yields) s = wait_for_live_fanout_quiet c now (yields + 1) s
resume c now is_open jitter quiet s = check_slot c now is_open jitter s
resume c now is_open jitter waiting_slot s = drain_head c now s
resume c now is_open jitter (jittering item) s = launch c now item s

unfoldable pub drain_step : Config → ℕ → Bool → ℕ → Scheduler → Scheduler
unfolding resume
drain_step c now is_open jitter s = resume c now is_open jitter s.position s

-- `result || { status: 'hydrated' }`
abbrev pub or_hydrated : Option HydrationResult → HydrationResult
or_hydrated none = hydrated
or_hydrated (some r) = r

-- Only a job that was hydrated is remembered.
abbrev noted : ℕ → Job → HydrationResult → List (String × Recent) → List (String × Recent)
noted now item hydrated recent =
    map_set item.hydration_key (record { hydrated_at = now; fingerprint = item.fingerprint }) recent
noted now item (skipped _) recent = recent

-- The `then` or the `catch` after `hydrateFn`; `none` is a rejection.
unfoldable pub answer : ℕ → Job → Option (Option HydrationResult) → Scheduler → Scheduler
answer now item none s = settle item.caller rejected s
answer now item (some result) s =
    settle item.caller (resolved (or_hydrated result))
      (record s { recent_hydrations = noted now item (or_hydrated result) s.recent_hydrations })

-- The first job of a caller, and the jobs without it.
abbrev pub job_of : ℕ → List Job → Option Job
job_of caller [] = none
job_of caller (j ∷ js) = if j.caller == caller then some j else job_of caller js

abbrev pub without_job : ℕ → List Job → List Job
without_job caller [] = []
without_job caller (j ∷ js) = if j.caller == caller then js else j ∷ without_job caller js

unfoldable pub answer_found :
    ℕ → ℕ → Option (Option HydrationResult) → Option Job → Scheduler → Scheduler
unfolding answer
answer_found now caller result none s = s
answer_found now caller result (some item) s =
    answer now item result
      (record s { running = without_job caller s.running; finishing = s.finishing ++ item ∷ [] })

-- `hydrateFn` answers the job of a caller.
unfoldable pub hydration_answered : ℕ → ℕ → Option (Option HydrationResult) → Scheduler → Scheduler
unfolding answer_found
hydration_answered now caller result s = answer_found now caller result (job_of caller s.running) s

unfoldable pub finish_found : Config → ℕ → ℕ → Option Job → Scheduler → Scheduler
unfolding prune_recent_hydrations
finish_found c now caller none s = s
finish_found c now caller (some item) s = prune_recent_hydrations c now (record s {
  active_hydrations = s.active_hydrations - 1;
  in_flight_by_socket = map_delete item.hydration_key s.in_flight_by_socket;
  finishing = without_job caller s.finishing;
})

-- The `finally` of that job; the drain that it schedules is a step of its own.
unfoldable pub hydration_finished : Config → ℕ → ℕ → Scheduler → Scheduler
unfolding finish_found
hydration_finished c now caller s = finish_found c now caller (job_of caller s.finishing) s
