-- ===== src/InsertLock/Queue.antt =====
-- backend/src/messages/channelInsertConcurrency.ts: the per-channel wait queues of one process, and
-- the memory of recent timeouts. Time is an argument; metrics and logs are left out.
use cse356_discord.Common.{
  ℕ, ◌+◌, ◌-◌, ◌*◌, String, Bool, true, false, not, Option, none, some, List, [], ◌∷◌, ◌++◌, ltb,
  leb, if◌then◌else◌, ◌==◌, nat_eq, string_eq, length, keep, map_get, map_set, map_delete,
}

-- A `ChannelQueueEntry`: `id` is the object's identity, `resolved` says that its gate was opened.
pub record Entry : Type 0 where
  pub id : ℕ
  pub enqueued_at_ms : ℕ
  pub deadline_ms : ℕ
  pub resolved : Bool

pub record ChannelQueue : Type 0 where
  pub entries : List Entry
  pub active : Bool

-- The module's variables; `next_id` numbers the entry objects.
pub record Locks : Type 0 where
  pub channel_queues : List (String × ChannelQueue)
  pub recent_channel_timeout_at_ms : List (String × ℕ)
  pub waiters_total : ℕ
  pub next_id : ℕ

-- channelInsertLockEnv.ts
pub record LockConfig : Type 0 where
  pub wait_timeout_ms : ℕ
  pub poll_min_ms : ℕ
  pub poll_max_ms : ℕ
  pub max_waiters_per_channel : ℕ
  pub recent_timeout_window_ms : ℕ
  pub backoff_min_ms : ℕ
  pub backoff_max_ms : ℕ

abbrev pub or_zero : Option ℕ → ℕ
or_zero none = 0
or_zero (some n) = n

unfoldable pub prune_recent_timeout_map : LockConfig → ℕ → Locks → Locks
prune_recent_timeout_map c now s =
    if leb (length s.recent_channel_timeout_at_ms) 50000 then s else record s {
      recent_channel_timeout_at_ms =
          keep (λ e. not (ltb e.1 (now - c.recent_timeout_window_ms * 4)))
            s.recent_channel_timeout_at_ms;
    }

unfoldable pub mark_recent_channel_timeout : LockConfig → String → ℕ → Locks → Locks
unfolding prune_recent_timeout_map
mark_recent_channel_timeout c channel now s =
    prune_recent_timeout_map c now (record s {
      recent_channel_timeout_at_ms = map_set channel now s.recent_channel_timeout_at_ms;
    })

unfoldable pub should_suppress_channel_retry : LockConfig → String → ℕ → Locks → Bool
should_suppress_channel_retry c channel now s =
    let last_timeout_at = or_zero (map_get channel s.recent_channel_timeout_at_ms) in
    if last_timeout_at == 0 then false else leb (now - last_timeout_at) c.recent_timeout_window_ms

-- `queue.entries[0]?.resolve()`
abbrev pub resolve_first : List Entry → List Entry
resolve_first [] = []
resolve_first (e ∷ es) = record e { resolved = true } ∷ es

abbrev pub or_created : Option ChannelQueue → ChannelQueue
or_created none = record { entries = []; active = false }
or_created (some q) = q

abbrev pub set_queue : String → ChannelQueue → Locks → Locks
set_queue channel q s = record s { channel_queues = map_set channel q s.channel_queues }

-- The push of a new entry, which opens its gate if nobody is active.
abbrev pub pushed : ChannelQueue → Entry → ChannelQueue
pushed q e =
    if q.active
    then record { entries = q.entries ++ e ∷ []; active = true }
    else record { entries = resolve_first (q.entries ++ e ∷ []); active = true }

pub data Entered : Type 0 where
  recent_timeout_shed : Entered
  queue_reject : (waiters : ℕ) → Entered
  queued : Entry → Entered

abbrev pub new_entry : LockConfig → ℕ → Locks → Entry
new_entry c now s = record {
  id = s.next_id;
  enqueued_at_ms = now;
  deadline_ms = now + c.wait_timeout_ms;
  resolved = false;
}

-- `enterChannelInsertWaitQueue` from the queue on: the cap, or a new entry at the end.
unfoldable pub join_queue : LockConfig → String → ℕ → Locks → ChannelQueue → Locks × Entered
join_queue c channel now s q =
    if leb c.max_waiters_per_channel (length q.entries)
    then (set_queue channel q s, queue_reject (length q.entries))
    else (
      record (set_queue channel (pushed q (new_entry c now s)) s) {
        waiters_total = s.waiters_total + 1;
        next_id = s.next_id + 1;
      },
      queued (new_entry c now s),
    )

-- `enterChannelInsertWaitQueue` up to its wait on the gate. The queue is created before the cap is
-- looked at, as `getOrCreateChannelQueue` does.
unfoldable pub enter_channel_insert_wait_queue : LockConfig → String → ℕ → Locks → Locks × Entered
unfolding join_queue
enter_channel_insert_wait_queue c channel now s =
    if should_suppress_channel_retry c channel now s
    then (s, recent_timeout_shed)
    else join_queue c channel now s (or_created (map_get channel s.channel_queues))

-- `entries.splice(indexOf(entry), 1)`
unfoldable pub remove_entry : ℕ → List Entry → List Entry
remove_entry id [] = []
remove_entry id (e ∷ es) = if e.id == id then es else e ∷ remove_entry id es

-- What is left of a channel's queue: `none` deletes it from the map.
abbrev pub remaining_queue : List Entry → Option ChannelQueue
remaining_queue [] = none
remaining_queue (e ∷ es) = some (record { entries = resolve_first (e ∷ es); active = true })

abbrev pub store_queue : String → Option ChannelQueue → Locks → Locks
store_queue channel none s = record s { channel_queues = map_delete channel s.channel_queues }
store_queue channel (some q) s = set_queue channel q s

abbrev pub leave_queue : String → ℕ → Option ChannelQueue → Locks → Locks
leave_queue channel id none s = s
leave_queue channel id (some q) s =
    store_queue channel (remaining_queue (remove_entry id q.entries)) s

-- `leaveChannelInsertWaitQueue`; `Math.max(0, waitersTotal - 1)` is the truncated subtraction.
unfoldable pub leave_channel_insert_wait_queue : String → ℕ → Locks → Locks
unfolding remove_entry
leave_channel_insert_wait_queue channel id s =
    leave_queue channel id (map_get channel s.channel_queues)
      (record s { waiters_total = s.waiters_total - 1 })
