-- ===== src/ReadState.antt =====
-- How far a user has read: the cursor script of backend/src/messages/lib/readReceiptStateLua.ts and the
-- batched write of backend/src/messages/readState/batchReadState.ts. Times are numbers. A user and a
-- scope are one key, under which Redis has the cursor, the lock, the pending hash and the dirty mark. A
-- cursor, a lock and a pending hash have a lifetime: that Redis ends one is a step of its own.
pub mod Advance
pub mod Batches
pub mod Upserts
pub mod Flush
pub mod Tests
use cse356_discord.Common.{
  ℕ, ◌≤◌, String, Bool, true, false, not, ◌&&◌, ◌||◌, Option, none, some, List, [], ◌∷◌, ◌++◌, leb,
  if◌then◌else◌, ◌==◌, string_eq, contains, without, insert, map_get, map_set, map_delete, keep,
}

-- The fields of a pending hash.
pub record Pending : Type 0 where
  pub msg_id : String
  pub msg_created_at : ℕ

-- A row of read_states; the time may be NULL.
pub record Row : Type 0 where
  pub last_read_message_id : String
  pub last_read_message_created_at : Option ℕ

-- What Redis and the database hold.
pub record Stores : Type 0 where
  pub cursors : List (String × ℕ)
  pub locks : List String
  pub pending : List (String × Pending)
  pub dirty : List String
  pub read_states : List (String × Row)

abbrev pub is_ahead : Option ℕ → ℕ → Bool
is_ahead none new_ts = false
is_ahead (some current) new_ts = leb new_ts current

-- READ_CURSOR_ADVANCE_AND_ENQUEUE_LUA, with its answer: 0, 1 or 2.
pub data Advanced : Type 0 where
  behind rate_limited enqueued : Advanced

abbrev pub pending_of : String → ℕ → Pending
pending_of msg_id at = record { msg_id = msg_id; msg_created_at = at }

-- The lifetimes that SET and EXPIRE give are not in the state: `cursor_expires` and the like end a key.
unfoldable pub read_cursor_advance : String → ℕ → String → Stores → Stores × Advanced
read_cursor_advance key new_ts msg_id s =
    if is_ahead (map_get key s.cursors) new_ts
    then (s, Advanced.behind)
    else (let s' = record s { cursors = map_set key new_ts s.cursors } in
        if contains s.locks key then (s', Advanced.rate_limited) else (
          record s' {
            locks = key ∷ s.locks;
            pending = map_set key (pending_of msg_id new_ts) s.pending;
          },
          Advanced.enqueued,
        ))

unfoldable pub cursor_expires : String → Stores → Stores
cursor_expires key s = record s { cursors = map_delete key s.cursors }

unfoldable pub pending_expires : String → Stores → Stores
pending_expires key s = record s { pending = map_delete key s.pending }

unfoldable pub lock_expires : String → Stores → Stores
lock_expires key s = record s { locks = without s.locks key }

abbrev sadd_after : Advanced → String → Stores → Stores
sadd_after Advanced.enqueued key s = record s { dirty = insert s.dirty key }
sadd_after _ key s = s

-- `advanceReadStateCursor`, where Redis answers: the script, and the dirty mark after a 2.
unfoldable pub advance_read_state_cursor : String → ℕ → String → Stores → Stores × Advanced
unfolding read_cursor_advance
advance_read_state_cursor key new_ts msg_id s =
    let (s', answer) = read_cursor_advance key new_ts msg_id s in (sadd_after answer key s', answer)

-- How far `enqueueBatchReadStateUpdate` comes before Redis fails, if it does.
pub data Progress : Type 0 where
  nothing only_pending everything : Progress

unfoldable pub enqueue_batch_read_state_update : Progress → String → Pending → Stores → Stores
enqueue_batch_read_state_update nothing key p s = s
enqueue_batch_read_state_update only_pending key p s = record s {
  pending = map_set key p s.pending;
}
enqueue_batch_read_state_update everything key p s = record s {
  pending = map_set key p s.pending;
  dirty = insert s.dirty key;
}

-- What can fail in one batch of a flush. The pipeline of `hgetall`s fails as a whole or, as the second
-- component of a command says, for single keys; `removes` are the keys whose `srem` Redis carries out.
pub record Batching : Type 0 where
  pub commands : List (String × Bool)
  pub pipeline_succeeds : Bool
  pub query_succeeds : Bool
  pub removes : String → Bool

-- What a flush has read of a batch: the keys with nothing pending, and the newest row of each other key.
pub record Batch : Type 0 where
  pub dirty_keys_stale : List String
  pub newest_rows : List (String × Pending)

abbrev pub newer : Option Pending → Pending → Pending
newer none p = p
newer (some prev) p = if leb prev.msg_created_at p.msg_created_at then p else prev

abbrev pub stale : String → Batch → Batch
stale key b = record b { dirty_keys_stale = b.dirty_keys_stale ++ key ∷ [] }

-- One pass of the loop over the results, of the key, whether its command failed, and the hash; an
-- incomplete hash counts as nothing pending.
unfoldable pub note_result : String → Bool → Option Pending → Batch → Batch
note_result key true pending b = stale key b
note_result key false none b = stale key b
note_result key false (some p) b =
    if p.msg_id == ""
    then stale key b
    else record b { newest_rows = map_set key (newer (map_get key b.newest_rows) p) b.newest_rows }

unfoldable pub collect : List (String × Bool) → List (String × Pending) → Batch → Batch
unfolding note_result
collect [] pending b = b
collect ((key, failed) ∷ commands) pending b =
    collect commands pending (note_result key failed (map_get key pending) b)

abbrev pub empty_batch : Batch
empty_batch = record { dirty_keys_stale = []; newest_rows = [] }

-- The results of the pipeline, over the dirty keys of a batch.
unfoldable pub flush_read : List (String × Bool) → Stores → Batch
unfolding collect
flush_read commands s = collect commands s.pending empty_batch

abbrev pub may_update : Option Row → ℕ → Bool
may_update none at = true
may_update (some row) at = elim row.last_read_message_created_at [
  | none ↦ true
  | some old ↦ leb old at
]

abbrev pub row_of : Pending → Row
row_of p = record {
  last_read_message_id = p.msg_id;
  last_read_message_created_at = some p.msg_created_at;
}

-- READ_STATE_BATCH_UPSERT_SQL for one row: the message must exist, and the time must not go back.
unfoldable pub upsert_row :
    (String → Bool) → String → Pending → List (String × Row) → List (String × Row)
upsert_row exists key p rows =
    if exists p.msg_id && may_update (map_get key rows) p.msg_created_at
    then map_set key (row_of p) rows
    else rows

unfoldable pub upsert_rows :
    (String → Bool) → List (String × Pending) → List (String × Row) → List (String × Row)
unfolding upsert_row
upsert_rows exists [] rows = rows
upsert_rows exists ((key, p) ∷ ps) rows = upsert_rows exists ps (upsert_row exists key p rows)

unfoldable pub flush_upsert : (String → Bool) → Batch → Stores → Stores
unfolding upsert_rows
flush_upsert exists b s = record s { read_states = upsert_rows exists b.newest_rows s.read_states }

abbrev pub is_empty : List (String × Pending) → Bool
is_empty [] = true
is_empty (p ∷ ps) = false

abbrev pub keys_of : List (String × Pending) → List String
keys_of [] = []
keys_of ((key, _) ∷ ps) = key ∷ keys_of ps

abbrev pub srem : List String → List String → List String
srem dirty [] = dirty
srem dirty (key ∷ keys) = srem (without dirty key) keys

-- The `srem` of the rows' keys and the stale ones; a failure is caught, and the keys that were not
-- removed stay.
unfoldable pub flush_clear : (String → Bool) → Batch → Stores → Stores
flush_clear removes b s = record s {
  dirty = srem s.dirty (keep removes (keys_of b.newest_rows ++ b.dirty_keys_stale));
}

-- After the pipeline has answered; a batch with no rows makes no query.
unfoldable pub flush_rows : (String → Bool) → Batching → Batch → Stores → Stores
unfolding flush_upsert flush_clear
flush_rows exists f b s =
    if f.query_succeeds || is_empty b.newest_rows
    then flush_clear f.removes b (flush_upsert exists b s)
    else s

-- One batch with nothing in between.
unfoldable pub flush_batch : (String → Bool) → Batching → Stores → Stores
unfolding flush_read flush_rows
flush_batch exists f s =
    if f.pipeline_succeeds then flush_rows exists f (flush_read f.commands s) s else s
