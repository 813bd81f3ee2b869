-- ===== src/ReadState/Flush.antt =====
-- What the batched write of batchReadState.ts does to a key's row and mark, failures included.
use text.Mathlib.TextEquality.{eq_iff}
use cse356_discord.Common.{
  ◌≤◌, ◌<◌, ◌≡◌, refl, String, Bool, true, false, not, ◌&&◌, inl, inr, some, List, [], ◌∷◌, ◌++◌,
  arith, ◌==◌, string_eq, ==_refl, contains, without, contains-append, keep, ◌||◌, contains-without,
  map_get, map_get-map_set_self, Bool-cases,
}
use cse356_discord.ReadState.{
  Stores, Pending, Batch, Batching, Progress, enqueue_batch_read_state_update, flush_read,
  upsert_rows, flush_upsert, keys_of, srem, flush_clear, flush_rows, flush_batch,
}
use cse356_discord.ReadState.Batches.{
  reads_key, asks_key, flush_read-newest, flush_read-unread, flush_read-AreOf,
}
use cse356_discord.ReadState.Upserts.{
  time_at, upsert_rows_mono, upsert_rows-reaches, upsert_rows-absent, upsert_rows-le,
}

contains-srem :
    (dirty keys : List String) (key : String)
    → contains (srem dirty keys) key ≡ (contains dirty key && not (contains keys key))
contains-srem dirty [] key = ground arith
contains-srem dirty (j ∷ keys) key =
    rw (contains-srem (without dirty j) keys key, contains-without dirty j key) (ground arith)

contains-keep :
    (p : String → Bool) (keys : List String) (key : String)
    → contains (keep p keys) key ≡ (contains keys key && p key)
contains-keep p [] key = refl
contains-keep p (j ∷ keys) key = elim (Bool-cases (key == j)) [
  | inl same ↦ rw (← (eq_iff key j).0 same) (ground (arith, contains-keep p keys key, ==_refl key))
  | inr other ↦ ground (arith, contains-keep p keys key, other)
]

contains-keys_of :
    (key : String) (p : Pending) (ps : List (String × Pending))
    → map_get key ps ≡ some p
    → contains (keys_of ps) key ≡ true
contains-keys_of key p [] h = cc
contains-keys_of key p ((j, q) ∷ ps) h = elim (Bool-cases (j == key)) [
  | inl same ↦ rw ((eq_iff j key).0 same, ==_refl key) refl
  | inr other ↦ rw (contains-keys_of key p ps (rw other at h)) (ground arith)
]

cleared :
    (removes : String → Bool) (key : String) (b : Batch) (s : Stores)
    → (contains (keys_of b.newest_rows) key || contains b.dirty_keys_stale key) ≡ true
    → contains (flush_clear removes b s).dirty key ≡ (contains s.dirty key && not (removes key))
unfolding flush_clear
cleared removes key b s h =
    rw
      (
        contains-srem s.dirty (keep removes (keys_of b.newest_rows ++ b.dirty_keys_stale)) key,
        contains-keep removes (keys_of b.newest_rows ++ b.dirty_keys_stale) key,
        contains-append (keys_of b.newest_rows) b.dirty_keys_stale key,
        h,
      )
      (ground arith)

flush_batch-done :
    (exists : String → Bool) (f : Batching) (s : Stores)
    → f.pipeline_succeeds ≡ true
    → f.query_succeeds ≡ true
    → flush_batch exists f s
      ≡ flush_clear f.removes
          (flush_read f.commands s)
          (flush_upsert exists (flush_read f.commands s) s)
unfolding flush_batch flush_rows
flush_batch-done exists f s piped queried = rw (piped, queried) refl

clear_keeps_rows :
    (removes : String → Bool) (exists : String → Bool) (b : Batch) (s : Stores)
    → (flush_clear removes b (flush_upsert exists b s)).read_states
      ≡ upsert_rows exists b.newest_rows s.read_states
unfolding flush_clear flush_upsert
clear_keeps_rows removes exists b s = refl

dirty_upserted :
    (exists : String → Bool) (b : Batch) (s : Stores) → (flush_upsert exists b s).dirty ≡ s.dirty
unfolding flush_upsert
dirty_upserted exists b s = refl

-- If a read with a message id is pending for a key that some command of the batch answered for, its message
-- exists, and the pipeline and the query succeed, then a flush with nothing in between leaves the key's row at the time of
-- that read or later; the key's mark is gone if its `srem` is carried out, and as before if it is not.
pub flush_batch-persists :
    (exists : String → Bool) (f : Batching) (key : String) (p : Pending) (s : Stores)
    → f.pipeline_succeeds ≡ true
    → f.query_succeeds ≡ true
    → reads_key key f.commands ≡ true
    → map_get key s.pending ≡ some p
    → (p.msg_id == "") ≡ false
    → exists p.msg_id ≡ true
    → (p.msg_created_at ≤ time_at key (flush_batch exists f s).read_states)
      × (contains (flush_batch exists f s).dirty key
          ≡ (contains s.dirty key && not (f.removes key)))
flush_batch-persists exists f key p s piped queried there h named real =
    let b : Batch = flush_read f.commands s in
    let newest : map_get key b.newest_rows ≡ some p =
      flush_read-newest key s.pending p h named f.commands s refl there in
    rw
      (
        flush_batch-done exists f s piped queried,
        clear_keeps_rows f.removes exists b s,
        cleared f.removes key b (flush_upsert exists b s)
            (rw (contains-keys_of key p b.newest_rows newest) refl),
        dirty_upserted exists b s,
      )
      (upsert_rows-reaches exists key p b.newest_rows s.read_states real newest, refl)

pending_kept :
    (removes : String → Bool) (exists : String → Bool) (b : Batch) (key : String) (s : Stores)
    → map_get key (flush_clear removes b (flush_upsert exists b s)).pending ≡ map_get key s.pending
unfolding flush_clear flush_upsert
pending_kept removes exists b key s = refl

-- If Redis fails every command of a batch for a key, of which there is at least one, while the pipeline as a whole, the query and the key's
-- `srem` succeed, then the flush writes nothing for the key and still takes its mark away: the read that is
-- pending there stays pending, unmarked.
pub flush_batch-drops_failed :
    (exists : String → Bool) (f : Batching) (key : String) (s : Stores)
    → f.pipeline_succeeds ≡ true
    → f.query_succeeds ≡ true
    → asks_key key f.commands ≡ true
    → reads_key key f.commands ≡ false
    → f.removes key ≡ true
    → (map_get key (flush_batch exists f s).read_states ≡ map_get key s.read_states)
      × (map_get key (flush_batch exists f s).pending ≡ map_get key s.pending)
      × (contains (flush_batch exists f s).dirty key ≡ false)
flush_batch-drops_failed exists f key s piped queried asked unread removed =
    let b : Batch = flush_read f.commands s in
    let (absent, is_stale) = flush_read-unread key f.commands s unread asked in
    rw
      (
        flush_batch-done exists f s piped queried,
        clear_keeps_rows f.removes exists b s,
        upsert_rows-absent exists key b.newest_rows s.read_states absent,
        cleared f.removes key b (flush_upsert exists b s) (rw is_stale (ground arith)),
        removed,
      )
      (refl, pending_kept f.removes exists b key s, ground arith)

-- Whatever fails of a flush, the row of no key goes back in time.
pub flush_batch_mono :
    (exists : String → Bool) (f : Batching) (key : String) (s : Stores)
    → time_at key s.read_states ≤ time_at key (flush_batch exists f s).read_states
unfolding flush_batch flush_rows flush_upsert flush_clear
flush_batch_mono exists f key s =
    ground (arith, upsert_rows_mono exists key (flush_read f.commands s).newest_rows s.read_states)

-- The flush of a batch during which a read `q` of the key is queued, after the pipeline has answered and
-- before the marks are taken away; the query succeeds.
abbrev pub overtaken : (String → Bool) → Batching → String → Pending → Stores → Stores
overtaken exists f key q s =
    let b : Batch = flush_read f.commands s in
    flush_clear f.removes b
      (flush_upsert exists b (enqueue_batch_read_state_update Progress.everything key q s))

overtaken-rows :
    (exists : String → Bool) (f : Batching) (key : String) (q : Pending) (s : Stores)
    → (overtaken exists f key q s).read_states
      ≡ upsert_rows exists (flush_read f.commands s).newest_rows s.read_states
unfolding flush_clear flush_upsert enqueue_batch_read_state_update
overtaken-rows exists f key q s = refl

overtaken-pending :
    (exists : String → Bool) (f : Batching) (key : String) (q : Pending) (s : Stores)
    → map_get key (overtaken exists f key q s).pending ≡ some q
unfolding flush_clear flush_upsert enqueue_batch_read_state_update
overtaken-pending exists f key q s = map_get-map_set_self key q s.pending

-- A read `p` of a key is pending, with a message id, whose message exists; some command of a batch answers
-- for it, and the query and the key's `srem` succeed. If a read `q`, newer than `p` and than the key's row,
-- is queued after the batch was read and before the query and the `srem`, then the row ends at `p` or later
-- and before `q`, while `q` stays pending with no mark.
pub flush-loses_mark :
    (exists : String → Bool) (f : Batching) (key : String) (p q : Pending) (s : Stores)
    → reads_key key f.commands ≡ true
    → map_get key s.pending ≡ some p
    → (p.msg_id == "") ≡ false
    → exists p.msg_id ≡ true
    → f.removes key ≡ true
    → p.msg_created_at < q.msg_created_at
    → time_at key s.read_states < q.msg_created_at
    → (p.msg_created_at ≤ time_at key (overtaken exists f key q s).read_states)
      × (time_at key (overtaken exists f key q s).read_states < q.msg_created_at)
      × (map_get key (overtaken exists f key q s).pending ≡ some q)
      × (contains (overtaken exists f key q s).dirty key ≡ false)
flush-loses_mark exists f key p q s there h named real removed older behind =
    let b : Batch = flush_read f.commands s in
    let newest : map_get key b.newest_rows ≡ some p =
      flush_read-newest key s.pending p h named f.commands s refl there in
    let low = upsert_rows-reaches exists key p b.newest_rows s.read_states real newest in
    let high =
      upsert_rows-le exists key s.pending p b.newest_rows s.read_states
        (flush_read-AreOf f.commands s) h in
    (
      rw (overtaken-rows exists f key q s) low,
      rw (overtaken-rows exists f key q s) (omega (arith, high)),
      overtaken-pending exists f key q s,
      rw
          (
            cleared f.removes key b
                (flush_upsert exists b
                  (enqueue_batch_read_state_update Progress.everything key q s))
                (rw (contains-keys_of key p b.newest_rows newest) refl),
            removed,
          )
          (ground arith),
    )
