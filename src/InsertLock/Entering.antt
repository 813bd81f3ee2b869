-- ===== src/InsertLock/Entering.antt =====
-- A request that enters the wait queue of its channel (channelInsertConcurrency.ts).
use cse356_discord.Common.{
  ℕ, ◌+◌, ◌≤◌, ◌<◌, ◌≡◌, refl, String, false, ◌⊎◌, inl, inr, none, some, [], ◌∷◌, ◌++◌, arith,
  length, length-append, leb, leb→le, ap, map_get, string_eq, nat_eq, map_set-HasDistinctKeys,
  AllValues-map_get, AllValues-map_set, AllValues-mono, total-map_set, size_of, Bool-cases,
}
use cse356_discord.InsertLock.Queue.{
  Entry, ChannelQueue, Locks, LockConfig, or_created, pushed, new_entry, join_queue,
  enter_channel_insert_wait_queue, should_suppress_channel_retry, set_queue,
}
use cse356_discord.InsertLock.Invariant.{
  QueueInv, queue_length, LocksInv, length-resolve_first, QueueInv-suc, pushed-QueueInv,
}

module _ (c : LockConfig) (positive : 0 < c.max_waiters_per_channel) where
  store-LocksInv :
      (s : Locks) (channel : String) (q : ChannelQueue)
      → LocksInv c s
      → QueueInv c (s.next_id + 1) q
      → length q.entries ≡ size_of queue_length (map_get channel s.channel_queues) + 1
      → LocksInv c (record (set_queue channel q s) {
        waiters_total = s.waiters_total + 1;
        next_id = s.next_id + 1;
      })
  store-LocksInv s channel q v w grown = record {
    queues =
        AllValues-map_set (QueueInv c (s.next_id + 1)) channel q s.channel_queues
          (AllValues-mono (QueueInv c s.next_id) (QueueInv c (s.next_id + 1)) s.channel_queues
            (QueueInv-suc c s.next_id) v.queues)
          w;
    distinct = map_set-HasDistinctKeys channel q s.channel_queues v.distinct;
    counted =
        omega (arith, v.counted, total-map_set queue_length channel q s.channel_queues, grown);
  }

  length-pushed :
      (q : ChannelQueue) (x : Entry) → length (pushed q x).entries ≡ length q.entries + 1
  length-pushed q x =
      ground (arith, length-append q.entries (x ∷ []), length-resolve_first (q.entries ++ x ∷ []))

  -- A queue as `getOrCreateChannelQueue` returns it.
  abbrev IsFound : Locks → String → ChannelQueue → Type 0
  IsFound s channel q =
      (map_get channel s.channel_queues ≡ some q)
      ⊎ ((map_get channel s.channel_queues ≡ none) × (q ≡ record { entries = []; active = false }))

  IsFound-or_created :
      (s : Locks) (channel : String)
      → IsFound s channel (or_created (map_get channel s.channel_queues))
  IsFound-or_created s channel = ground arith

  found-QueueInv :
      (s : Locks) (channel : String) (q : ChannelQueue)
      → LocksInv c s
      → IsFound s channel q
      → (QueueInv c s.next_id q) ⊎ (q ≡ record { entries = []; active = false })
  found-QueueInv s channel q v (inl e) =
      inl (AllValues-map_get (QueueInv c s.next_id) channel q s.channel_queues v.queues e)
  found-QueueInv s channel q v (inr (_, e)) = inr e

  -- A full queue is put back into the map as it was.
  reset-LocksInv :
      (s : Locks) (channel : String) (q : ChannelQueue)
      → LocksInv c s
      → IsFound s channel q
      → c.max_waiters_per_channel ≤ length q.entries
      → LocksInv c (set_queue channel q s)
  reset-LocksInv s channel q v (inr (_, e)) full = absurd (omega (arith, ap queue_length e))
  reset-LocksInv s channel q v (inl e) full = record {
    queues =
        AllValues-map_set (QueueInv c s.next_id) channel q s.channel_queues v.queues
          (AllValues-map_get (QueueInv c s.next_id) channel q s.channel_queues v.queues e);
    distinct = map_set-HasDistinctKeys channel q s.channel_queues v.distinct;
    counted = omega (
      arith,
      v.counted,
      total-map_set queue_length channel q s.channel_queues,
      ap (size_of queue_length) e,
    );
  }

  join-LocksInv :
      (s : Locks) (channel : String) (now : ℕ) (q : ChannelQueue)
      → LocksInv c s
      → IsFound s channel q
      → LocksInv c (join_queue c channel now s q).0
  unfolding join_queue
  join-LocksInv s channel now q v f =
      elim (Bool-cases (leb c.max_waiters_per_channel (length q.entries))) [
        | inr room ↦ rw room (
            store-LocksInv s channel (pushed q (new_entry c now s)) v
              (pushed-QueueInv c s.next_id q (new_entry c now s) (found-QueueInv s channel q v f)
                refl refl (ground arith))
              (ground (arith, length-pushed q (new_entry c now s))))
        | inl full ↦ rw full (reset-LocksInv s channel q v f (leb→le _ _ full))
      ]

  -- A request that arrives keeps the invariant, whether it is shed, rejected or queued.
  pub enter-LocksInv :
      (s : Locks) (channel : String) (now : ℕ)
      → LocksInv c s
      → LocksInv c (enter_channel_insert_wait_queue c channel now s).0
  unfolding enter_channel_insert_wait_queue
  enter-LocksInv s channel now v =
      elim (Bool-cases (should_suppress_channel_retry c channel now s)) [
        | inl shed ↦ rw shed v
        | inr free ↦ rw free (
            join-LocksInv s channel now (or_created (map_get channel s.channel_queues)) v
              (IsFound-or_created s channel))
      ]
