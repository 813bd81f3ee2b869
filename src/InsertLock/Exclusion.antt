-- ===== src/InsertLock/Exclusion.antt =====
-- Mutual exclusion and order in the wait queues of channelInsertConcurrency.ts, over every
-- interleaving of the requests of one process.
use cse356_discord.Common.{
  ℕ, ◌<◌, ◌≡◌, refl, String, true, ◌⊎◌, inl, inr, some, List, [], ◌∷◌, arith, All, map_get,
  string_eq, nat_eq, AllValues-map_get,
}
use cse356_discord.InsertLock.Queue.{
  Entry, ChannelQueue, Locks, LockConfig, enter_channel_insert_wait_queue,
  leave_channel_insert_wait_queue, mark_recent_channel_timeout,
}
use cse356_discord.InsertLock.Invariant.{IsWaiting, IsGated, QueueInv, LocksInv}
use cse356_discord.InsertLock.Entering.{enter-LocksInv}
use cse356_discord.InsertLock.Leaving.{HasEntry, IsQueued, leave-LocksInv}

-- An entry of `es` with number `id` whose gate is open.
abbrev pub HasOpen : ℕ → List Entry → Type 0
HasOpen id [] = ⊥
HasOpen id (e ∷ es) = ((e.id ≡ id) × (e.resolved ≡ true)) ⊎ HasOpen id es

-- The request `id` of `channel` was let in and has not left.
abbrev pub IsAdmitted : Locks → String → ℕ → Type 0
IsAdmitted s channel id =
    (q : ChannelQueue) × (map_get channel s.channel_queues ≡ some q) × HasOpen id q.entries

HasOpen-HasEntry : (id : ℕ) (es : List Entry) → HasOpen id es → HasEntry id es
HasOpen-HasEntry id [] h = h
HasOpen-HasEntry id (e ∷ es) (inl (same, _)) = inl same
HasOpen-HasEntry id (e ∷ es) (inr h) = inr (HasOpen-HasEntry id es h)

IsAdmitted-IsQueued :
    (s : Locks) (channel : String) (id : ℕ) → IsAdmitted s channel id → IsQueued s channel id
IsAdmitted-IsQueued s channel id (q, found, h) = (q, found, HasOpen-HasEntry id q.entries h)

not-HasOpen_of_waiting : (id : ℕ) (es : List Entry) → All IsWaiting es → ¬ HasOpen id es
not-HasOpen_of_waiting id [] w h = h
not-HasOpen_of_waiting id (e ∷ es) (w, ws) (inl (_, opened)) = cc
not-HasOpen_of_waiting id (e ∷ es) (w, ws) (inr h) = not-HasOpen_of_waiting id es ws h

HasOpen-unique :
    (es : List Entry) (id id' : ℕ) → IsGated es → HasOpen id es → HasOpen id' es → id ≡ id'
HasOpen-unique [] id id' g h h' = elim g [ ]
HasOpen-unique (e ∷ es) id id' g (inl (a, _)) (inl (b, _)) = cc
HasOpen-unique (e ∷ es) id id' (_, w) (inr h) h' = absurd (not-HasOpen_of_waiting id es w h)
HasOpen-unique (e ∷ es) id id' (_, w) h (inr h') = absurd (not-HasOpen_of_waiting id' es w h')

-- What requests do to the shared state between two of their waits: arrive, leave (after a release or
-- after a Redis error), or time out. Only a request that was let in does the last two.
pub data Step (c : LockConfig) (s : Locks) : Locks → Type 0 where
  arrives :
      (channel : String) (now : ℕ) → Step c s (enter_channel_insert_wait_queue c channel now s).0
  departs :
      (channel : String) (id : ℕ)
      → IsAdmitted s channel id
      → Step c s (leave_channel_insert_wait_queue channel id s)
  times_out :
      (channel : String) (id now : ℕ)
      → IsAdmitted s channel id
      → Step c s
          (leave_channel_insert_wait_queue channel id (mark_recent_channel_timeout c channel now s))

pub data Reach (c : LockConfig) (s : Locks) : Locks → Type 0 where
  here : Reach c s s
  next : {t u : Locks} → Reach c s t → Step c t u → Reach c s u

mark-channel_queues :
    (c : LockConfig) (channel : String) (now : ℕ) (s : Locks)
    → (mark_recent_channel_timeout c channel now s).channel_queues ≡ s.channel_queues
unfolding mark_recent_channel_timeout
mark-channel_queues c channel now s = ground arith

mark-LocksInv :
    (c : LockConfig) (channel : String) (now : ℕ) (s : Locks)
    → LocksInv c s
    → LocksInv c (mark_recent_channel_timeout c channel now s)
unfolding mark_recent_channel_timeout
mark-LocksInv c channel now s v = ground arith

pub Step-LocksInv :
    (c : LockConfig)
    → 0 < c.max_waiters_per_channel
    → {s t : Locks} → Step c s t
    → LocksInv c s
    → LocksInv c t
Step-LocksInv c positive {s} (arrives channel now) v = enter-LocksInv c positive s channel now v
Step-LocksInv c positive {s} (departs channel id a) v =
    leave-LocksInv c s channel id v (IsAdmitted-IsQueued s channel id a)
Step-LocksInv c positive {s} (times_out channel id now a) v =
    leave-LocksInv c _ channel id (mark-LocksInv c channel now s v)
      (rw (mark-channel_queues c channel now s) (IsAdmitted-IsQueued s channel id a))

-- If a channel may have a waiter at all, the invariant holds in every state that a state with it leads
-- to: each channel with a queue has a first request that was let in, the others waiting behind it in
-- the order of their arrival and within the cap, and the total is the number of entries.
pub Reach-LocksInv :
    (c : LockConfig)
    → 0 < c.max_waiters_per_channel
    → {s t : Locks} → Reach c s t
    → LocksInv c s
    → LocksInv c t
Reach-LocksInv c positive here v = v
Reach-LocksInv c positive (next r st) v =
    Step-LocksInv c positive st (Reach-LocksInv c positive r v)

abbrev pub no_locks : Locks
no_locks = record {
  channel_queues = [];
  recent_channel_timeout_at_ms = [];
  waiters_total = 0;
  next_id = 0;
}

pub no_locks-LocksInv : (c : LockConfig) → LocksInv c no_locks
no_locks-LocksInv c = record { queues = tt; distinct = tt; counted = refl }

-- If a channel may have a waiter at all, then in every state that a fresh process can reach, at
-- most one request of a channel is between being let in and leaving, whatever the interleaving.
pub Reach-exclusive :
    (c : LockConfig) (s : Locks) (channel : String) (id id' : ℕ)
    → 0 < c.max_waiters_per_channel
    → Reach c no_locks s
    → IsAdmitted s channel id
    → IsAdmitted s channel id'
    → id ≡ id'
Reach-exclusive c s channel id id' positive r (q, found, h) (q', found', h') =
    let v : LocksInv c s = Reach-LocksInv c positive r (no_locks-LocksInv c) in
    let w : QueueInv c s.next_id q =
      AllValues-map_get (QueueInv c s.next_id) channel q s.channel_queues v.queues found in
    let same : q' ≡ q = ground arith in HasOpen-unique q.entries id id' w.gated h (rw same at h')
