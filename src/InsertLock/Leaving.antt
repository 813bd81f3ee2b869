-- ===== src/InsertLock/Leaving.antt =====
-- A request that leaves the wait queue of its channel (channelInsertConcurrency.ts).
use cse356_discord.Common.{
  ℕ, ◌+◌, ◌-◌, ◌≤◌, ◌<◌, ◌≡◌, refl, String, ◌⊎◌, inl, inr, Option, none, some, List, [], ◌∷◌, arith,
  length, ap, All, map_get, string_eq, nat_eq, map_set-HasDistinctKeys, map_delete-HasDistinctKeys,
  AllValues-map_get, AllValues-map_set, AllValues-map_delete, total-map_set, total-map_delete,
  size_of, Bool-cases, ◌==◌,
}
use cse356_discord.InsertLock.Queue.{
  Entry, ChannelQueue, Locks, LockConfig, remove_entry, remaining_queue,
  leave_channel_insert_wait_queue, store_queue,
}
use cse356_discord.InsertLock.Invariant.{
  IsWaiting, IsNumbered, IsGated, QueueInv, queue_length, LocksInv,
}

-- An entry of the queue, by its number.
abbrev pub HasEntry : ℕ → List Entry → Type 0
HasEntry id [] = ⊥
HasEntry id (e ∷ es) = (e.id ≡ id) ⊎ HasEntry id es

length-remove_entry :
    (id : ℕ) (es : List Entry) → HasEntry id es → length (remove_entry id es) + 1 ≡ length es
unfolding remove_entry
length-remove_entry id [] h = elim h [ ]
length-remove_entry id (e ∷ es) h = ground (arith, length-remove_entry id es)

All-remove_entry {ℓ} :
    (P : Entry → Type ℓ) (id : ℕ) (es : List Entry) → All P es → All P (remove_entry id es)
unfolding remove_entry
All-remove_entry P id [] h = h
All-remove_entry P id (e ∷ es) (p, h) = elim (Bool-cases (e.id == id)) [
  | inl same ↦ rw same h
  | inr other ↦ rw other (p, All-remove_entry P id es h)
]

IsNumbered-remove_entry :
    (n id : ℕ) (es : List Entry) → IsNumbered n es → IsNumbered n (remove_entry id es)
unfolding remove_entry
IsNumbered-remove_entry n id [] h = h
IsNumbered-remove_entry n id (e ∷ es) (a, b, h) = elim (Bool-cases (e.id == id)) [
  | inl same ↦ rw same h
  | inr other ↦
      rw other (All-remove_entry (λ x. e.id < x.id) id es a, b, IsNumbered-remove_entry n id es h)
]

-- After a removal at most the first gate is open.
abbrev IsCalm : List Entry → Type 0
IsCalm [] = Unit {0}
IsCalm (e ∷ es) = All IsWaiting es

IsCalm-remove_entry : (id : ℕ) (es : List Entry) → IsGated es → IsCalm (remove_entry id es)
unfolding remove_entry
IsCalm-remove_entry id [] h = tt
IsCalm-remove_entry id (e ∷ es) (opened, h) = elim (Bool-cases (e.id == id)) [
  | inl same ↦ rw same (calm es h)
  | inr other ↦ rw other (All-remove_entry IsWaiting id es h)
]
  where
    calm : (xs : List Entry) → All IsWaiting xs → IsCalm xs
    calm [] k = tt
    calm (x ∷ xs) (_, k) = k

abbrev RemainsInv : LockConfig → ℕ → Option ChannelQueue → Type 0
RemainsInv c n none = Unit {0}
RemainsInv c n (some q) = QueueInv c n q

remaining-QueueInv :
    (c : LockConfig) (n : ℕ) (es : List Entry)
    → IsCalm es
    → IsNumbered n es
    → length es ≤ c.max_waiters_per_channel
    → RemainsInv c n (remaining_queue es)
remaining-QueueInv c n [] calm num cap = tt
remaining-QueueInv c n (e ∷ es) calm num cap = record {
  is_active = refl;
  gated = (refl, calm);
  numbered = num;
  capped = cap;
}

length-remaining_queue : (es : List Entry) → size_of queue_length (remaining_queue es) ≡ length es
length-remaining_queue [] = refl
length-remaining_queue (e ∷ es) = refl

-- The entry `id` stands in the queue of `channel`.
abbrev pub IsQueued : Locks → String → ℕ → Type 0
IsQueued s channel id =
    (q : ChannelQueue) × (map_get channel s.channel_queues ≡ some q) × HasEntry id q.entries

store_rest-LocksInv :
    (c : LockConfig) (s : Locks) (channel : String) (q : ChannelQueue) (rest : Option ChannelQueue)
    → LocksInv c s
    → map_get channel s.channel_queues ≡ some q
    → RemainsInv c s.next_id rest
    → size_of queue_length rest + 1 ≡ length q.entries
    → LocksInv c (store_queue channel rest (record s { waiters_total = s.waiters_total - 1 }))
store_rest-LocksInv c s channel q none v found w less = record {
  queues = AllValues-map_delete (QueueInv c s.next_id) channel s.channel_queues v.queues;
  distinct = map_delete-HasDistinctKeys channel s.channel_queues v.distinct;
  counted = omega (
    arith,
    v.counted,
    total-map_delete queue_length channel s.channel_queues v.distinct,
    ap (size_of queue_length) found,
  );
}
store_rest-LocksInv c s channel q (some rest) v found w less = record {
  queues = AllValues-map_set (QueueInv c s.next_id) channel rest s.channel_queues v.queues w;
  distinct = map_set-HasDistinctKeys channel rest s.channel_queues v.distinct;
  counted = omega (
    arith,
    v.counted,
    total-map_set queue_length channel rest s.channel_queues,
    ap (size_of queue_length) found,
  );
}

-- A request that leaves takes exactly its own entry out, opens the gate of the next one, and drops
-- the queue of a channel that nobody waits for.
pub leave-LocksInv :
    (c : LockConfig) (s : Locks) (channel : String) (id : ℕ)
    → LocksInv c s
    → IsQueued s channel id
    → LocksInv c (leave_channel_insert_wait_queue channel id s)
unfolding leave_channel_insert_wait_queue
leave-LocksInv c s channel id v (q, found, has) =
    let w : QueueInv c s.next_id q =
      AllValues-map_get (QueueInv c s.next_id) channel q s.channel_queues v.queues found in
    let es : List Entry = remove_entry id q.entries in
    let fewer : length es + 1 ≡ length q.entries = length-remove_entry id q.entries has in
    rw found (
      store_rest-LocksInv c s channel q (remaining_queue es) v found
        (remaining-QueueInv c s.next_id es (IsCalm-remove_entry id q.entries w.gated)
          (IsNumbered-remove_entry s.next_id id q.entries w.numbered) (omega (arith, w.capped)))
        (omega (arith, length-remaining_queue es)))
