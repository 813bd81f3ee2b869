-- ===== src/InsertLock/Handover.antt =====
-- Who comes next in a channel's wait queue of channelInsertConcurrency.ts.
use cse356_discord.Common.{
  ◌≡◌, String, true, some, List, ◌∷◌, map_get, map_get-map_set_self, string_eq, nat_eq, ==_refl,
}
use cse356_discord.InsertLock.Queue.{
  Entry, ChannelQueue, Locks, leave_channel_insert_wait_queue, remove_entry,
}
use cse356_discord.InsertLock.Release.{Lease, EvalReply, release_channel_insert_lease}

-- The front of `channel`'s queue is `first`, then `second`, then `others`.
abbrev pub IsFront : Locks → String → Entry → Entry → List Entry → Type 0
IsFront s channel first second others =
    (q : ChannelQueue) × (map_get channel s.channel_queues ≡ some q)
    × (q.entries ≡ first ∷ second ∷ others)

leave-front :
    (s : Locks) (channel : String) (first second : Entry) (others : List Entry)
    → IsFront s channel first second others
    → map_get channel (leave_channel_insert_wait_queue channel first.id s).channel_queues
      ≡ some (record { entries = record second { resolved = true } ∷ others; active = true })
unfolding leave_channel_insert_wait_queue remove_entry
leave-front s channel first second others (q, found, e) =
    rw (found, e, ==_refl first.id) (map_get-map_set_self channel _ s.channel_queues)

-- However Redis answers a release, if the request stands first in its channel's queue and others
-- wait, the longest waiter is let in, and the others keep their order behind it.
pub release-front :
    (s : Locks) (lease : Lease) (replies : List EvalReply) (first second : Entry)
    (others : List Entry)
    → IsFront s lease.lease_channel first second others
    → first.id ≡ lease.entry_id
    → map_get lease.lease_channel
        (release_channel_insert_lease (some lease) replies s).0.channel_queues
      ≡ some (record { entries = record second { resolved = true } ∷ others; active = true })
unfolding release_channel_insert_lease
release-front s lease replies first second others f e =
    rw (← e) (leave-front s lease.lease_channel first second others f)
