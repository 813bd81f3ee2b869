-- ===== src/InsertLock/Tests.antt =====
-- Runs of channelInsertConcurrency.ts with two requests of one channel.
use cse356_discord.Common.{ℕ, ◌≡◌, refl, inl, arith, string_eq, nat_eq}
use cse356_discord.InsertLock.Queue.{
  Locks, LockConfig, enter_channel_insert_wait_queue, should_suppress_channel_retry,
}
use cse356_discord.InsertLock.Invariant.{LocksInv}
use cse356_discord.InsertLock.Exclusion.{
  IsAdmitted, Reach, here, next, arrives, no_locks, no_locks-LocksInv, Reach-LocksInv,
  Reach-exclusive,
}

abbrev config : LockConfig
config = record {
  wait_timeout_ms = 10;
  poll_min_ms = 5;
  poll_max_ms = 40;
  max_waiters_per_channel = 3;
  recent_timeout_window_ms = 10;
  backoff_min_ms = 0;
  backoff_max_ms = 0;
}

abbrev one_arrived : Locks
one_arrived = (enter_channel_insert_wait_queue config "c" 1 no_locks).0

abbrev two_arrived : Locks
two_arrived = (enter_channel_insert_wait_queue config "c" 2 one_arrived).0

two_arrived-Reach : Reach config no_locks two_arrived
two_arrived-Reach = next (next here (arrives "c" 1)) (arrives "c" 2)

two_arrived-IsAdmitted : IsAdmitted two_arrived "c" 0
unfolding enter_channel_insert_wait_queue should_suppress_channel_retry
two_arrived-IsAdmitted = (_, refl, inl (refl, refl))

Reach-LocksInv_example : LocksInv config two_arrived
Reach-LocksInv_example =
    Reach-LocksInv config (omega arith) two_arrived-Reach (no_locks-LocksInv config)

abbrev first_id : ℕ
first_id = 0

Reach-exclusive_example : first_id ≡ first_id
Reach-exclusive_example =
    Reach-exclusive config two_arrived "c" first_id first_id (omega arith) two_arrived-Reach
      two_arrived-IsAdmitted two_arrived-IsAdmitted
