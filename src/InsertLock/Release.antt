-- ===== src/InsertLock/Release.antt =====
-- backend/src/messages/channelInsertConcurrency.ts: `releaseChannelInsertLease`.
use cse356_discord.Common.{
  ℕ, zero, suc, String, Option, none, some, List, [], ◌∷◌, ◌==◌, nat_eq, if◌then◌else◌,
}
use cse356_discord.InsertLock.Queue.{Locks, leave_channel_insert_wait_queue}

-- What `redisEvalSha` does: the number of keys deleted, its time-out, or another error.
pub data EvalReply : Type 0 where
  deleted : ℕ → EvalReply
  eval_timed_out eval_failed : EvalReply

pub data Released : Type 0 where
  released release_mismatch release_error no_lease : Released

-- The `for` loop over `tries` attempts left. A time-out is tried again, but for the last one. Replies
-- that never come are time-outs: `withRedisOpTimeout` turns them into such.
unfoldable pub release_attempts : ℕ → List EvalReply → Released
release_attempts zero replies = release_mismatch
release_attempts (suc tries) [] = release_error
release_attempts (suc tries) (deleted n ∷ replies) = if n == 0 then release_mismatch else released
release_attempts (suc tries) (eval_failed ∷ replies) = release_error
release_attempts (suc zero) (eval_timed_out ∷ replies) = release_error
release_attempts (suc (suc tries)) (eval_timed_out ∷ replies) = release_attempts (suc tries) replies

pub record Lease : Type 0 where
  pub lease_channel : String
  pub entry_id : ℕ
  pub wait_ms : ℕ

-- The `finally` leaves the wait queue however Redis answered.
unfoldable pub release_channel_insert_lease :
    Option Lease → List EvalReply → Locks → Locks × Released
unfolding release_attempts
release_channel_insert_lease none replies s = (s, no_lease)
release_channel_insert_lease (some lease) replies s = (
  leave_channel_insert_wait_queue lease.lease_channel lease.entry_id s,
  release_attempts 3 replies,
)
