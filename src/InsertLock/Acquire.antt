-- ===== src/InsertLock/Acquire.antt =====
-- backend/src/messages/channelInsertConcurrency.ts: `acquireChannelInsertLease` once the gate is open.
-- Redis answers through a list of attempts: when the loop tests its deadline, what `SET NX PX`
-- answers, and when the loop looks at the clock after that.
use cse356_discord.Common.{
  ℕ, ◌+◌, ◌-◌, ◌*◌, ◌/◌, ◌^◌, String, List, [], ◌∷◌, leb, if◌then◌else◌, min, max,
}
use cse356_discord.InsertLock.Queue.{
  Locks, LockConfig, Entry, mark_recent_channel_timeout, leave_channel_insert_wait_queue,
}

-- `Math.floor(Math.random() * n)` is `random_below n`.
unfoldable pub jittered_sleep_ms : LockConfig → (ℕ → ℕ) → ℕ → ℕ
jittered_sleep_ms c random_below attempt =
    let base = min c.poll_max_ms (c.poll_min_ms * 2 ^ attempt) in
    min c.poll_max_ms (base + random_below (max 1 (base / 2)))

pub data RedisReply : Type 0 where
  set_ok set_refused op_failed : RedisReply

pub record Attempt : Type 0 where
  pub tested_at : ℕ
  pub reply : RedisReply
  pub looked_at : ℕ

pub data Spin : Type 0 where
  acquired : (wait_ms : ℕ) → Spin
  redis_fallback : (wait_ms : ℕ) → Spin
  timed_out : Spin
  still_spinning : Spin

-- The deadline has passed.
abbrev pub give_up : LockConfig → String → Entry → ℕ → Locks → Locks × Spin
give_up c channel e now s = (
  leave_channel_insert_wait_queue channel e.id (mark_recent_channel_timeout c channel now s),
  timed_out,
)

-- The `while` loop. An acquired lease keeps its entry in the queue; every other end leaves it.
unfoldable pub redis_spin :
    LockConfig → String → Entry → (started_at : ℕ) → List Attempt → Locks → Locks × Spin
redis_spin c channel e started_at [] s = (s, still_spinning)
redis_spin c channel e started_at (a ∷ attempts) s =
    let again = redis_spin c channel e started_at attempts s in
    if leb a.tested_at e.deadline_ms
    then elim a.reply [
      | set_ok ↦ (s, acquired (a.looked_at - started_at))
      | op_failed ↦ (
        leave_channel_insert_wait_queue channel e.id s,
        redis_fallback (a.looked_at - started_at),
      )
      | set_refused ↦
          if leb e.deadline_ms a.looked_at then give_up c channel e a.looked_at s else again
    ]
    else give_up c channel e a.looked_at s
