-- ===== src/Outbound/Drain.antt =====
-- backend/src/websocket/outboundQueue.ts: `drainOutboundBatch` and the `setImmediate` callback of
-- `scheduleOutboundDrain`.
pub mod Rule
use cse356_discord.Common.{
  ℕ, zero, suc, ◌+◌, Bool, true, false, not, ◌&&◌, Option, none, some, List, [], ◌∷◌, ◌++◌, ltb,
  if◌then◌else◌, length,
}
use cse356_discord.Outbound.Socket.{
  Socket, Job, Config, is_open, msg_cap, batch_cap, promote_budget, clear_outbound_queue,
  schedule_outbound_drain,
}
use cse356_discord.Outbound.Flush.{flush_outbound_job}

module _ (c : Config) where
  -- The inner `while`: `promoted` counts over the whole batch.
  unfoldable pub promote_waiters : List Job → ℕ → Socket → Socket × ℕ
  promote_waiters [] promoted s = (s, promoted)
  promote_waiters (job ∷ waiting) promoted s =
      let rest = promote_waiters waiting (promoted + 1) (record s {
        queue = s.queue ++ job ∷ [];
        waiters = waiting;
        gauge_inc = s.gauge_inc + 1;
      }) in
      if ltb (length s.queue) (msg_cap c) && ltb promoted (promote_budget c)
      then rest
      else (s, promoted)

  -- The outer `while`: `rounds` is `batchCap - n`.
  unfoldable pub drain_rounds : ℕ → ℕ → ℕ → Socket → Socket × ℕ
  unfolding promote_waiters
  drain_rounds zero promoted n s = (s, n)
  drain_rounds (suc rounds) promoted n s =
      let (s', promoted') = promote_waiters s.waiters promoted s in
      let next : Socket × ℕ = elim s'.queue [
        | [] ↦ (s', n)
        | job ∷ q ↦
            drain_rounds rounds promoted' (n + 1)
              (flush_outbound_job c (record s' { queue = q; gauge_dec = s'.gauge_dec + 1 }) job)
      ] in
      if is_open s.ready_state then next else (s, n)

  unfoldable pub drain_outbound_batch : Socket → Socket × ℕ
  unfolding drain_rounds
  drain_outbound_batch s =
      if not (is_open s.ready_state)
      then (record s { queue = []; waiters = []; gauge_dec = s.gauge_dec + length s.queue }, 0)
      else drain_rounds (batch_cap c) 0 0 s

  unfoldable pub run_scheduled_drain : Socket → Socket
  unfolding drain_outbound_batch
  run_scheduled_drain s =
      let woken = record s { drain_scheduled = false } in
      if not (is_open s.ready_state)
      then clear_outbound_queue woken
      else schedule_outbound_drain (drain_outbound_batch woken).0
