-- ===== src/Outbound/Send.antt =====
-- backend/src/websocket/outboundQueue.ts: `sendPayloadToSocket`.
use cse356_discord.Common.{
  ℕ, ◌+◌, String, Bool, not, Option, none, some, [], ◌∷◌, ◌++◌, leb, if◌then◌else◌, length,
}
use cse356_discord.Value.{Value}
use cse356_discord.Outbound.Payload.{
  Prepared, prepare_socket_payload, was_socket_message_recently_delivered,
}
use cse356_discord.Outbound.Socket.{
  Socket, Job, Config, is_open, waiters_overflow, msg_cap, best_effort_cap, drop_connection,
  schedule_outbound_drain,
}
use cse356_discord.Outbound.Flush.{is_suppressed, settle_confirmed}

-- `true`, or `false` with the reason counted by `bumpReason`.
pub data Answer : Type 0 where
  accepted : Answer
  was_not_open was_suppressed was_recently_delivered waiters_overflow_terminated : Answer
  best_effort_queue_drop : Answer

abbrev pub or_prepared : Option Prepared → Prepared → Prepared
or_prepared none made = made
or_prepared (some given) made = given

module _ (c : Config) where
  unfoldable pub enqueue : Socket → Job → Socket
  enqueue s job =
      schedule_outbound_drain
        (record s { queue = s.queue ++ job ∷ []; gauge_inc = s.gauge_inc + 1 })

  unfoldable pub enqueue_waiter : Socket → Job → Socket
  enqueue_waiter s job = schedule_outbound_drain (record s { waiters = s.waiters ++ job ∷ [] })

  -- A frame that must not be dropped: queued, parked among the waiters, or the end of the socket.
  unfoldable pub send_reliable : Socket → Job → Socket × Answer
  unfolding enqueue enqueue_waiter
  send_reliable s job =
      if leb (msg_cap c) (length s.queue)
      then (if leb c.message_waiters_max (length s.waiters)
          then (drop_connection c waiters_overflow s, waiters_overflow_terminated)
          else (enqueue_waiter s job, accepted))
      else (enqueue s job, accepted)

  unfoldable pub send_best_effort : Socket → Job → Socket × Answer
  unfolding enqueue
  send_best_effort s job =
      if leb (best_effort_cap c) (length s.queue)
      then (s, best_effort_queue_drop)
      else (enqueue s job, accepted)

  -- The body of `sendPayloadToSocket`, once the job's payload is prepared.
  unfoldable pub send_job : Socket → Job → Socket × Answer
  unfolding send_reliable send_best_effort
  send_job s job =
      if not (is_open s.ready_state)
      then (s, was_not_open)
      else (if is_suppressed s job
          then (s, was_suppressed)
          else (if was_socket_message_recently_delivered s.recent_keys job.prepared.dedupe_key
              then (settle_confirmed job s, was_recently_delivered)
              else (if job.prepared.skip_drop_for_backpressure
                  then send_reliable s job
                  else send_best_effort s job)))

  unfoldable pub send_payload_to_socket :
      Socket
      → String
      → Value
      → String
      → (bypass replay : Bool) → Option Prepared
      → Option ℕ
      → Socket × Answer
  unfolding send_job
  send_payload_to_socket s logical_channel parsed raw_message bypass replay given reservation =
      send_job s (record {
        logical_channel = logical_channel;
        parsed = parsed;
        bypass_suppression = bypass;
        prepared =
            or_prepared given (prepare_socket_payload c.runtime logical_channel parsed raw_message);
        replay = replay;
        reservation = reservation;
      })
