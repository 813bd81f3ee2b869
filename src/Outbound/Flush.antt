-- ===== src/Outbound/Flush.antt =====
-- backend/src/websocket/outboundQueue.ts: `flushOutboundJob` and the callback of its `ws.send`.
-- Metrics and logs are left out, but for the queue gauge and the latency that the pressure gate gets.
use cse356_discord.Common.{
  ℕ, ◌-◌, Bool, true, not, ◌&&◌, ◌||◌, Option, none, some, List, [], ◌∷◌, ◌++◌, leb, if◌then◌else◌,
}
use cse356_discord.Outbound.Payload.{
  should_skip_socket_for_logical_channel, was_socket_message_recently_delivered,
  mark_socket_message_delivered, is_reliable_realtime_event, parse_payload_reference_time_ms,
}
use cse356_discord.Outbound.Socket.{
  Socket, Job, Config, Failure, is_open, not_open, logical_suppressed, backpressure_kill,
  backpressure_drop, send_failed, killed_by_backpressure, failed_send, fail_job, confirm_job,
  drop_connection,
}

abbrev pub is_suppressed : Socket → Job → Bool
is_suppressed s job =
    not job.bypass_suppression
    && should_skip_socket_for_logical_channel s.explicit_unsub job.logical_channel job.parsed

abbrev pub settle_failed : Failure → Job → Socket → Socket
settle_failed reason job s = record s { outcomes = fail_job reason job.reservation s.outcomes }

abbrev pub settle_confirmed : Job → Socket → Socket
settle_confirmed job s = record s { outcomes = confirm_job job.reservation s.outcomes }

-- `sendDoneMs - refMs`, if that is not negative
abbrev elapsed : Option ℕ → ℕ → Option ℕ
elapsed none now = none
elapsed (some ref_ms) now = if leb ref_ms now then some (now - ref_ms) else none

abbrev listed : Option ℕ → List ℕ
listed none = []
listed (some x) = x ∷ []

module _ (c : Config) where
  -- `ws.send(outbound, …)`: the callback comes later, in `send_done`.
  unfoldable pub send : Socket → Job → Socket
  send s job = record s {
    sends = s.sends ++ job ∷ [];
    buffered = c.buffered_after_send s.buffered job.prepared.outbound;
  }

  unfoldable pub flush_outbound_job : Socket → Job → Socket
  unfolding send
  flush_outbound_job s job =
      if not (is_open s.ready_state)
      then settle_failed not_open job s
      else (if is_suppressed s job
          then settle_failed logical_suppressed job s
          else (if was_socket_message_recently_delivered s.recent_keys job.prepared.dedupe_key
              then settle_confirmed job s
              else (if leb c.kill_bytes s.buffered
                  then settle_failed backpressure_kill job
                      (drop_connection c killed_by_backpressure s)
                  else (if not job.prepared.skip_drop_for_backpressure
                        && leb c.drop_bytes s.buffered
                      then settle_failed backpressure_drop job s
                      else send s job))))

  -- The latency of a reliable live frame with a known reference time, unless it is negative.
  unfoldable pub realtime_latency : Job → ℕ → Option ℕ
  realtime_latency job now =
      if job.replay || not (is_reliable_realtime_event job.prepared.payload_event_name)
      then none
      else elapsed (parse_payload_reference_time_ms c.runtime job.parsed) now

  -- The callback of `ws.send` for the oldest frame still in flight.
  unfoldable pub send_done : Socket → Job → List Job → Bool → ℕ → Socket
  unfolding realtime_latency
  send_done s job rest ok now =
      if ok
      then record s {
        sends = rest;
        recent_keys = mark_socket_message_delivered s.recent_keys job.prepared.dedupe_key now;
        outcomes = confirm_job job.reservation s.outcomes;
        latencies = s.latencies ++ listed (realtime_latency job now);
        last_data_frame_at = now;
      }
      else drop_connection c failed_send
          (settle_failed send_failed job (record s { sends = rest; saw_error = true }))
