-- ===== src/Outbound/Socket.antt =====
-- backend/src/websocket/outboundQueue.ts: the part of a socket's state that the queue works on.
use cse356_discord.Common.{
  ℕ, ◌+◌, ◌*◌, String, Bool, true, false, Option, none, some, List, [], ◌∷◌, ◌++◌, ltb,
  if◌then◌else◌, nat_eq, length, min, max,
}
use cse356_discord.Value.{Value}
use cse356_discord.Outbound.Payload.{Prepared, Runtime}

pub data ReadyState : Type 0 where
  connecting open_state closing closed : ReadyState

abbrev pub is_open : ReadyState → Bool
is_open open_state = true
is_open _ = false

-- The reasons handed to `onReliableSendFailed`.
pub data Failure : Type 0 where
  not_open logical_suppressed backpressure_kill backpressure_drop send_failed : Failure

-- One call of a job's `onReliableSendConfirmed` or `onReliableSendFailed`.
pub data Outcome : Type 0 where
  confirmed : ℕ → Outcome
  failed : ℕ → Failure → Outcome

-- A queued frame. `reservation` names its two callbacks, which the caller passes together; a frame
-- sent without callbacks has none.
pub record Job : Type 0 where
  pub logical_channel : String
  pub parsed : Value
  pub bypass_suppression : Bool
  pub prepared : Prepared
  pub replay : Bool
  pub reservation : Option ℕ

-- The reasons handed to `noteRecentDisconnectForSocket`, all with code 1006.
pub data Disconnect : Type 0 where
  killed_by_backpressure failed_send waiters_overflow : Disconnect

-- The socket's own fields, and what the queue's code has done so far to the outside: the frames
-- given to `ws.send` whose callback is still to come, the callbacks made, the gauge's increments and
-- decrements, the disconnects noted, and the latencies given to the pressure gate.
pub record Socket : Type 0 where
  pub ready_state : ReadyState
  pub buffered : ℕ
  pub queue : List Job
  pub waiters : List Job
  pub drain_scheduled : Bool
  pub recent_keys : List (String × ℕ)
  pub explicit_unsub : List String
  pub saw_error : Bool
  pub last_data_frame_at : ℕ
  pub sends : List Job
  pub outcomes : List Outcome
  pub gauge_inc : ℕ
  pub gauge_dec : ℕ
  pub disconnects : List Disconnect
  pub latencies : List ℕ

-- The numeric options of `createOutboundQueueHelpers` (0 stands for a value that is not usable), and
-- how the `ws` library's own fields react to `send` and `terminate`.
pub record Config : Type 0 where
  pub drop_bytes : ℕ
  pub kill_bytes : ℕ
  pub queue_max_message : ℕ
  pub queue_max_best_effort : ℕ
  pub drain_batch : ℕ
  pub message_waiters_max : ℕ
  pub buffered_after_send : ℕ → String → ℕ
  pub state_after_terminate : ReadyState
  pub runtime : Runtime

abbrev pub msg_cap : Config → ℕ
msg_cap c = if ltb 0 c.queue_max_message then c.queue_max_message else 512

abbrev pub best_effort_cap : Config → ℕ
best_effort_cap c = if ltb 0 c.queue_max_best_effort then c.queue_max_best_effort else 128

abbrev pub batch_cap : Config → ℕ
batch_cap c = if ltb 0 c.drain_batch then min 256 c.drain_batch else 32

abbrev pub promote_budget : Config → ℕ
promote_budget c = max (batch_cap c * 4) 64

-- `onReliableSendFailed?.(reason)` and `onReliableSendConfirmed?.()`
abbrev pub fail_job : Failure → Option ℕ → List Outcome → List Outcome
fail_job reason none out = out
fail_job reason (some r) out = out ++ failed r reason ∷ []

abbrev pub confirm_job : Option ℕ → List Outcome → List Outcome
confirm_job none out = out
confirm_job (some r) out = out ++ confirmed r ∷ []

-- The loops of `clearOutboundQueue`.
unfoldable pub fail_all : List Job → List Outcome → List Outcome
fail_all [] out = out
fail_all (job ∷ jobs) out = fail_all jobs (fail_job not_open job.reservation out)

unfoldable pub clear_outbound_queue : Socket → Socket
unfolding fail_all
clear_outbound_queue s = record s {
  queue = [];
  waiters = [];
  outcomes = fail_all s.waiters (fail_all s.queue s.outcomes);
  gauge_dec = s.gauge_dec + length s.queue;
}

unfoldable pub note_disconnect : Disconnect → Socket → Socket
note_disconnect reason s = record s { disconnects = s.disconnects ++ reason ∷ [] }

unfoldable pub terminate : Config → Socket → Socket
terminate c s = record s { ready_state = c.state_after_terminate }

-- `noteRecentDisconnectForSocket`, `clearOutboundQueue`, `ws.terminate()`
unfoldable pub drop_connection : Config → Disconnect → Socket → Socket
unfolding clear_outbound_queue note_disconnect terminate
drop_connection c reason s = terminate c (clear_outbound_queue (note_disconnect reason s))

unfoldable pub schedule_outbound_drain : Socket → Socket
schedule_outbound_drain s =
    if s.drain_scheduled
    then s
    else (if ltb 0 (length s.queue + length s.waiters)
        then record s { drain_scheduled = true }
        else s)
