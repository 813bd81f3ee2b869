-- ===== src/Outbound/Tests.antt =====
-- Runs of outboundQueue.ts and outboundPayload.ts on a small socket.
use mathlib.Core.List.{Sublist}
use cse356_discord.Common.{
  ℕ, ◌+◌, ◌<◌, ◌≡◌, refl, true, false, none, some, List, [], ◌∷◌, arith, inr, length, string_eq,
}
use cse356_discord.Value.{Value, null, obj, str, field, end, is_object, get_field, lookup_field}
use cse356_discord.Realtime.Aliases.{message_dedupe_family}
use cse356_discord.Outbound.Payload.{Runtime, prepare_socket_payload}
use cse356_discord.Outbound.Socket.{open_state, closed, Socket, Job, Config}
use cse356_discord.Outbound.Flush.{flush_outbound_job}
use cse356_discord.Outbound.Drain.{run_scheduled_drain}
use cse356_discord.Outbound.History.{Event, submit, drain_fires, send_completes, run}
use cse356_discord.Outbound.Settlement.{balance, charged_along, balance-run}
use cse356_discord.Outbound.Capacity.{Inv, run-Inv}
use cse356_discord.Outbound.Progress.{work, drains, drains-work, run_scheduled_drain-progress}
use cse356_discord.Outbound.Order.{line, run_scheduled_drain-line}
use cse356_discord.Outbound.Delivery.{drops, flush-message_never_dropped}

abbrev runtime : Runtime
runtime = record { parse_date = λ s. none; stringify = λ s. s; stringify_with_channel = λ v s. s }

abbrev config : Config
config = record {
  drop_bytes = 100;
  kill_bytes = 200;
  queue_max_message = 2;
  queue_max_best_effort = 1;
  drain_batch = 1;
  message_waiters_max = 2;
  buffered_after_send = λ n s. n + 10;
  state_after_terminate = closed;
  runtime = runtime;
}

abbrev created : Value
created =
    obj (field "event" (str "message:created") (field "data" (obj (field "id" (str "m1") end)) end))

abbrev a_job : ℕ → Job
a_job r = record {
  logical_channel = "channel:c";
  parsed = null;
  bypass_suppression = false;
  prepared = record {
    dedupe_key = some "message:created:m1";
    outbound = "{}";
    payload_event_name = some "message:created";
    skip_drop_for_backpressure = true;
  };
  replay = false;
  reservation = some r;
}

abbrev a_socket : List Job → List Job → Socket
a_socket queue waiters = record {
  ready_state = open_state;
  buffered = 0;
  queue = queue;
  waiters = waiters;
  drain_scheduled = false;
  recent_keys = [];
  explicit_unsub = [];
  saw_error = false;
  last_data_frame_at = 0;
  sends = [];
  outcomes = [];
  gauge_inc = length queue;
  gauge_dec = 0;
  disconnects = [];
  latencies = [];
}

abbrev a_history : List Event
a_history = submit (a_job 1) ∷ drain_fires ∷ send_completes true 5 ∷ []

balance-run_example :
    balance 1 (run config (a_socket [] []) a_history)
    ≡ balance 1 (a_socket [] []) + charged_along config 1 (a_socket [] []) a_history
balance-run_example = balance-run 1 config (a_socket [] []) a_history

a_socket-Inv : Inv config (a_socket [] [])
a_socket-Inv = record {
  within = record { queue_cap = omega arith; waiter_cap = omega arith; gauge = refl };
  awake = inr refl;
}

run-Inv_example : Inv config (run config (a_socket [] []) a_history)
run-Inv_example = run-Inv config (a_socket [] []) a_history a_socket-Inv

drains-work_example : work (drains config 3 (a_socket (a_job 1 ∷ []) (a_job 2 ∷ []))) ≡ 0
drains-work_example = drains-work config 3 (a_socket (a_job 1 ∷ []) (a_job 2 ∷ [])) (omega arith)

run_scheduled_drain-progress_example :
    work (run_scheduled_drain config (a_socket (a_job 1 ∷ []) []))
    < work (a_socket (a_job 1 ∷ []) [])
run_scheduled_drain-progress_example =
    run_scheduled_drain-progress config (a_socket (a_job 1 ∷ []) []) (omega arith)

run_scheduled_drain-line_example :
    Sublist
      (line (run_scheduled_drain config (a_socket (a_job 1 ∷ []) (a_job 2 ∷ []))))
      (line (a_socket (a_job 1 ∷ []) (a_job 2 ∷ [])))
run_scheduled_drain-line_example =
    run_scheduled_drain-line config (a_socket (a_job 1 ∷ []) (a_job 2 ∷ []))

abbrev a_prepared_job : Job
a_prepared_job = record (a_job 1) {
  parsed = created;
  prepared = prepare_socket_payload runtime "channel:c" created "{}";
}

flush-message_never_dropped_example :
    drops
      (flush_outbound_job config
        (record (a_socket [] []) { buffered = 150 })
        a_prepared_job).outcomes
    ≡ 0
unfolding is_object get_field lookup_field message_dedupe_family
flush-message_never_dropped_example =
    flush-message_never_dropped config (record (a_socket [] []) { buffered = 150 }) a_prepared_job
      "{}" "message:created" refl refl refl (ground arith)
