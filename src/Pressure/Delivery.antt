-- ===== src/Pressure/Delivery.antt =====
-- backend/src/websocket/wsDeliveryPressure.ts: read receipts give way to messages.
-- An environment variable is the number that it parses to, if any, or a flag already read.
use cse356_discord.Common.{
  ℕ, zero, suc, ◌+◌, ◌-◌, String, Bool, false, not, ◌||◌, Option, none, some, List, [], ◌∷◌, ◌++◌,
  min, max, ltb, leb, if◌then◌else◌, ◌==◌, nat_eq, string_eq, contains, length, drop,
}

pub data WsPressureReason : Type 0 where
  realtime_latency bootstrap_wall realtime_miss : WsPressureReason

-- MISS_WINDOW_MS
abbrev pub miss_window_ms : ℕ
miss_window_ms = 10000

-- MAX_MISS_TIMESTAMPS
abbrev pub max_miss_timestamps : ℕ
max_miss_timestamps = 256

abbrev pub pressure_miss_reasons : List String
pressure_miss_reasons =
    "topic_message_partial_delivery" ∷ "topic_message_send_blocked"
    ∷ "channel_topic_stale_map_userfeed_recovery" ∷ []

-- `parseIntEnv`: the fallback, or the number brought within the bounds.
unfoldable pub parse_int_env : Option ℕ → ℕ → ℕ → ℕ → ℕ
parse_int_env none fallback low high = fallback
parse_int_env (some raw) fallback low high = min high (max low raw)

-- The variables that the module reads.
pub record Environment : Type 0 where
  pub fanout_degrade_enabled : Bool
  pub full_read_defer_enabled : Bool
  pub is_test : Bool
  pub ttl : Option ℕ
  pub realtime_latency : Option ℕ
  pub bootstrap_wall : Option ℕ
  pub miss_count : Option ℕ

unfoldable pub pressure_tracking_enabled : Environment → Bool
pressure_tracking_enabled v = v.fanout_degrade_enabled || v.full_read_defer_enabled

unfoldable pub ttl_ms : Environment → ℕ
ttl_ms v = parse_int_env v.ttl 30000 (if v.is_test then 1 else 5000) 300000

unfoldable pub realtime_latency_threshold_ms : Environment → ℕ
realtime_latency_threshold_ms v = parse_int_env v.realtime_latency 5000 1000 300000

unfoldable pub bootstrap_wall_threshold_ms : Environment → ℕ
bootstrap_wall_threshold_ms v = parse_int_env v.bootstrap_wall 10000 1000 300000

unfoldable pub miss_threshold : Environment → ℕ
miss_threshold v = parse_int_env v.miss_count 20 1 10000

-- The module's variables.
pub record Gate : Type 0 where
  pub pressure_until_ms : ℕ
  pub last_reason : Option WsPressureReason
  pub miss_timestamps : List ℕ

unfoldable pub activate : Environment → WsPressureReason → ℕ → Gate → Gate
activate v reason now g = if not (pressure_tracking_enabled v) then g else record g {
  pressure_until_ms = max g.pressure_until_ms (now + ttl_ms v);
  last_reason = some reason;
}

-- The first loop of `pruneMissTimestamps`: `at < now - MISS_WINDOW_MS` goes.
unfoldable pub drop_old : ℕ → List ℕ → List ℕ
drop_old now [] = []
drop_old now (at ∷ ats) = if ltb (at + miss_window_ms) now then drop_old now ats else at ∷ ats

unfoldable pub prune_miss_timestamps : ℕ → List ℕ → List ℕ
unfolding drop_old
prune_miss_timestamps now ats =
    let recent = drop_old now ats in
    if ltb max_miss_timestamps (length recent)
    then drop (length recent - max_miss_timestamps) recent
    else recent

unfoldable pub record_ws_reliable_realtime_latency_ms : Environment → ℕ → ℕ → Gate → Gate
unfolding activate
record_ws_reliable_realtime_latency_ms v now delta_ms g =
    if not (pressure_tracking_enabled v)
    then g
    else (if ltb delta_ms (realtime_latency_threshold_ms v)
        then g
        else activate v realtime_latency now g)

unfoldable pub record_ws_bootstrap_wall_ms : Environment → ℕ → ℕ → Gate → Gate
unfolding activate
record_ws_bootstrap_wall_ms v now delta_ms g =
    if not (pressure_tracking_enabled v)
    then g
    else (if ltb delta_ms (bootstrap_wall_threshold_ms v)
        then g
        else activate v bootstrap_wall now g)

abbrev pub replicate : ℕ → ℕ → List ℕ
replicate zero x = []
replicate (suc n) x = x ∷ replicate n x

-- `Math.max(1, Math.min(1000, Math.floor(Number(count) || 1)))`
abbrev pub times_of : ℕ → ℕ
times_of count = max 1 (min 1000 (if count == 0 then 1 else count))

-- The miss timestamps after a record.
unfoldable pub missed : ℕ → ℕ → List ℕ → List ℕ
unfolding prune_miss_timestamps
missed now count ats =
    prune_miss_timestamps now (prune_miss_timestamps now ats ++ replicate (times_of count) now)

unfoldable pub record_realtime_miss_attribution : Environment → ℕ → String → ℕ → Gate → Gate
unfolding missed activate
record_realtime_miss_attribution v now reason count g =
    if not (pressure_tracking_enabled v)
    then g
    else (if not (contains pressure_miss_reasons reason)
        then g
        else (let g' = record g { miss_timestamps = missed now count g.miss_timestamps } in
            if leb (miss_threshold v) (length (missed now count g.miss_timestamps))
            then activate v realtime_miss now g'
            else g'))

unfoldable pub should_drop_read_receipt_fanout_for_ws_pressure : Environment → ℕ → Gate → Bool
should_drop_read_receipt_fanout_for_ws_pressure v now g =
    if not v.fanout_degrade_enabled then false else ltb now g.pressure_until_ms

unfoldable pub should_fully_defer_read_receipt_for_ws_pressure : Environment → ℕ → Gate → Bool
should_fully_defer_read_receipt_for_ws_pressure v now g =
    if not v.full_read_defer_enabled then false else ltb now g.pressure_until_ms

-- What `getWsDeliveryPressureSnapshot` reports, which prunes on the way.
pub record Snapshot : Type 0 where
  pub active : Bool
  pub fanout_degrade_active : Bool
  pub full_read_defer_active : Bool
  pub until_ms : ℕ
  pub last_reason : Option WsPressureReason
  pub miss_window_count : ℕ

unfoldable pub get_ws_delivery_pressure_snapshot : Environment → ℕ → Gate → Gate × Snapshot
unfolding prune_miss_timestamps
get_ws_delivery_pressure_snapshot v now g =
    let pruned = prune_miss_timestamps now g.miss_timestamps in
    (
      record g { miss_timestamps = pruned },
      record {
        active = ltb now g.pressure_until_ms;
        fanout_degrade_active = should_drop_read_receipt_fanout_for_ws_pressure v now g;
        full_read_defer_active = should_fully_defer_read_receipt_for_ws_pressure v now g;
        until_ms = g.pressure_until_ms;
        last_reason = g.last_reason;
        miss_window_count = length pruned;
      },
    )
