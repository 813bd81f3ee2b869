-- ===== src/Pressure/Tests.antt =====
-- A worker under load with the default settings.
use cse356_discord.Common.{
  ℕ, ◌≡◌, String, true, false, Option, none, some, [], arith, if◌then◌else◌, ◌==◌, string_eq,
}
use cse356_discord.Pressure.Delivery
use cse356_discord.Pressure.Delivery.{
  Gate, ttl_ms, parse_int_env, realtime_latency_threshold_ms, miss_threshold,
  record_ws_reliable_realtime_latency_ms, record_realtime_miss_attribution,
  should_drop_read_receipt_fanout_for_ws_pressure,
}
use cse356_discord.Pressure.Gate.{misses-out_of_reach}
use cse356_discord.Pressure.Overload
use cse356_discord.Pressure.Overload.{Load, IsMilder, compute_stage-IsMilder}

abbrev defaults : Delivery.Environment
defaults = record {
  fanout_degrade_enabled = true;
  full_read_defer_enabled = false;
  is_test = false;
  ttl = none;
  realtime_latency = none;
  bootstrap_wall = none;
  miss_count = some 300;
}

abbrev calm_gate : Gate
calm_gate = record { pressure_until_ms = 0; last_reason = none; miss_timestamps = [] }

misses-out_of_reach_example :
    (record_realtime_miss_attribution defaults 1000 "topic_message_send_blocked" 900
      calm_gate).pressure_until_ms
    ≡ 0
unfolding miss_threshold parse_int_env
misses-out_of_reach_example =
    misses-out_of_reach defaults 1000 "topic_message_send_blocked" 900 calm_gate (omega arith)

-- `Number` of the texts that stand here.
abbrev number : String → Option ℕ
number s = if s == "" then some 0 else none

abbrev unforced : Overload.Environment
unforced = record {
  number = number;
  force_overload_stage = "auto";
  rss_warn = none;
  rss_high = none;
  rss_critical = none;
  lag_warn = none;
  lag_high = none;
  lag_critical = none;
  lag_shed = none;
  http_shed_enabled = true;
}

-- A gigabyte with a lag of 30 milliseconds, and four with a lag of a second.
abbrev light : Load
light = record { rss = 1073741824; lag_p99 = 30000000 }

abbrev heavy : Load
heavy = record { rss = 4294967296; lag_p99 = 1000000000 }

compute_stage-IsMilder_example : IsMilder unforced light heavy
compute_stage-IsMilder_example =
    compute_stage-IsMilder unforced light heavy (omega arith) (omega arith)
