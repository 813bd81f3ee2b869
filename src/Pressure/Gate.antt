-- ===== src/Pressure/Gate.antt =====
-- What wsDeliveryPressure.ts promises of its gate, and what its window can count.
use cse356_discord.Common.{
  ℕ, ◌+◌, ◌-◌, ◌≤◌, ◌<◌, ◌≡◌, String, true, List, [], ◌∷◌, ◌++◌, arith, string_eq, length,
  length-drop,
}
use cse356_discord.Pressure.Delivery.{
  Environment, Gate, WsPressureReason, realtime_latency, bootstrap_wall, realtime_miss,
  max_miss_timestamps, activate, drop_old, prune_miss_timestamps, missed, miss_threshold, replicate,
  times_of, ttl_ms, pressure_tracking_enabled, realtime_latency_threshold_ms,
  record_ws_reliable_realtime_latency_ms, record_ws_bootstrap_wall_ms,
  record_realtime_miss_attribution, should_drop_read_receipt_fanout_for_ws_pressure,
  get_ws_delivery_pressure_snapshot,
}

-- What the rest of the process does to the gate.
pub data Observation : Type 0 where
  latency : ℕ → ℕ → Observation
  wall : ℕ → ℕ → Observation
  miss : ℕ → String → ℕ → Observation
  looked : ℕ → Observation

unfoldable pub observe : Environment → Observation → Gate → Gate
observe v (latency now delta_ms) g = record_ws_reliable_realtime_latency_ms v now delta_ms g
observe v (wall now delta_ms) g = record_ws_bootstrap_wall_ms v now delta_ms g
observe v (miss now reason count) g = record_realtime_miss_attribution v now reason count g
observe v (looked now) g = (get_ws_delivery_pressure_snapshot v now g).0

unfoldable pub observe_all : Environment → List Observation → Gate → Gate
observe_all v [] g = g
observe_all v (o ∷ os) g = observe_all v os (observe v o g)

activate-until :
    (v : Environment) (reason : WsPressureReason) (now : ℕ) (g : Gate)
    → g.pressure_until_ms ≤ (activate v reason now g).pressure_until_ms
unfolding activate
activate-until v reason now g = ground arith

observe-until :
    (v : Environment) (o : Observation) (g : Gate)
    → g.pressure_until_ms ≤ (observe v o g).pressure_until_ms
unfolding observe record_ws_reliable_realtime_latency_ms record_ws_bootstrap_wall_ms
    record_realtime_miss_attribution get_ws_delivery_pressure_snapshot
observe-until v (latency now delta_ms) g = ground (arith, activate-until v realtime_latency now g)
observe-until v (wall now delta_ms) g = ground (arith, activate-until v bootstrap_wall now g)
observe-until v (miss now reason count) g = ground (
  arith,
  activate-until v realtime_miss now
      (record g { miss_timestamps = missed now count g.miss_timestamps }),
)
observe-until v (looked now) g = omega arith

observe_all-until :
    (v : Environment) (os : List Observation) (g : Gate)
    → g.pressure_until_ms ≤ (observe_all v os g).pressure_until_ms
unfolding observe_all
observe_all-until v [] g = omega arith
observe_all-until v (o ∷ os) g =
    omega (arith, observe-until v o g, observe_all-until v os (observe v o g))

latency-until :
    (v : Environment) (now delta_ms : ℕ) (g : Gate)
    → v.fanout_degrade_enabled ≡ true
    → realtime_latency_threshold_ms v ≤ delta_ms
    → now + ttl_ms v ≤ (record_ws_reliable_realtime_latency_ms v now delta_ms g).pressure_until_ms
unfolding record_ws_reliable_realtime_latency_ms activate pressure_tracking_enabled
latency-until v now delta_ms g on slow = ground arith

drops_until :
    (v : Environment) (now : ℕ) (g : Gate)
    → v.fanout_degrade_enabled ≡ true
    → now < g.pressure_until_ms
    → should_drop_read_receipt_fanout_for_ws_pressure v now g ≡ true
unfolding should_drop_read_receipt_fanout_for_ws_pressure
drops_until v now g on l = ground arith

-- If the degradation of read receipts is on and a latency at the threshold or above it is recorded, then
-- whatever is recorded afterwards, the fanout of read receipts is dropped until the configured time
-- after that latency has passed.
pub latency-keeps_dropping :
    (v : Environment) (now delta_ms later : ℕ) (os : List Observation) (g : Gate)
    → v.fanout_degrade_enabled ≡ true
    → realtime_latency_threshold_ms v ≤ delta_ms
    → later < now + ttl_ms v
    → should_drop_read_receipt_fanout_for_ws_pressure v later
        (observe_all v os (record_ws_reliable_realtime_latency_ms v now delta_ms g))
      ≡ true
latency-keeps_dropping v now delta_ms later os g on slow l = drops_until v later _ on (
    omega (
      arith,
      latency-until v now delta_ms g on slow,
      observe_all-until v os (record_ws_reliable_realtime_latency_ms v now delta_ms g),
    ))

prune-length :
    (now : ℕ) (ats : List ℕ) → length (prune_miss_timestamps now ats) ≤ max_miss_timestamps
unfolding prune_miss_timestamps
prune-length now ats =
    ground (arith, length-drop (length (drop_old now ats) - max_miss_timestamps) (drop_old now ats))

missed-length : (now count : ℕ) (ats : List ℕ) → length (missed now count ats) ≤ max_miss_timestamps
unfolding missed
missed-length now count ats =
    prune-length now (prune_miss_timestamps now ats ++ replicate (times_of count) now)

-- The window keeps 256 misses, while up to 10000 may be asked for: if the threshold is above 256, a
-- recorded miss, whatever was recorded before it, does not move the end of the pressure.
pub misses-out_of_reach :
    (v : Environment) (now : ℕ) (reason : String) (count : ℕ) (g : Gate)
    → max_miss_timestamps < miss_threshold v
    → (record_realtime_miss_attribution v now reason count g).pressure_until_ms
      ≡ g.pressure_until_ms
unfolding record_realtime_miss_attribution
misses-out_of_reach v now reason count g high =
    ground (arith, missed-length now count g.miss_timestamps)
