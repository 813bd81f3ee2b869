-- ===== src/ReplayAdmission.antt =====
-- backend/src/websocket/replayAdmission.ts and replayAdmissionState.ts: how many reconnecting sockets may
-- replay missed messages at a time. The environment's numbers are whole; a missing or unreadable one is
-- `none`. What the process observes during a wait (the database pool, the count in flight, the socket, the
-- random part of the delay) is a function of the attempt.
pub mod Limits
pub mod Waiting
pub mod Tests
use cse356_discord.Common.{
  ℕ, zero, suc, ◌+◌, ◌-◌, ◌*◌, ◌^◌, ◌≤◌, ◌<◌, min, max, ◌≡◌, refl, String, Bool, true, false, not,
  Option, none, some, List, [], ◌∷◌, arith, ltb, leb, if◌then◌else◌, ◌==◌, string_eq, nat_eq,
  map_get, map_set, map_delete,
}

pub record ReplayAdmissionConfig : Type 0 where
  pub replay_semaphore_max : ℕ
  pub replay_defer_max_attempts : ℕ
  pub replay_defer_base_delay_ms : ℕ
  pub replay_defer_max_delay_ms : ℕ
  pub replay_pool_waiting_threshold : ℕ

pub record Env : Type 0 where
  pub ws_replay_semaphore_max : Option ℕ
  pub ws_replay_defer_max_attempts : Option ℕ
  pub ws_replay_defer_base_delay_ms : Option ℕ
  pub ws_replay_defer_max_delay_ms : Option ℕ
  pub ws_replay_pool_waiting_threshold : Option ℕ

-- `Number.isFinite(raw) && raw >= least ? Math.min(most, Math.floor(raw)) : fallback`
unfoldable pub setting : Option ℕ → ℕ → ℕ → ℕ → ℕ
setting none least most fallback = fallback
setting (some raw) least most fallback = if leb least raw then min most raw else fallback

unfoldable pub parse_replay_admission_config : Env → ReplayAdmissionConfig
parse_replay_admission_config env =
    let base : ℕ = setting env.ws_replay_defer_base_delay_ms 50 5000 250 in
    record {
      replay_semaphore_max = setting env.ws_replay_semaphore_max 1 32 2;
      replay_defer_max_attempts = setting env.ws_replay_defer_max_attempts 1 20 8;
      replay_defer_base_delay_ms = base;
      replay_defer_max_delay_ms = elim env.ws_replay_defer_max_delay_ms [
        | none ↦ 4000
        | some raw ↦ if leb base raw then min 30000 raw else 4000
      ];
      replay_pool_waiting_threshold = setting env.ws_replay_pool_waiting_threshold 0 128 0;
    }

pub data Gate : Type 0 where
  passes pool_waiting semaphore_full : Gate

unfoldable pub evaluate_replay_gate : ℕ → ℕ → ReplayAdmissionConfig → Gate
evaluate_replay_gate waiting in_flight c =
    if ltb c.replay_pool_waiting_threshold waiting
    then pool_waiting
    else if leb c.replay_semaphore_max in_flight
    then semaphore_full
    else passes

abbrev pub is_ok : Gate → Bool
is_ok passes = true
is_ok pool_waiting = false
is_ok semaphore_full = false

-- `jitter` is `Math.floor(random() * 150)`.
unfoldable pub compute_replay_deferred_delay_ms : ℕ → ReplayAdmissionConfig → ℕ → ℕ
compute_replay_deferred_delay_ms attempt c jitter =
    min c.replay_defer_max_delay_ms (c.replay_defer_base_delay_ms * 2 ^ min 10 (attempt - 1))
    + jitter

-- The closure's variables.
pub record Admission : Type 0 where
  pub config : ReplayAdmissionConfig
  pub replay_user_cooldown_ms : ℕ
  pub ws_replay_in_flight_count : ℕ
  pub recent_replay_by_user : List (String × ℕ)
  pub replay_ip_concurrency : List (String × ℕ)

unfoldable pub try_acquire_replay_slot : Admission → Admission × Bool
try_acquire_replay_slot a =
    if leb a.config.replay_semaphore_max a.ws_replay_in_flight_count
    then (a, false)
    else (record a { ws_replay_in_flight_count = a.ws_replay_in_flight_count + 1 }, true)

unfoldable pub release_replay_slot : Admission → Admission
release_replay_slot a = record a { ws_replay_in_flight_count = a.ws_replay_in_flight_count - 1 }

abbrev pub or_zero : Option ℕ → ℕ
or_zero none = 0
or_zero (some n) = n

unfoldable pub can_run_replay_for_user : String → ℕ → Admission → Admission × Bool
can_run_replay_for_user user_id now a =
    if ltb (now - or_zero (map_get user_id a.recent_replay_by_user)) a.replay_user_cooldown_ms
    then (a, false)
    else (record a { recent_replay_by_user = map_set user_id now a.recent_replay_by_user }, true)

-- `ip || "unknown"`
abbrev pub ip_key : String → String
ip_key ip = if ip == "" then "unknown" else ip

unfoldable pub try_begin_replay_for_ip : (String → Bool) → String → Admission → Admission × Bool
try_begin_replay_for_ip is_exempt ip a =
    let n : ℕ = or_zero (map_get (ip_key ip) a.replay_ip_concurrency) in
    if is_exempt ip
    then (a, true)
    else (if leb 1 n then (a, false) else (
      record a { replay_ip_concurrency = map_set (ip_key ip) (n + 1) a.replay_ip_concurrency },
      true,
    ))

unfoldable pub end_replay_for_ip : (String → Bool) → String → Admission → Admission
end_replay_for_ip is_exempt ip a =
    let n : ℕ = or_zero (map_get (ip_key ip) a.replay_ip_concurrency) - 1 in
    if is_exempt ip
    then a
    else (if leb n 0
        then record a { replay_ip_concurrency = map_delete (ip_key ip) a.replay_ip_concurrency }
        else record a { replay_ip_concurrency = map_set (ip_key ip) n a.replay_ip_concurrency })

-- What is observed at one attempt.
pub record Moment : Type 0 where
  pub waiting : ℕ
  pub in_flight : ℕ
  pub is_socket_open : Bool
  pub jitter : ℕ

pub record Outcome : Type 0 where
  pub gate : Gate
  pub attempts : ℕ
  pub total_wait_ms : ℕ
  pub cancelled : Bool

abbrev pub gate_at : ReplayAdmissionConfig → Moment → Gate
gate_at c m = evaluate_replay_gate m.waiting m.in_flight c

-- The `while` loop, `left` being the attempts that it may still make.
unfoldable pub wait_loop : ReplayAdmissionConfig → (ℕ → Moment) → ℕ → ℕ → ℕ → Outcome
wait_loop c at_attempt zero attempts total = record {
  gate = gate_at c (at_attempt attempts);
  attempts = attempts;
  total_wait_ms = total;
  cancelled = false;
}
wait_loop c at_attempt (suc left) attempts total =
    let m : Moment = at_attempt attempts in
    let rest : Outcome =
      wait_loop c at_attempt left (attempts + 1)
        (total + compute_replay_deferred_delay_ms (attempts + 1) c m.jitter) in
    let here : Bool → ℕ → Outcome = λ cancelled n. record {
      gate = gate_at c m;
      attempts = n;
      total_wait_ms = total;
      cancelled = cancelled;
    } in
    if is_ok (gate_at c m)
    then here false attempts
    else if m.is_socket_open
    then rest
    else here true (attempts + 1)

unfoldable pub wait_for_replay_gate_open : ReplayAdmissionConfig → (ℕ → Moment) → Outcome
wait_for_replay_gate_open c at_attempt = wait_loop c at_attempt c.replay_defer_max_attempts 0 0
