-- ===== src/ReplayAdmission/Tests.antt =====
-- Two replays, and a wait that gives up.
use cse356_discord.Common.{false, List, [], ◌∷◌, arith}
use cse356_discord.ReplayAdmission.{ReplayAdmissionConfig, Admission}
use cse356_discord.ReplayAdmission.Limits.{
  Op, acquires, releases, begins, ends, perform_all, IsLimited, perform_all-IsLimited,
}

abbrev config : ReplayAdmissionConfig
config = record {
  replay_semaphore_max = 1;
  replay_defer_max_attempts = 2;
  replay_defer_base_delay_ms = 50;
  replay_defer_max_delay_ms = 80;
  replay_pool_waiting_threshold = 0;
}

abbrev idle : Admission
idle = record {
  config = config;
  replay_user_cooldown_ms = 10;
  ws_replay_in_flight_count = 0;
  recent_replay_by_user = [];
  replay_ip_concurrency = [];
}

abbrev two_replays : List Op
two_replays =
    acquires ∷ begins "10.0.0.1" ∷ acquires ∷ begins "10.0.0.1" ∷ ends "10.0.0.1" ∷ releases ∷ []

perform_all-IsLimited_example : IsLimited (perform_all (λ ip. false) two_replays idle)
perform_all-IsLimited_example =
    perform_all-IsLimited (λ ip. false) two_replays idle
      (record { in_flight = omega arith; per_ip = tt })
