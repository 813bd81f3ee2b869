-- ===== src/LockPressure/Tests.antt =====
-- A timeout, and the seconds after it.
use cse356_discord.Common.{◌≡◌, true, none, List, [], ◌∷◌, All, arith}
use cse356_discord.LockPressure.{Pressure, PressureEnv, record_timeout_event}
use cse356_discord.LockPressure.Shedding.{Call, waited, asked, answers, answers-after_timeout}

abbrev env : PressureEnv
env = record {
  window_ms = none;
  wait_p95_ms = none;
  min_samples_for_p95 = none;
  cooldown_ms = none;
  recover_p95_ms = none;
}

abbrev quiet : Pressure
quiet = record { acquire_samples = []; timeout_timestamps = []; read_shed_active_until_ms = 0 }

abbrev calls : List Call
calls = asked 200 ∷ waited 10 900 ∷ asked 1000 ∷ asked 4900 ∷ []

answers-after_timeout_example :
    All (λ answer. answer ≡ true) (answers env calls (record_timeout_event env 100 quiet))
answers-after_timeout_example = answers-after_timeout env 100 calls quiet (
  (omega arith, omega arith),
  ((omega arith, omega arith), ((omega arith, omega arith), ((omega arith, omega arith), tt))),
)
