-- ===== src/Singleflight/Tests.antt =====
-- Two processes that want the same key of distributedSingleflight.ts.
use native.Mathlib.Nat.{mul-le-mul_left}
use cse356_discord.Common.{
  ℕ, ◌+◌, ◌-◌, ◌*◌, ◌/◌, ◌==◌, min, ◌≡◌, ◌≤◌, ◌<◌, refl, true, false, none, some, List, [], ◌∷◌,
  arith, nat_eq,
}
use cse356_discord.Value.{num}
use cse356_discord.Singleflight.{
  Params, Run, loading, releasing, resolved, Flights, idle_flights, happen, happen_all, called,
  replies, answered, wakes, releases, Event, with_distributed_singleflight,
}
use cse356_discord.Singleflight.Exclusion.{happen_all-one_loader, happen_all-one_run}
use cse356_discord.Singleflight.Release.{happen-keeps_lock}
use cse356_discord.Singleflight.Ttl.{
  Floats, IsFloats, StaleCacheOpts, set_json_cache_with_stale, stale_cache_key,
  set_json_cache_with_stale-outlives,
}

abbrev patient : Params
patient = record { has_read_stale = false; wait_for_fresh_ms = 800 }

-- The first process loads under the lock, the second waits for its value.
abbrev race : List Event
race = called 1 ∷ called 2 ∷ replies 10 answered 0 ∷ replies 11 answered 1 ∷ wakes 20 1 ∷ []

abbrev first_run : Run
first_run = record { process = 1; phase = loading true }

happen_all-one_loader_example : ◌≡◌ {A = ℕ} 0 0
unfolding happen_all
happen_all-one_loader_example =
    happen_all-one_loader patient race 0 0 first_run first_run refl refl refl refl refl

happen_all-one_run_example :
    (◌≡◌ {A = ℕ} 0 0)
    × (with_distributed_singleflight 1 (happen_all patient race idle_flights)
        ≡ (happen_all patient race idle_flights, 0))
unfolding happen_all
happen_all-one_run_example = happen_all-one_run patient race 0 0 first_run first_run refl refl refl

-- The lock of the first run expires, the second process takes it, and the first comes to its release.
abbrev overtaken : Flights
overtaken = record {
  lock = some 1;
  inflight = (1, 0) ∷ (2, 1) ∷ [];
  runs =
      (0, record { process = 1; phase = releasing (resolved (num 5)) })
      ∷ (1, record { process = 2; phase = loading true })
      ∷ [];
  settled = [];
  next_token = 2;
}

happen-keeps_lock_example : (happen patient (releases true 0) overtaken).lock ≡ some 1
happen-keeps_lock_example = happen-keeps_lock patient 1 (releases true 0) overtaken refl refl

-- Hundredths stand for the ratios and multipliers: a jitter of 0.2 and a multiplier of 1.25.
abbrev hundredths : Floats ℕ
hundredths = record {
  clamp_ratio = λ r. min 95 r;
  is_zero = λ r. r == 0;
  floor_less = λ n r. n * (100 - r) / 100;
  ceil_more = λ n r. (n * (100 + r) + 99) / 100;
  round_times = λ n m. (n * m + 50) / 100;
  two = 200;
  pick = λ n. n - 1;
}

hundredths-IsFloats : IsFloats hundredths
hundredths-IsFloats = record {
  less = λ n ratio.
      let up : n * (100 - min 95 ratio) ≤ n * 100 = mul-le-mul_left n (omega arith) in
      omega (arith, up);
  more = λ n ratio.
      let up : n * (100 + min 95 ratio) ≤ n * 195 = mul-le-mul_left n (omega arith) in
      omega (arith, up);
  picked = λ n h. omega (arith, h);
}

abbrev opts : StaleCacheOpts ℕ
opts = record {
  stale_ttl_seconds = none;
  jitter_ratio = 20;
  write_stale = true;
  stale_multiplier = some 125;
  max_stale_ttl_seconds = some 30;
}

set_json_cache_with_stale-outlives_example :
    (ttl : ℕ) × (stale : ℕ) × (set_json_cache_with_stale hundredths "k" "v" 60 opts
      ≡ record { key = "k"; payload = "v"; ttl_seconds = ttl }
        ∷ record { key = stale_cache_key "k"; payload = "v"; ttl_seconds = stale }
        ∷ [])
    × (1 ≤ ttl)
    × (ttl < stale)
    × (stale ≤ 604800)
set_json_cache_with_stale-outlives_example =
    set_json_cache_with_stale-outlives hundredths hundredths-IsFloats "k" "v" 60 opts refl
