-- ===== src/ReplayAdmission/Limits.antt =====
-- replayAdmission.ts and replayAdmissionState.ts: the limits that admission keeps.
use cse356_discord.Common.{
  ℕ, ◌+◌, ◌-◌, ◌≤◌, ◌<◌, ◌≡◌, String, Bool, true, false, map_get-map_set_self, inl, inr, Option,
  none, some, List, [], ◌∷◌, arith, leb, Bool-cases, string_eq, map_get, AllValues,
  AllValues-map_set, AllValues-map_delete, AllValues-map_get, Option-cases,
}
use cse356_discord.ReplayAdmission.{
  ReplayAdmissionConfig, Env, setting, parse_replay_admission_config, Admission,
  try_acquire_replay_slot, release_replay_slot, try_begin_replay_for_ip, end_replay_for_ip, ip_key,
  or_zero, can_run_replay_for_user,
}

setting-bounds :
    (raw : Option ℕ) (least most fallback : ℕ)
    → least ≤ most
    → least ≤ fallback
    → fallback ≤ most
    → (least ≤ setting raw least most fallback) × (setting raw least most fallback ≤ most)
unfolding setting
setting-bounds none least most fallback a b c = (b, c)
setting-bounds (some raw) least most fallback a b c = (ground arith, ground arith)

-- Whatever the environment says, from 1 to 32 replays run at a time, a wait makes from 1 to 20 attempts,
-- its first delay is from 50 to 5000 ms, no delay is above 30000 ms before the random part, and the
-- threshold of the pool is at most 128.
pub parse_replay_admission_config-bounds :
    (env : Env)
    → let c : ReplayAdmissionConfig = parse_replay_admission_config env in
      ((1 ≤ c.replay_semaphore_max) × (c.replay_semaphore_max ≤ 32))
      × ((1 ≤ c.replay_defer_max_attempts) × (c.replay_defer_max_attempts ≤ 20))
      × ((50 ≤ c.replay_defer_base_delay_ms) × (c.replay_defer_base_delay_ms ≤ 5000))
      × (c.replay_defer_max_delay_ms ≤ 30000)
      × (c.replay_pool_waiting_threshold ≤ 128)
unfolding parse_replay_admission_config
parse_replay_admission_config-bounds env = (
  setting-bounds env.ws_replay_semaphore_max 1 32 2 (omega arith) (omega arith) (omega arith),
  setting-bounds env.ws_replay_defer_max_attempts 1 20 8 (omega arith) (omega arith) (omega arith),
  setting-bounds env.ws_replay_defer_base_delay_ms 50 5000 250 (omega arith) (omega arith)
      (omega arith),
  ground arith,
  (setting-bounds env.ws_replay_pool_waiting_threshold 0 128 0 (omega arith) (omega arith)
      (omega arith)).1,
)

-- Right after a user's replay was allowed, another of the same user within the cooldown is refused.
pub can_run_replay_for_user-cooldown :
    (user_id : String) (now later : ℕ) (a : Admission)
    → (can_run_replay_for_user user_id now a).1 ≡ true
    → later - now < a.replay_user_cooldown_ms
    → (can_run_replay_for_user user_id later (can_run_replay_for_user user_id now a).0).1 ≡ false
unfolding can_run_replay_for_user
can_run_replay_for_user-cooldown user_id now later a allowed soon =
    ground (arith, map_get-map_set_self user_id now a.recent_replay_by_user, allowed, soon)

-- What a replay does to the counts.
pub data Op : Type 0 where
  acquires releases : Op
  begins ends : (ip : String) → Op

module _ (is_exempt : String → Bool) where
  abbrev pub perform : Op → Admission → Admission
  perform acquires a = (try_acquire_replay_slot a).0
  perform releases a = release_replay_slot a
  perform (begins ip) a = (try_begin_replay_for_ip is_exempt ip a).0
  perform (ends ip) a = end_replay_for_ip is_exempt ip a

  abbrev pub perform_all : List Op → Admission → Admission
  perform_all [] a = a
  perform_all (op ∷ ops) a = perform_all ops (perform op a)

-- No more in flight than the semaphore has places, and one replay from each address that is counted.
pub record IsLimited (a : Admission) : Type 0 where
  pub in_flight : a.ws_replay_in_flight_count ≤ a.config.replay_semaphore_max
  pub per_ip : AllValues (λ n. n ≡ 1) a.replay_ip_concurrency

acquires-IsLimited : (a : Admission) → IsLimited a → IsLimited (try_acquire_replay_slot a).0
unfolding try_acquire_replay_slot
acquires-IsLimited a l =
    elim (Bool-cases (leb a.config.replay_semaphore_max a.ws_replay_in_flight_count)) [
      | inl full ↦ rw full l
      | inr room ↦ rw room record { in_flight = ground (arith, l.in_flight); per_ip = l.per_ip }
    ]

releases-IsLimited : (a : Admission) → IsLimited a → IsLimited (release_replay_slot a)
unfolding release_replay_slot
releases-IsLimited a l = record { in_flight = omega (arith, l.in_flight); per_ip = l.per_ip }

begins-IsLimited :
    (is_exempt : String → Bool) (ip : String) (a : Admission)
    → IsLimited a
    → IsLimited (try_begin_replay_for_ip is_exempt ip a).0
unfolding try_begin_replay_for_ip
begins-IsLimited is_exempt ip a l =
    let n : ℕ = or_zero (map_get (ip_key ip) a.replay_ip_concurrency) in
    elim (Bool-cases (is_exempt ip)) [
      | inl free ↦ rw free l
      | inr counted ↦ elim (Bool-cases (leb 1 n)) [
        | inl busy ↦ rw (counted, busy) l
        | inr idle ↦
            rw (counted, idle)
              record {
                in_flight = l.in_flight;
                per_ip =
                    AllValues-map_set (λ n. n ≡ 1) (ip_key ip) (n + 1) a.replay_ip_concurrency
                      l.per_ip (ground arith);
              }
      ]
    ]

or_zero-le :
    (k : String) (m : List (String × ℕ)) → AllValues (λ n. n ≡ 1) m → or_zero (map_get k m) ≤ 1
or_zero-le k m l = elim (Option-cases (map_get k m)) [
  | inl absent ↦ rw absent (omega arith)
  | inr (n, there) ↦ rw there (omega (arith, AllValues-map_get (λ n. n ≡ 1) k n m l there))
]

ends-IsLimited :
    (is_exempt : String → Bool) (ip : String) (a : Admission)
    → IsLimited a
    → IsLimited (end_replay_for_ip is_exempt ip a)
unfolding end_replay_for_ip
ends-IsLimited is_exempt ip a l = elim (Bool-cases (is_exempt ip)) [
  | inl free ↦ rw free l
  | inr counted ↦
      let last : leb (or_zero (map_get (ip_key ip) a.replay_ip_concurrency) - 1) 0 ≡ true =
        ground (arith, or_zero-le (ip_key ip) a.replay_ip_concurrency l.per_ip) in
      rw (counted, last)
        record {
          in_flight = l.in_flight;
          per_ip = AllValues-map_delete (λ n. n ≡ 1) (ip_key ip) a.replay_ip_concurrency l.per_ip;
        }
]

-- If no more slots are taken than the semaphore has and each counted address is counted once, this
-- is still so after replays acquired and released slots and began and ended for addresses, in
-- whatever order.
pub perform_all-IsLimited :
    (is_exempt : String → Bool) (ops : List Op) (a : Admission)
    → IsLimited a
    → IsLimited (perform_all is_exempt ops a)
perform_all-IsLimited is_exempt [] a l = l
perform_all-IsLimited is_exempt (acquires ∷ ops) a l =
    perform_all-IsLimited is_exempt ops _ (acquires-IsLimited a l)
perform_all-IsLimited is_exempt (releases ∷ ops) a l =
    perform_all-IsLimited is_exempt ops _ (releases-IsLimited a l)
perform_all-IsLimited is_exempt (begins ip ∷ ops) a l =
    perform_all-IsLimited is_exempt ops _ (begins-IsLimited is_exempt ip a l)
perform_all-IsLimited is_exempt (ends ip ∷ ops) a l =
    perform_all-IsLimited is_exempt ops _ (ends-IsLimited is_exempt ip a l)
