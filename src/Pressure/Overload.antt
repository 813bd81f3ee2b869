-- ===== src/Pressure/Overload.antt =====
-- backend/src/utils/overload.ts: the stages of overload and what each of them turns off.
-- Memory is in bytes and the lag in nanoseconds; a threshold is the number that its variable parses to.
use cse356_discord.Common.{
  ℕ, ◌+◌, ◌/◌, ◌≤◌, ◌≡◌, String, Bool, not, true, false, ◌||◌, Option, none, some, arith, min, leb,
  if◌then◌else◌, nat_eq,
}

-- `Math.round(bytes / 1024 / 1024)`
unfoldable pub to_mb : ℕ → ℕ
to_mb bytes = (bytes + 524288) / 1048576

-- `Math.round(ns / 1e6)`
unfoldable pub to_ms : ℕ → ℕ
to_ms ns = (ns + 500000) / 1000000

unfoldable pub get_threshold : Option ℕ → ℕ → ℕ
get_threshold none fallback = fallback
get_threshold (some parsed) fallback = parsed

-- The variables; `number` is JavaScript's `Number` of a text where that is a whole number.
pub record Environment : Type 0 where
  pub number : String → Option ℕ
  pub force_overload_stage : String
  pub rss_warn : Option ℕ
  pub rss_high : Option ℕ
  pub rss_critical : Option ℕ
  pub lag_warn : Option ℕ
  pub lag_high : Option ℕ
  pub lag_critical : Option ℕ
  pub lag_shed : Option ℕ
  pub http_shed_enabled : Bool

pub record Load : Type 0 where
  pub rss : ℕ
  pub lag_p99 : ℕ

-- The stage that is measured.
unfoldable pub measured_stage : Environment → ℕ → ℕ → ℕ
unfolding get_threshold
measured_stage v rss_mb lag_p99_ms =
    if leb (get_threshold v.rss_critical 1700) rss_mb
      || leb (get_threshold v.lag_critical 100) lag_p99_ms
    then 3
    else (if leb (get_threshold v.rss_high 1300) rss_mb
          || leb (get_threshold v.lag_high 50) lag_p99_ms
        then 2
        else (if leb (get_threshold v.rss_warn 900) rss_mb
              || leb (get_threshold v.lag_warn 20) lag_p99_ms
            then 1
            else 0))

abbrev forced_or : Option ℕ → ℕ → ℕ
forced_or none stage = stage
forced_or (some forced) stage = if leb forced 3 then forced else stage

-- `force_overload_stage` is the variable, the empty text if it is unset.
unfoldable pub compute_stage : Environment → Load → ℕ
unfolding measured_stage to_mb to_ms
compute_stage v l =
    forced_or (v.number v.force_overload_stage) (measured_stage v (to_mb l.rss) (to_ms l.lag_p99))

unfoldable pub should_throttle_presence_fanout : Environment → Load → Bool
should_throttle_presence_fanout v l = leb 1 (compute_stage v l)

unfoldable pub should_skip_presence_mirror : Environment → Load → Bool
should_skip_presence_mirror v l = leb 2 (compute_stage v l)

unfoldable pub should_reject_search_requests : Environment → Load → Bool
should_reject_search_requests v l = leb 3 (compute_stage v l)

unfoldable pub search_limit : Environment → Load → ℕ → ℕ
search_limit v l base_limit =
    if leb 2 (compute_stage v l)
    then min base_limit 6
    else (if leb 1 (compute_stage v l) then min base_limit 12 else base_limit)

unfoldable pub should_defer_search_indexing : Environment → Load → Bool
should_defer_search_indexing v l = leb 2 (compute_stage v l)

unfoldable pub should_restrict_non_essential_writes : Environment → Load → Bool
should_restrict_non_essential_writes v l = leb 3 (compute_stage v l)

unfoldable pub should_shed_incoming_requests : Environment → Load → Bool
unfolding get_threshold to_ms
should_shed_incoming_requests v l =
    if not v.http_shed_enabled then false else leb (get_threshold v.lag_shed 250) (to_ms l.lag_p99)

unfoldable pub history_limit : Environment → Load → ℕ → ℕ
history_limit v l base_limit = if leb 2 (compute_stage v l) then min base_limit 30 else base_limit

measured_stage_mono :
    (v : Environment) (rss rss' lag lag' : ℕ)
    → rss ≤ rss'
    → lag ≤ lag'
    → measured_stage v rss lag ≤ measured_stage v rss' lag'
unfolding measured_stage
measured_stage_mono v rss rss' lag lag' h k = ground arith

to_mb_mono : (m n : ℕ) → m ≤ n → to_mb m ≤ to_mb n
unfolding to_mb
to_mb_mono m n h = omega arith

to_ms_mono : (m n : ℕ) → m ≤ n → to_ms m ≤ to_ms n
unfolding to_ms
to_ms_mono m n h = omega arith

forced_or_mono : (o : Option ℕ) (a b : ℕ) → a ≤ b → forced_or o a ≤ forced_or o b
forced_or_mono none a b h = h
forced_or_mono (some forced) a b h = ground arith

stage_mono :
    (v : Environment) (l l' : Load)
    → l.rss ≤ l'.rss
    → l.lag_p99 ≤ l'.lag_p99
    → compute_stage v l ≤ compute_stage v l'
unfolding compute_stage
stage_mono v l l' h k =
    forced_or_mono (v.number v.force_overload_stage) _ _
      (measured_stage_mono v _ _ _ _ (to_mb_mono _ _ h) (to_ms_mono _ _ k))

-- What is turned off under `l` is turned off under `l'`, and no limit is higher under `l'`.
pub record IsMilder (v : Environment) (l l' : Load) : Type 0 where
  pub stage : compute_stage v l ≤ compute_stage v l'
  pub presence :
      should_throttle_presence_fanout v l ≡ true → should_throttle_presence_fanout v l' ≡ true
  pub mirror : should_skip_presence_mirror v l ≡ true → should_skip_presence_mirror v l' ≡ true
  pub search : should_reject_search_requests v l ≡ true → should_reject_search_requests v l' ≡ true
  pub indexing : should_defer_search_indexing v l ≡ true → should_defer_search_indexing v l' ≡ true
  pub writes :
      should_restrict_non_essential_writes v l ≡ true
      → should_restrict_non_essential_writes v l' ≡ true
  pub requests :
      should_shed_incoming_requests v l ≡ true → should_shed_incoming_requests v l' ≡ true
  pub searched : (base : ℕ) → search_limit v l' base ≤ search_limit v l base
  pub history : (base : ℕ) → history_limit v l' base ≤ history_limit v l base

sheds_mono :
    (v : Environment) (l l' : Load)
    → l.lag_p99 ≤ l'.lag_p99
    → should_shed_incoming_requests v l ≡ true
    → should_shed_incoming_requests v l' ≡ true
unfolding should_shed_incoming_requests
sheds_mono v l l' h on = ground (arith, to_ms_mono l.lag_p99 l'.lag_p99 h)

-- Whatever the thresholds are, in whatever order they stand and whether or not a stage is forced, more
-- memory and more lag mean no lower stage; whatever less load turns off, the shedding of incoming
-- requests included, more load turns off, and no limit on a search or a history is higher.
pub compute_stage-IsMilder :
    (v : Environment) (l l' : Load) → l.rss ≤ l'.rss → l.lag_p99 ≤ l'.lag_p99 → IsMilder v l l'
unfolding should_throttle_presence_fanout should_skip_presence_mirror should_reject_search_requests
    search_limit should_defer_search_indexing should_restrict_non_essential_writes history_limit
compute_stage-IsMilder v l l' h k =
    let stage : compute_stage v l ≤ compute_stage v l' = stage_mono v l l' h k in
    record {
      stage = stage;
      presence = λ on. ground (arith, stage, on);
      mirror = λ on. ground (arith, stage, on);
      search = λ on. ground (arith, stage, on);
      indexing = λ on. ground (arith, stage, on);
      writes = λ on. ground (arith, stage, on);
      requests = sheds_mono v l l' k;
      searched = λ base. ground (arith, stage);
      history = λ base. ground (arith, stage);
    }
