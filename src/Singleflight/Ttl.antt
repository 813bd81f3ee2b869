-- ===== src/Singleflight/Ttl.antt =====
-- How long setJsonCacheWithStale of backend/src/utils/distributedSingleflight.ts keeps a value and its stale
-- copy. Seconds are whole numbers; a ratio and a multiplier are numbers of JavaScript, of which `Floats` has
-- the operations that the source makes of them.
use Prim.Native.String
use cse356_discord.Common.{
  ℕ, ◌+◌, ◌-◌, ◌*◌, ◌≤◌, ◌<◌, ◌≡◌, refl, String, Bool, true, Option, none, some, List, [], ◌∷◌, max,
  arith, if◌then◌else◌, nat_eq,
}
use cse356_discord.Singleflight.{clamp_int}

-- The writes of the pipeline, in order: key, payload and lifetime.
pub record Write : Type 0 where
  pub key : String
  pub payload : String
  pub ttl_seconds : ℕ

-- What is computed in floating point. The ratio `r` of the first three is between 0 and 0.95; a product
-- that is negative counts as 0, which the bounds that follow make the same.
pub record Floats (F : Type 0) : Type 0 where
  -- `Math.max(0, Math.min(0.95, Number(ratio) || 0))`
  pub clamp_ratio : F → F
  -- `r === 0`
  pub is_zero : F → Bool
  -- `Math.floor(n * (1 - r))`
  pub floor_less : ℕ → F → ℕ
  -- `Math.ceil(n * (1 + r))`
  pub ceil_more : ℕ → F → ℕ
  -- `Math.round(n * m)`, of a finite `m`
  pub round_times : ℕ → F → ℕ
  -- `DEFAULT_STALE_MULTIPLIER`
  pub two : F
  -- `Math.floor(Math.random() * n)`
  pub pick : ℕ → ℕ

-- What the arithmetic of floating point gives for whole numbers of seconds, as multiplication and rounding
-- are monotone and the doubles of these numbers exact, and that `Math.random()` is below 1.
pub record IsFloats {F : Type 0} (fl : Floats F) : Type 0 where
  pub less : (n : ℕ) (ratio : F) → fl.floor_less n (fl.clamp_ratio ratio) ≤ n
  pub more : (n : ℕ) (ratio : F) → fl.ceil_more n (fl.clamp_ratio ratio) ≤ 2 * n
  pub picked : (n : ℕ) → 1 ≤ n → fl.pick n < n

-- A multiplier is `none` where it is absent or not finite.
pub record StaleCacheOpts (F : Type 0) : Type 0 where
  pub stale_ttl_seconds : Option ℕ
  pub jitter_ratio : F
  pub write_stale : Bool
  pub stale_multiplier : Option F
  pub max_stale_ttl_seconds : Option ℕ

abbrev pub or_default {ℓ} : {A : Type ℓ} → A → Option A → A
or_default n none = n
or_default n (some m) = m

abbrev pub week : ℕ
week = 604800

unfoldable pub stale_cache_key : String → String
stale_cache_key cache_key = String.◌++◌ "stale:" cache_key

module _ {F : Type 0} (fl : Floats F) where
  abbrev pub lowest : ℕ → F → ℕ
  lowest base r = max 1 (fl.floor_less base r)

  abbrev pub highest : ℕ → F → ℕ
  highest base r = max (lowest base r) (fl.ceil_more base r)

  unfoldable pub jittered_ttl_seconds : ℕ → F → ℕ
  jittered_ttl_seconds base_ttl_seconds ratio =
      let base = clamp_int base_ttl_seconds 1 86400 in
      let r = fl.clamp_ratio ratio in
      if fl.is_zero r then base else lowest base r + fl.pick (highest base r - lowest base r + 1)

  abbrev max_stale : ℕ → Option ℕ → ℕ
  max_stale ttl none = week
  max_stale ttl (some n) = clamp_int n (max (ttl + 1) 2) week

  unfoldable pub stale_ttl : ℕ → ℕ → StaleCacheOpts F → ℕ
  stale_ttl ttl_seconds ttl opts =
      clamp_int
        (or_default (fl.round_times ttl_seconds (or_default fl.two opts.stale_multiplier))
          opts.stale_ttl_seconds)
        (max (ttl + 1) 2) (max_stale ttl opts.max_stale_ttl_seconds)

  -- Where Redis takes the writes.
  unfoldable pub set_json_cache_with_stale : String → String → ℕ → StaleCacheOpts F → List Write
  unfolding jittered_ttl_seconds stale_ttl stale_cache_key
  set_json_cache_with_stale key payload ttl_seconds opts =
      let ttl = jittered_ttl_seconds ttl_seconds opts.jitter_ratio in
      let main : Write = record { key = key; payload = payload; ttl_seconds = ttl } in
      let stale : Write = record {
        key = stale_cache_key key;
        payload = payload;
        ttl_seconds = stale_ttl ttl_seconds ttl opts;
      } in
      if opts.write_stale then main ∷ stale ∷ [] else main ∷ []

module _ {F : Type 0} (fl : Floats F) (laws : IsFloats fl) where
  jittered_ttl_seconds-bounds :
      (n : ℕ) (ratio : F)
      → (1 ≤ jittered_ttl_seconds fl n ratio) × (jittered_ttl_seconds fl n ratio ≤ 172800)
  unfolding jittered_ttl_seconds
  jittered_ttl_seconds-bounds n ratio =
      let base = clamp_int n 1 86400 in
      let r = fl.clamp_ratio ratio in
      let low = laws.less base ratio in
      let top = laws.more base ratio in
      let picked = laws.picked (highest fl base r - lowest fl base r + 1) (omega arith) in
      ground (arith, low, top, picked)

  stale_ttl-bounds :
      (ttl_seconds ttl : ℕ) (opts : StaleCacheOpts F)
      → ttl ≤ 172800
      → (ttl < stale_ttl fl ttl_seconds ttl opts) × (stale_ttl fl ttl_seconds ttl opts ≤ 604800)
  unfolding stale_ttl
  stale_ttl-bounds ttl_seconds ttl opts h = ground arith

  -- If a stale copy is asked for and Redis takes the writes, the two have the same payload, and the stale
  -- copy lives longer than the fresh one and at most a week, whatever the seconds, the jitter, the
  -- multiplier, which need not be whole, and the upper bound.
  pub set_json_cache_with_stale-outlives :
      (key payload : String) (ttl_seconds : ℕ) (opts : StaleCacheOpts F)
      → opts.write_stale ≡ true
      → (ttl : ℕ) × (stale : ℕ) × (set_json_cache_with_stale fl key payload ttl_seconds opts
          ≡ record { key = key; payload = payload; ttl_seconds = ttl }
            ∷ record { key = stale_cache_key key; payload = payload; ttl_seconds = stale }
            ∷ [])
        × (1 ≤ ttl)
        × (ttl < stale)
        × (stale ≤ 604800)
  unfolding set_json_cache_with_stale
  set_json_cache_with_stale-outlives key payload ttl_seconds opts h =
      let ttl = jittered_ttl_seconds fl ttl_seconds opts.jitter_ratio in
      let (low, high) = jittered_ttl_seconds-bounds ttl_seconds opts.jitter_ratio in
      let (over, under) = stale_ttl-bounds ttl_seconds ttl opts high in
      (ttl, stale_ttl fl ttl_seconds ttl opts, rw h refl, low, over, under)
