-- ===== src/Subscription/Manager.antt =====
-- backend/src/websocket/subscriptionManager.ts. A request runs up to its `await`, and a `_resumed`
-- function is the rest, so other requests can come between. A socket is a number.
use cse356_discord.Common.{
  ℕ, ◌+◌, ◌-◌, String, Bool, true, false, not, ◌||◌, Option, none, some, List, [], length, map_get,
  map_set, map_delete, string_eq, nat_eq, ◌==◌, leb, if◌then◌else◌, without, insert, members,
}
use text.Mathlib.Text.{starts_with}
use cse356_discord.Subscription.Registry.{Registry, release_redis_channel_subscription}

-- The fields of a socket that the manager reads and writes.
pub record Client : Type 0 where
  pub is_open : Bool
  pub user_id : Option String
  pub subscriptions : List String
  pub community_ids : List String
  pub explicit_channel_unsub : List String
  pub bootstrap_recent_connect_channel_ids : List String

-- The calls into the bootstrap's Redis marks, in order: what is sent and not waited for.
pub data Effect : Type 0 where
  clears_bootstrap_pending marks_recent_connect : (user_id topic : String) → Effect

pub record Hub : Type 0 where
  pub clients : List (ℕ × Client)
  pub local_user_clients : List (String × List ℕ)
  pub channel_clients : List (String × List ℕ)
  pub community_clients : List (String × List ℕ)
  pub pending_redis_release_timers : List String
  pub shard_ref_counts : List (String × ℕ)
  pub registry : Registry
  pub effects : List Effect

abbrev unknown_client : Client
unknown_client = record {
  is_open = false;
  user_id = none;
  subscriptions = [];
  community_ids = [];
  explicit_channel_unsub = [];
  bootstrap_recent_connect_channel_ids = [];
}

abbrev client_or : Option Client → Client
client_or none = unknown_client
client_or (some c) = c

abbrev pub client : ℕ → Hub → Client
client ws h = client_or (map_get ws h.clients)

abbrev pub set_client : ℕ → Client → Hub → Hub
set_client ws c h = record h { clients = map_set ws c h.clients }

abbrev pub or_zero : Option ℕ → ℕ
or_zero none = 0
or_zero (some n) = n

-- What the manager is created with: the tests on topics that other modules give it, the grace time, and
-- whether the Redis client is operational.
pub record Setup : Type 0 where
  pub user_id_from_target : String → Option String
  pub community_feed_channel : String → String
  pub release_grace_ms : ℕ
  pub operational : Bool

-- `redisChannel.startsWith("user:") && userId`
abbrev pub user_of : Setup → String → Option String
user_of s topic = if starts_with topic "user:" then s.user_id_from_target topic else none

unfoldable pub is_grace_eligible_redis_topic : String → Bool
is_grace_eligible_redis_topic topic =
    starts_with topic "channel:" || starts_with topic "conversation:"

unfoldable pub increment_owned_communityfeed_shard : String → Hub → Hub
increment_owned_communityfeed_shard shard h = record h {
  shard_ref_counts =
      map_set shard (or_zero (map_get shard h.shard_ref_counts) + 1) h.shard_ref_counts;
}

-- The second component is the function's result: whether the shard is to be released.
unfoldable pub decrement_owned_communityfeed_shard : String → Hub → Hub × Bool
decrement_owned_communityfeed_shard shard h =
    let current = or_zero (map_get shard h.shard_ref_counts) in
    if leb current 1
    then (record h { shard_ref_counts = map_delete shard h.shard_ref_counts }, true)
    else (record h { shard_ref_counts = map_set shard (current - 1) h.shard_ref_counts }, false)

unfoldable pub clear_pending_redis_release : String → Hub → Hub
clear_pending_redis_release topic h = record h {
  pending_redis_release_timers = without h.pending_redis_release_timers topic;
}

unfoldable pub release : Setup → String → Hub → Hub
release s topic h = record h {
  registry = release_redis_channel_subscription s.operational topic h.registry;
}

unfoldable pub release_redis_topic_maybe_with_grace : Setup → String → Hub → Hub
release_redis_topic_maybe_with_grace s topic h =
    if not (is_grace_eligible_redis_topic topic) || leb s.release_grace_ms 0
    then release s topic h
    else record h { pending_redis_release_timers = insert h.pending_redis_release_timers topic }

-- The timer's callback.
unfoldable pub release_timer_fired : Setup → String → Hub → Hub
release_timer_fired s topic h =
    let cleared : Hub = clear_pending_redis_release topic h in
    if length (members topic h.channel_clients) == 0 then release s topic cleared else cleared
