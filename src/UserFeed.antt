-- ===== src/UserFeed.antt =====
-- backend/src/websocket/userFeed.ts and the shards of communityFeed.ts: to which Redis channels an event
-- for users or for a community is published. Trimming, UTF-16 codes and the text of a number are parameters.
pub mod Groups
pub mod Routing
pub mod Tests
use Prim.Native.Nat.{bit_xor}
use Prim.Native.String
use Prim.Native.String.{slice, len}
use text.Mathlib.Text.{starts_with, find?}
use cse356_discord.Common.{
  ℕ, ◌+◌, ◌*◌, ◌/◌, ◌%◌, ◌^◌, String, Bool, true, false, not, ◌&&◌, ◌||◌, Option, none, some, List,
  [], ◌∷◌, ◌++◌, map, min, max, leb, ltb, if◌then◌else◌, ◌==◌, nat_eq, string_eq, contains, length,
  map_get, map_set,
}
use cse356_discord.Value.{
  Value, str, obj, arr, Items, cons, nil, field, end, get_field, is_object, is_truthy,
}

-- What the two files use of the runtime.
pub record Runtime : Type 0 where
  pub trim : String → String
  pub char_codes : String → List ℕ
  pub text_of : ℕ → String

-- USER_FEED_SHARD_COUNT and COMMUNITY_FEED_SHARD_COUNT, of the number that the variable parses to.
unfoldable pub shard_count : Option ℕ → ℕ
shard_count none = 64
shard_count (some raw) = if ltb 0 raw then max 1 (min 256 raw) else 64

-- USER_FEED_LIVE_OWNER_RESOLUTION_MAX
unfoldable pub live_owner_resolution_max : Option ℕ → ℕ
live_owner_resolution_max none = 64
live_owner_resolution_max (some raw) = max 0 (min 512 raw)

unfoldable pub normalize_user_id : Runtime → String → Option String
normalize_user_id r value =
    let trimmed = r.trim value in if trimmed == "" then none else some trimmed

abbrev includes : String → String → Bool
includes s t = elim (find? s t) [ none ↦ false | some _ ↦ true ]

abbrev pub user_id_of_normalized : Runtime → Option String → Option String
user_id_of_normalized r none = none
user_id_of_normalized r (some normalized) =
    if starts_with normalized "user:"
    then normalize_user_id r (slice normalized 5 (len normalized))
    else (if includes normalized ":" then none else some normalized)

unfoldable pub user_id_from_target : Runtime → String → Option String
unfolding normalize_user_id
user_id_from_target r target = user_id_of_normalized r (normalize_user_id r target)

-- The loop of the FNV-1a hash on 32 bits.
unfoldable pub hash_from : ℕ → List ℕ → ℕ
hash_from hash [] = hash
hash_from hash (code ∷ codes) = hash_from ((bit_xor hash code * 16777619) % 2 ^ 32) codes

abbrev or_empty : Option String → String
or_empty none = ""
or_empty (some s) = s

-- `userFeedShardForUserId` and `communityFeedShardForCommunityId`, which are alike.
unfoldable pub shard_for : Runtime → ℕ → String → ℕ
unfolding hash_from normalize_user_id
shard_for r count id =
    hash_from 2166136261 (r.char_codes (or_empty (normalize_user_id r id))) % 2 ^ 32 % count

unfoldable pub user_feed_redis_channel_for_user_id : Runtime → ℕ → String → String
user_feed_redis_channel_for_user_id r count user_id =
    String.◌++◌ "userfeed:" (r.text_of (shard_for r count user_id))

unfoldable pub community_feed_redis_channel_for_community_id : Runtime → ℕ → String → String
community_feed_redis_channel_for_community_id r count community_id =
    String.◌++◌ "communityfeed:" (r.text_of (shard_for r count community_id))

-- An owner is a text that is not empty, or there is no channel.
unfoldable pub user_feed_worker_channel_for_owner : String → Option String
user_feed_worker_channel_for_owner owner_id =
    if owner_id == "" then none else some (String.◌++◌ "userfeed_worker:" owner_id)

-- `if (!m.has(channel)) m.set(channel, []); m.get(channel).push(userId)`
abbrev users_or : Option (List String) → List String
users_or none = []
users_or (some us) = us

abbrev pub users_at : String → List (String × List String) → List String
users_at channel groups = users_or (map_get channel groups)

unfoldable pub push_user :
    String → String → List (String × List String) → List (String × List String)
push_user channel user_id groups = map_set channel (users_at channel groups ++ user_id ∷ []) groups

unfoldable pub push_to :
    Option String → String → List (String × List String) → List (String × List String)
unfolding push_user
push_to none user_id groups = groups
push_to (some channel) user_id groups = push_user channel user_id groups

-- The inner loop, over a user's owners.
unfoldable pub push_owned :
    List String → String → List (String × List String) → List (String × List String)
unfolding push_to user_feed_worker_channel_for_owner
push_owned [] user_id groups = groups
push_owned (owner_id ∷ owners) user_id groups =
    push_owned owners user_id (push_to (user_feed_worker_channel_for_owner owner_id) user_id groups)

-- `Array.from(new Set(raw.filter((v) => typeof v === 'string' && v)))`
unfoldable pub distinct_owners : List String → List String → List String
distinct_owners seen [] = seen
distinct_owners seen (owner_id ∷ raw) =
    if owner_id == "" || contains seen owner_id
    then distinct_owners seen raw
    else distinct_owners (seen ++ owner_id ∷ []) raw

pub record Owned : Type 0 where
  pub by_channel : List (String × List String)
  pub unmatched : List String

-- The body of the loop over the users: a user with no owner is unmatched.
unfoldable pub place_user : List String → String → Owned → Owned
unfolding push_owned
place_user [] user_id o = record o { unmatched = o.unmatched ++ user_id ∷ [] }
place_user (owner ∷ owners) user_id o = record o {
  by_channel = push_owned (owner ∷ owners) user_id o.by_channel;
}

-- The loop over the users; `owners_of` are the owners that Redis gave for each, without repetition.
unfoldable pub group_by_owner : (String → List String) → List String → Owned → Owned
unfolding place_user
group_by_owner owners_of [] o = o
group_by_owner owners_of (user_id ∷ user_ids) o =
    group_by_owner owners_of user_ids (place_user (owners_of user_id) user_id o)

-- `resolveWorkerOwnedUsers`, of the keys of each user's hash.
unfoldable pub resolve_worker_owned_users : (String → List String) → List String → Owned
unfolding group_by_owner distinct_owners
resolve_worker_owned_users hash_keys user_ids =
    group_by_owner (λ user_id. distinct_owners [] (hash_keys user_id)) user_ids
      (record { by_channel = []; unmatched = [] })

-- The owners of the connections that are alive.
unfoldable pub live_owners : List (Bool × Option String) → List String
live_owners [] = []
live_owners ((alive, owner) ∷ connections) =
    if alive then or_empty owner ∷ live_owners connections else live_owners connections

-- `resolveLiveWorkerOwnedUsers`, of the connections of each user: alive or not, and the owner.
unfoldable pub resolve_live_worker_owned_users :
    (String → List (Bool × Option String)) → List String → Owned
unfolding group_by_owner distinct_owners live_owners
resolve_live_worker_owned_users connections_of user_ids =
    group_by_owner (λ user_id. distinct_owners [] (live_owners (connections_of user_id))) user_ids
      (record { by_channel = []; unmatched = [] })

-- The loop over the users that no worker owns.
unfoldable pub push_shards :
    Runtime → ℕ → List String → List (String × List String) → List (String × List String)
unfolding push_user user_feed_redis_channel_for_user_id
push_shards r count [] groups = groups
push_shards r count (user_id ∷ user_ids) groups =
    push_shards r count user_ids
      (push_user (user_feed_redis_channel_for_user_id r count user_id) user_id groups)

pub record Targets : Type 0 where
  pub user_ids : List String
  pub passthrough_targets : List String

unfoldable pub add_target : Runtime → String → Option String → Targets → Targets
add_target r target (some user_id) t =
    if contains t.user_ids user_id then t else record t { user_ids = t.user_ids ++ user_id ∷ [] }
add_target r target none t =
    if r.trim target == "" || contains t.passthrough_targets target
    then t
    else record t { passthrough_targets = t.passthrough_targets ++ target ∷ [] }

-- The loop of `splitUserTargets`; the sets of what was seen are the lists built so far.
unfoldable pub split_from : Runtime → List String → Targets → Targets
unfolding user_id_from_target add_target
split_from r [] t = t
split_from r (target ∷ targets) t =
    split_from r targets (add_target r target (user_id_from_target r target) t)

unfoldable pub split_user_targets : Runtime → List String → Targets
unfolding split_from
split_user_targets r targets =
    split_from r targets (record { user_ids = []; passthrough_targets = [] })

-- What Redis knows: the owners in a user's hash, and a user's connections with their owners.
pub record Directory : Type 0 where
  pub hash_keys : String → List String
  pub connections_of : String → List (Bool × Option String)

unfoldable pub workers_of : Directory → ℕ → Bool → List String → Owned
unfolding resolve_worker_owned_users resolve_live_worker_owned_users
workers_of d most prefer_live_owners user_ids =
    if prefer_live_owners || (ltb 0 most && leb (length user_ids) most)
    then resolve_live_worker_owned_users d.connections_of user_ids
    else resolve_worker_owned_users d.hash_keys user_ids

-- The groups that `publishUserFeedTargets` publishes, one entry for each.
unfoldable pub publish_groups :
    Runtime → Directory → ℕ → ℕ → Bool → List String → List (String × List String)
unfolding split_user_targets workers_of push_shards
publish_groups r d count most prefer_live_owners targets =
    let user_ids = (split_user_targets r targets).user_ids in
    let owned = workers_of d most prefer_live_owners user_ids in
    push_shards r count owned.unmatched owned.by_channel

unfoldable pub items_of : List String → Items
items_of [] = nil
items_of (s ∷ ss) = cons (str s) (items_of ss)

unfoldable pub user_feed_envelope : List String → Value → Value
unfolding items_of
user_feed_envelope user_ids payload = obj (
    field "__wsRoute"
      (obj (field "kind" (str "users") (field "userIds" (arr (items_of user_ids)) end)))
      (field "payload" payload end))
