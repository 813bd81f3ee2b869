-- ===== src/AccessCache/Tests.antt =====
-- A channel's decision, cached at version 3 in a store that is an association list.
use cse356_discord.Common.{
  ℕ, ◌≡◌, refl, String, Bool, true, Option, none, some, List, [], ◌∷◌, if◌then◌else◌, ◌==◌,
  string_eq, nat_eq, map_get, map_set, map_delete, map_get-map_set, map_get-map_delete,
}
use cse356_discord.Value.{
  Value, num, str, obj, Fields, field, end, get_field, lookup_field, set_field, is_truthy,
}
use cse356_discord.AccessCache.{
  Redis, Runtime, scope_of, is_message_target_cache_payload, to_access_version, scope_version_key,
  read_access_version, versioned, read_scoped_versioned_json_cache,
  write_scoped_versioned_json_cache, channel_access_version_key,
}
use cse356_discord.AccessCache.Freshness.{
  IsRedis, IsCurrent, IsWritable, written, after_bump, read-IsCurrent, read-write, read-bump,
}

abbrev Entries : Type 0
Entries = List (String × String)

abbrev redis : Redis Entries
redis = record { get = map_get; set = map_set; del = map_delete }

redis-IsRedis : IsRedis redis
redis-IsRedis = record {
  get_set = λ k j v s. map_get-map_set k j v s;
  get_del = λ k j s. map_get-map_delete k j s;
}

abbrev scope : Value
scope = scope_of "channel" "c1"

abbrev decision : Fields
decision = field "data" (str "m1") end

abbrev entry : Value
entry = obj (
    field "data" (str "m1") (field "scope" (scope_of "channel" "c1") (field "version" (num 3) end)))

abbrev read_number : Value → Option ℕ
read_number (num n) = some n
read_number (str s) = if s == "3" then some 3 else (if s == "4" then some 4 else none)
read_number _ = none

abbrev runtime : Runtime
runtime = record {
  parse = λ s. some entry;
  stringify = λ v. "entry";
  number = read_number;
  is_finite = λ v. true;
}

abbrev store : Entries
store = ("channel:c1:user_fanout_targets_v", "3") ∷ []

abbrev is_payload : Value → Bool
is_payload = is_message_target_cache_payload runtime

writable : IsWritable redis redis-IsRedis runtime is_payload "target:m1" scope decision store
unfolding is_message_target_cache_payload read_access_version scope_version_key
    channel_access_version_key to_access_version versioned is_truthy set_field get_field
    lookup_field
writable = record { parses = refl; has_text = refl; numeric = refl; accepted = refl; apart = refl }

read-write_example :
    read_scoped_versioned_json_cache redis runtime "target:m1" is_payload
      (write_scoped_versioned_json_cache redis runtime "target:m1" scope decision store)
    ≡ (
      write_scoped_versioned_json_cache redis runtime "target:m1" scope decision store,
      some (written redis redis-IsRedis runtime is_payload "target:m1" scope decision store),
    )
read-write_example =
    read-write redis redis-IsRedis runtime is_payload "target:m1" scope decision store writable

read-bump_example :
    ((read_scoped_versioned_json_cache redis runtime "target:m1" is_payload
        (after_bump redis redis-IsRedis runtime is_payload "target:m1" scope decision store "4")).1
      ≡ none)
    × (redis.get "target:m1"
          (read_scoped_versioned_json_cache redis runtime "target:m1" is_payload (
            after_bump redis redis-IsRedis runtime is_payload "target:m1" scope decision store
              "4")).0
        ≡ none)
unfolding read_access_version scope_version_key channel_access_version_key to_access_version
    is_truthy get_field lookup_field
read-bump_example =
    read-bump redis redis-IsRedis runtime is_payload "target:m1" scope decision store "4" writable
      refl

read-IsCurrent_example :
    ((("target:m1", "entry") ∷ store) ≡ (("target:m1", "entry") ∷ store))
    × IsCurrent redis runtime is_payload (("target:m1", "entry") ∷ store) entry
unfolding read_scoped_versioned_json_cache read_access_version scope_version_key
    channel_access_version_key to_access_version is_truthy get_field lookup_field
    is_message_target_cache_payload
read-IsCurrent_example =
    read-IsCurrent redis runtime is_payload "target:m1" (("target:m1", "entry") ∷ store)
      (("target:m1", "entry") ∷ store) entry refl
