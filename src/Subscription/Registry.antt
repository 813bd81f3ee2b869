-- ===== src/Subscription/Registry.antt =====
-- backend/src/websocket/subscriptionRegistry.ts: the Redis SUBSCRIBE commands of this process. A
-- promise in flight is its number; each function runs up to its `await`, and `op_settled` is what
-- happens when Redis answers. Whether the Redis client is operational is an argument.
use cse356_discord.Common.{
  ℕ, ◌+◌, String, Bool, true, false, none, some, List, [], ◌∷◌, map_get, map_set, map_delete,
  string_eq, nat_eq, ◌==◌, if◌then◌else◌, contains, without, insert,
}

pub record Registry : Type 0 where
  pub redis_subscribed : List String
  pub redis_subscribe_in_flight : List (String × ℕ)
  pub next_op : ℕ

-- What a caller waits for: nothing, promises in flight, or also a command that it issued.
pub data Wait : Type 0 where
  ready unavailable : Wait
  joins : (ops : List ℕ) → Wait
  issues : (ops : List ℕ) (op : ℕ) → Wait

unfoldable pub ensure_redis_channel_subscribed : Bool → String → Registry → Registry × Wait
ensure_redis_channel_subscribed operational topic g =
    if contains g.redis_subscribed topic
    then (g, ready)
    else elim (map_get topic g.redis_subscribe_in_flight) [
      | some op ↦ (g, joins (op ∷ []))
      | none ↦
          if operational
          then (
            record g {
              redis_subscribe_in_flight = map_set topic g.next_op g.redis_subscribe_in_flight;
              next_op = g.next_op + 1;
            },
            issues [] g.next_op,
          )
          else (g, unavailable)
    ]

-- `Array.from(new Set(topics.filter(Boolean)))`
unfoldable pub unique_from : List String → List String → List String
unique_from seen [] = seen
unique_from seen (t ∷ ts) = if t == "" then unique_from seen ts else unique_from (insert seen t) ts

abbrev pub is_in_flight : Registry → String → Bool
is_in_flight g topic = elim (map_get topic g.redis_subscribe_in_flight) [
  | none ↦ false
  | some op ↦ true
]

-- The loop's `toSubscribe` and `waitForExisting`.
unfoldable pub to_subscribe : Registry → List String → List String
to_subscribe g [] = []
to_subscribe g (t ∷ ts) =
    if contains g.redis_subscribed t
    then to_subscribe g ts
    else if is_in_flight g t
    then to_subscribe g ts
    else t ∷ to_subscribe g ts

unfoldable pub wait_for_existing : Registry → List String → List ℕ
wait_for_existing g [] = []
wait_for_existing g (t ∷ ts) =
    if contains g.redis_subscribed t
    then wait_for_existing g ts
    else elim (map_get t g.redis_subscribe_in_flight) [
      | none ↦ wait_for_existing g ts
      | some op ↦ op ∷ wait_for_existing g ts
    ]

unfoldable pub all_in_flight : ℕ → List String → List (String × ℕ) → List (String × ℕ)
all_in_flight op [] m = m
all_in_flight op (t ∷ ts) m = all_in_flight op ts (map_set t op m)

unfoldable pub ensure_redis_channels_subscribed : Bool → List String → Registry → Registry × Wait
ensure_redis_channels_subscribed operational topics g =
    let unique : List String = unique_from [] topics in
    elim (to_subscribe g unique) [
      | [] ↦ elim (wait_for_existing g unique) [
        | [] ↦ (g, ready)
        | ◌∷◌ op ops ↦ (g, joins (op ∷ ops))
      ]
      | ◌∷◌ t ts ↦
          if operational
          then (
            record g {
              redis_subscribe_in_flight =
                  all_in_flight g.next_op (t ∷ ts) g.redis_subscribe_in_flight;
              next_op = g.next_op + 1;
            },
            issues (wait_for_existing g unique) g.next_op,
          )
          else (g, unavailable)
    ]

unfoldable pub all_subscribed : List String → List String → List String
all_subscribed [] subscribed = subscribed
all_subscribed (t ∷ ts) subscribed = all_subscribed ts (insert subscribed t)

unfoldable pub none_in_flight : List String → List (String × ℕ) → List (String × ℕ)
none_in_flight [] m = m
none_in_flight (t ∷ ts) m = none_in_flight ts (map_delete t m)

-- The command for `topics` is answered: `then` on success, and `finally` either way.
unfoldable pub op_settled : Bool → List String → Registry → Registry
op_settled succeeded topics g = record g {
  redis_subscribed =
      if succeeded then all_subscribed topics g.redis_subscribed else g.redis_subscribed;
  redis_subscribe_in_flight = none_in_flight topics g.redis_subscribe_in_flight;
}

unfoldable pub release_redis_channel_subscription : Bool → String → Registry → Registry
release_redis_channel_subscription operational topic g =
    if contains g.redis_subscribed topic
    then (if operational
        then record g { redis_subscribed = without g.redis_subscribed topic }
        else g)
    else g
