-- ===== src/Subscription/Flight.antt =====
-- subscriptionRegistry.ts: one SUBSCRIBE per topic at a time, and what its answer leaves.
use cse356_discord.Common.{
  ℕ, ◌+◌, ◌≡◌, refl, ap, ◌∙◌, String, Bool, true, false, inl, inr, none, some, List, [], ◌∷◌, arith,
  map_get, map_set, map_delete, string_eq, nat_eq, if◌then◌else◌, ◌||◌, contains-insert, contains,
  insert, Bool-cases, Option-cases, map_get-map_set_self, map_get-map_delete,
}
use cse356_discord.Subscription.Registry.{
  Registry, ready, unavailable, joins, issues, ensure_redis_channel_subscribed, all_subscribed,
  none_in_flight, op_settled, is_in_flight,
}

abbrev in_flight_with : String → Registry → Registry
in_flight_with topic g = record g {
  redis_subscribe_in_flight = map_set topic g.next_op g.redis_subscribe_in_flight;
  next_op = g.next_op + 1;
}

ensure_issues :
    (topic : String) (g : Registry)
    → contains g.redis_subscribed topic ≡ false
    → map_get topic g.redis_subscribe_in_flight ≡ none
    → ensure_redis_channel_subscribed true topic g ≡ (in_flight_with topic g, issues [] g.next_op)
unfolding ensure_redis_channel_subscribed
ensure_issues topic g absent idle = rw (absent, idle) refl

ensure_in_flight :
    (operational : Bool) (topic : String) (op : ℕ) (g : Registry)
    → contains g.redis_subscribed topic ≡ false
    → map_get topic g.redis_subscribe_in_flight ≡ some op
    → ensure_redis_channel_subscribed operational topic g ≡ (g, joins (op ∷ []))
unfolding ensure_redis_channel_subscribed
ensure_in_flight operational topic op g absent flying = rw (absent, flying) refl

ensure_unavailable :
    (topic : String) (g : Registry)
    → contains g.redis_subscribed topic ≡ false
    → map_get topic g.redis_subscribe_in_flight ≡ none
    → ensure_redis_channel_subscribed false topic g ≡ (g, unavailable)
unfolding ensure_redis_channel_subscribed
ensure_unavailable topic g absent idle = rw (absent, idle) refl

ensure_ready :
    (operational : Bool) (topic : String) (g : Registry)
    → contains g.redis_subscribed topic ≡ true
    → ensure_redis_channel_subscribed operational topic g ≡ (g, ready)
unfolding ensure_redis_channel_subscribed
ensure_ready operational topic g there = rw there refl

-- While a topic's SUBSCRIBE is in flight, a second request for the topic issues none but joins the
-- first, whether or not the Redis client is operational by then.
pub ensure_redis_channel_subscribed-joins :
    (operational later : Bool) (topic : String) (op : ℕ) (g : Registry)
    → (ensure_redis_channel_subscribed operational topic g).1 ≡ issues [] op
    → ensure_redis_channel_subscribed later topic
        (ensure_redis_channel_subscribed operational topic g).0
      ≡ ((ensure_redis_channel_subscribed operational topic g).0, joins (op ∷ []))
ensure_redis_channel_subscribed-joins operational later topic op g issued =
    elim (Bool-cases (contains g.redis_subscribed topic)) [
      | inl there ↦ absurd (ground (arith, rw (ensure_ready operational topic g there) at issued))
      | inr absent ↦ elim (Option-cases (map_get topic g.redis_subscribe_in_flight)) [
        | inr (first, flying) ↦ absurd (
            ground (arith, rw (ensure_in_flight operational topic first g absent flying) at issued))
        | inl idle ↦ elim (Bool-cases operational) [
          | inr down ↦
              absurd (ground (arith, rw (down, ensure_unavailable topic g absent idle) at issued))
          | inl up ↦
              let same : g.next_op ≡ op =
                ground (arith, rw (up, ensure_issues topic g absent idle) at issued) in
              rw (up, ensure_issues topic g absent idle)
                (ensure_in_flight later topic op (in_flight_with topic g) absent
                  (map_get-map_set_self topic g.next_op g.redis_subscribe_in_flight ∙ ap some same))
        ]
      ]
    ]

contains-all_subscribed :
    (ts xs : List String) (t : String)
    → contains (all_subscribed ts xs) t ≡ (contains ts t || contains xs t)
unfolding all_subscribed
contains-all_subscribed [] xs t = refl
contains-all_subscribed (u ∷ ts) xs t =
    ground (arith, contains-all_subscribed ts (insert xs u) t, contains-insert xs u t)

map_get-none_in_flight :
    (ts : List String) (m : List (String × ℕ)) (t : String)
    → map_get t (none_in_flight ts m) ≡ (if contains ts t then none else map_get t m)
unfolding none_in_flight
map_get-none_in_flight [] m t = refl
map_get-none_in_flight (u ∷ ts) m t = ground (
  arith,
  map_get-none_in_flight ts (map_delete u m) t,
  map_get-map_delete u t m,
  string_eq.beq_iff u t,
  string_eq.beq_iff t u,
)

-- Once the SUBSCRIBE of a batch is answered none of its topics is in flight. On success the process is
-- subscribed to them besides what it was subscribed to before; on failure to nothing more.
pub op_settled-topics :
    (topics : List String) (g : Registry) (t : String)
    → contains topics t ≡ true
    → (is_in_flight (op_settled true topics g) t ≡ false)
      × (contains (op_settled true topics g).redis_subscribed t ≡ true)
      × (is_in_flight (op_settled false topics g) t ≡ false)
      × (contains (op_settled false topics g).redis_subscribed t ≡ contains g.redis_subscribed t)
unfolding op_settled
op_settled-topics topics g t h =
    let landed : map_get t (none_in_flight topics g.redis_subscribe_in_flight) ≡ none =
      map_get-none_in_flight topics g.redis_subscribe_in_flight t ∙ rw h refl in
    (
      rw (is_in_flight, landed) refl,
      contains-all_subscribed topics g.redis_subscribed t ∙ rw h refl,
      rw (is_in_flight, landed) refl,
      refl,
    )
