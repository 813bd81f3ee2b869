-- ===== src/Subscription/Community.antt =====
-- subscriptionManager.ts: the shard counts of communities, and what a closed socket leaves behind.
use cse356_discord.Common.{
  ℕ, ◌+◌, ◌-◌, ◌≡◌, refl, ◌∙◌, String, true, false, inl, inr, none, [], arith, map_get, string_eq,
  nat_eq, ◌==◌, ==_refl, leb, contains-without, members-remove_member, contains, members,
  Bool-cases, map_get-map_set_self, map_get-map_delete_self,
}
use cse356_discord.Subscription.Registry.{release_redis_channel_subscription}
use cse356_discord.Subscription.Manager.{
  Hub, Setup, client, set_client, user_of, or_zero, clear_pending_redis_release, release,
  increment_owned_communityfeed_shard, decrement_owned_communityfeed_shard,
}
use cse356_discord.Subscription.Requests.{
  subscribe_client, subscribe_client_resumed, subscribe_community_client_resumed,
  unsubscribe_community_client,
}

abbrev pub shard_count : Setup → String → Hub → ℕ
shard_count s community_id h =
    or_zero (map_get (s.community_feed_channel community_id) h.shard_ref_counts)

joined-count :
    (s : Setup) (ws : ℕ) (community_id : String) (h : Hub)
    → (client ws h).is_open ≡ true
    → contains (client ws h).community_ids community_id ≡ false
    → shard_count s community_id (subscribe_community_client_resumed s ws community_id h)
      ≡ shard_count s community_id h + 1
unfolding subscribe_community_client_resumed increment_owned_communityfeed_shard
joined-count s ws community_id h opened new =
    rw (opened, new)
      (rw (map_get-map_set_self (s.community_feed_channel community_id) _ h.shard_ref_counts) refl)

left-count :
    (s : Setup) (ws : ℕ) (community_id : String) (h : Hub)
    → (community_id == "") ≡ false
    → shard_count s community_id (unsubscribe_community_client s ws community_id h)
      ≡ shard_count s community_id h - 1
unfolding unsubscribe_community_client decrement_owned_communityfeed_shard release
left-count s ws community_id h named = elim (Bool-cases (leb (shard_count s community_id h) 1)) [
  | inl last ↦
      rw (named, last)
        (rw (map_get-map_delete_self (s.community_feed_channel community_id) h.shard_ref_counts)
          (ground arith))
  | inr more ↦
      rw (named, more)
        (rw
          (map_get-map_set_self (s.community_feed_channel community_id)
            (shard_count s community_id h - 1) h.shard_ref_counts)
          refl)
]

-- A socket that is open and not in a community, joins it and leaves it again restores the count of
-- the community's shard.
pub unsubscribe-subscribe_community :
    (s : Setup) (ws : ℕ) (community_id : String) (h : Hub)
    → (community_id == "") ≡ false
    → (client ws h).is_open ≡ true
    → contains (client ws h).community_ids community_id ≡ false
    → shard_count s community_id (
        unsubscribe_community_client s ws community_id
          (subscribe_community_client_resumed s ws community_id h))
      ≡ shard_count s community_id h
unsubscribe-subscribe_community s ws community_id h named opened new = omega (
  arith,
  left-count s ws community_id (subscribe_community_client_resumed s ws community_id h) named,
  joined-count s ws community_id h opened new,
)

-- The count is also taken down for a socket that is not in the community: if it was 1 and Redis is
-- operational, the process unsubscribes from the shard although another socket is in the community
-- and still is listed in it.
pub unsubscribe_community_client-stranger :
    (s : Setup) (ws listener : ℕ) (community_id : String) (h : Hub)
    → (community_id == "") ≡ false
    → s.operational ≡ true
    → contains (client ws h).community_ids community_id ≡ false
    → (listener == ws) ≡ false
    → shard_count s community_id h ≡ 1
    → contains (members community_id h.community_clients) listener ≡ true
    → (contains
          (unsubscribe_community_client s ws community_id h).registry.redis_subscribed
          (s.community_feed_channel community_id)
        ≡ false)
      × (contains
            (members community_id
              (unsubscribe_community_client s ws community_id h).community_clients)
            listener
          ≡ true)
unfolding unsubscribe_community_client decrement_owned_communityfeed_shard release
    release_redis_channel_subscription
unsubscribe_community_client-stranger s ws listener community_id h named up never other one inside =
    let shard : String = s.community_feed_channel community_id in
    let last : leb (shard_count s community_id h) 1 ≡ true = ground arith in
    rw (named, last)
      (
        elim (Bool-cases (contains h.registry.redis_subscribed shard)) [
          | inl there ↦
              rw (there, up)
                (contains-without h.registry.redis_subscribed shard shard ∙ rw (==_refl shard) refl)
          | inr absent ↦ rw absent absent
        ],
        rw
            (
              members-remove_member community_id community_id ws h.community_clients,
              ==_refl community_id,
            )
            (contains-without (members community_id h.community_clients) ws listener
              ∙ rw (other, inside) refl),
      )

-- A socket that closes while it waits for a subscribed topic without listeners cancels the pending
-- release of the topic and leaves it subscribed to, with no listener and no timer that would
-- release it.
pub closed_socket-keeps_topic :
    (s : Setup) (ws : ℕ) (topic : String) (h : Hub)
    → contains (client ws h).subscriptions topic ≡ false
    → user_of s topic ≡ none
    → contains h.registry.redis_subscribed topic ≡ true
    → members topic h.channel_clients ≡ []
    → let waiting : Hub = (subscribe_client s ws topic h).0 in
      let resumed : Hub =
        subscribe_client_resumed ws topic
          (set_client ws (record (client ws waiting) { is_open = false }) waiting) in
      (contains resumed.registry.redis_subscribed topic ≡ true)
      × (members topic resumed.channel_clients ≡ [])
      × (contains resumed.pending_redis_release_timers topic ≡ false)
unfolding subscribe_client subscribe_client_resumed clear_pending_redis_release
closed_socket-keeps_topic s ws topic h new none_else subscribed nobody =
    rw (new, none_else)
      (rw (map_get-map_set_self ws (record (client ws h) { is_open = false }) h.clients) (
        subscribed,
        nobody,
        contains-without h.pending_redis_release_timers topic topic ∙ rw (==_refl topic) refl,
      ))
