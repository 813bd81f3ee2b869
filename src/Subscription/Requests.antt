-- ===== src/Subscription/Requests.antt =====
-- backend/src/websocket/subscriptionManager.ts: the five operations that sockets ask for.
use Prim.Native.String.{slice, len}
use cse356_discord.Common.{
  ℕ, String, Bool, not, ◌||◌, none, some, List, [], ◌∷◌, ◌++◌, length, string_eq, nat_eq, ◌==◌,
  if◌then◌else◌, contains, without, insert, keep, members, add_member, remove_member,
}
use text.Mathlib.Text.{starts_with}
use cse356_discord.Subscription.Registry.{unique_from}
use cse356_discord.Subscription.Manager.{
  Client, Hub, Setup, client, set_client, user_of, clear_pending_redis_release, release,
  release_redis_topic_maybe_with_grace, increment_owned_communityfeed_shard,
  decrement_owned_communityfeed_shard, clears_bootstrap_pending, marks_recent_connect,
}

-- Where a request stops: it is through, or it waits for Redis to be ready, or for a SUBSCRIBE.
pub data Pause : Type 0 where
  done awaits_ready awaits_subscribed : Pause

abbrev pub add_subscription : ℕ → String → Hub → Hub
add_subscription ws topic h =
    set_client ws
      (record (client ws h) { subscriptions = insert (client ws h).subscriptions topic }) h

abbrev pub delete_subscription : ℕ → String → Hub → Hub
delete_subscription ws topic h =
    set_client ws
      (record (client ws h) { subscriptions = without (client ws h).subscriptions topic }) h

unfoldable pub subscribe_client : Setup → ℕ → String → Hub → Hub × Pause
subscribe_client s ws topic h =
    if contains (client ws h).subscriptions topic then (h, done) else elim (user_of s topic) [
      | some user_id ↦ (
        add_subscription ws topic
            (record h { local_user_clients = add_member user_id ws h.local_user_clients }),
        awaits_ready,
      )
      | none ↦ (clear_pending_redis_release topic h, awaits_subscribed)
    ]

-- `ready()` failed: the registration is undone, and the error is thrown again.
unfoldable pub subscribe_client_not_ready : ℕ → String → String → Hub → Hub
subscribe_client_not_ready ws user_id topic h =
    delete_subscription ws topic
      (record h { local_user_clients = remove_member user_id ws h.local_user_clients })

abbrev channel_id_of : String → String
channel_id_of topic = slice topic 8 (len topic)

-- What is done for a channel's topic: the explicit unsubscription is forgotten, and the bootstrap's marks
-- are sent, the second unless the bootstrap has sent it.
unfoldable pub channel_side_effects : ℕ → String → Hub → Hub
channel_side_effects ws topic h =
    let c : Client = client ws h in
    if starts_with topic "channel:"
    then record (set_client ws
        (record c { explicit_channel_unsub = without c.explicit_channel_unsub topic }) h) {
          effects = h.effects ++ elim c.user_id [
            | none ↦ []
            | some uid ↦
                clears_bootstrap_pending uid (channel_id_of topic)
                ∷ (if contains c.bootstrap_recent_connect_channel_ids (channel_id_of topic)
                    then []
                    else marks_recent_connect uid (channel_id_of topic) ∷ [])
          ];
        }
    else h

unfoldable pub register : ℕ → String → Hub → Hub
register ws topic h = channel_side_effects ws topic (
    add_subscription ws topic
      (record h { channel_clients = add_member topic ws h.channel_clients }))

-- After the SUBSCRIBE: a socket that closed in the meantime is not registered.
unfoldable pub subscribe_client_resumed : ℕ → String → Hub → Hub
subscribe_client_resumed ws topic h = if (client ws h).is_open then register ws topic h else h

-- `subscribeClients` up to its SUBSCRIBE: topics of users and communities go through `subscribeClient`,
-- the second component is `directTopics`.
unfoldable pub partition_topics : Setup → ℕ → List String → Hub → Hub × List String
partition_topics s ws [] h = (h, [])
partition_topics s ws (t ∷ ts) h =
    if starts_with t "user:" || starts_with t "community:"
    then partition_topics s ws ts (subscribe_client s ws t h).0
    else let rest : Hub × List String =
        partition_topics s ws ts (clear_pending_redis_release t h) in
      (rest.0, t ∷ rest.1)

unfoldable pub subscribe_clients : Setup → ℕ → List String → Hub → Hub × List String
subscribe_clients s ws topics h =
    partition_topics s ws
      (unique_from [] (keep (λ t. not (contains (client ws h).subscriptions t)) topics)) h

-- The loop over `subscribedTopics`.
unfoldable pub register_topics : ℕ → List String → Hub → Hub
register_topics ws [] h = h
register_topics ws (t ∷ ts) h =
    register_topics ws ts (if contains (client ws h).subscriptions t then h else register ws t h)

unfoldable pub subscribe_clients_resumed : ℕ → List String → Hub → Hub
subscribe_clients_resumed ws topics h =
    if (client ws h).is_open then register_topics ws topics h else h

abbrev pub note_explicit_unsub : ℕ → String → Hub → Hub
note_explicit_unsub ws topic h =
    if starts_with topic "channel:"
    then set_client ws
        (record (client ws h) {
          explicit_channel_unsub = insert (client ws h).explicit_channel_unsub topic;
        })
        h
    else h

-- A topic that is no user's own: the last listener's leaving releases the Redis subscription.
abbrev pub unlisted : ℕ → String → Hub → Hub
unlisted ws topic h = note_explicit_unsub ws topic (
    delete_subscription ws topic
      (record h { channel_clients = remove_member topic ws h.channel_clients }))

unfoldable pub stop_listening : Setup → ℕ → String → Hub → Hub
stop_listening s ws topic h =
    if length (members topic (unlisted ws topic h).channel_clients) == 0
    then release_redis_topic_maybe_with_grace s topic (unlisted ws topic h)
    else unlisted ws topic h

unfoldable pub unsubscribe_client : Setup → ℕ → String → Hub → Hub
unsubscribe_client s ws topic h = elim (user_of s topic) [
  | some user_id ↦
      delete_subscription ws topic
        (record h { local_user_clients = remove_member user_id ws h.local_user_clients })
  | none ↦ stop_listening s ws topic h
]

unfoldable pub subscribe_community_client : Setup → String → Hub → Hub × Pause
subscribe_community_client s community_id h =
    if community_id == ""
    then (h, done)
    else (clear_pending_redis_release (s.community_feed_channel community_id) h, awaits_subscribed)

unfoldable pub subscribe_community_client_resumed : Setup → ℕ → String → Hub → Hub
subscribe_community_client_resumed s ws community_id h =
    let c : Client = client ws h in
    if c.is_open
    then (if contains c.community_ids community_id
        then h
        else increment_owned_communityfeed_shard (s.community_feed_channel community_id)
            (record (set_client ws
              (record c { community_ids = insert c.community_ids community_id }) h) {
                community_clients = add_member community_id ws h.community_clients;
              }))
    else h

abbrev pub out_of_community : ℕ → String → Hub → Hub
out_of_community ws community_id h =
    record (set_client ws
      (record (client ws h) { community_ids = without (client ws h).community_ids community_id })
      h) { community_clients = remove_member community_id ws h.community_clients }

-- The shard's count is decremented whether or not the socket was in the community.
unfoldable pub unsubscribe_community_client : Setup → ℕ → String → Hub → Hub
unsubscribe_community_client s ws community_id h =
    let shard : String = s.community_feed_channel community_id in
    let counted : Hub × Bool =
      decrement_owned_communityfeed_shard shard (out_of_community ws community_id h) in
    if community_id == "" then h else if counted.1 then release s shard counted.0 else counted.0
