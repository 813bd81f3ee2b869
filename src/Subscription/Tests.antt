-- ===== src/Subscription/Tests.antt =====
-- A small process with two sockets.
use cse356_discord.Common.{
  ◌≡◌, refl, String, true, none, some, List, [], ◌∷◌, arith, string_eq, nat_eq,
}
use cse356_discord.Subscription.Registry.{Registry}
use cse356_discord.Subscription.Manager.{Client, Hub, Setup, release_timer_fired}
use cse356_discord.Subscription.Requests.{
  subscribe_client, subscribe_client_resumed, unsubscribe_client,
  subscribe_community_client_resumed, unsubscribe_community_client,
}
use cse356_discord.Subscription.Mirrored.{IsMirrored}
use cse356_discord.Subscription.Steps.{
  start, next, subscribes, resumes, unsubscribes, Reach-IsMirrored,
}
use cse356_discord.Subscription.Served.{IsServed, requests-IsServed}
use cse356_discord.Subscription.Community.{shard_count, unsubscribe-subscribe_community}

abbrev setup : Setup
setup = record {
  user_id_from_target = λ t. none;
  community_feed_channel = λ c. "feed:0";
  release_grace_ms = 50;
  operational = true;
}

abbrev socket : List String → Client
socket communities = record {
  is_open = true;
  user_id = some "u";
  subscriptions = [];
  community_ids = communities;
  explicit_channel_unsub = [];
  bootstrap_recent_connect_channel_ids = [];
}

abbrev registry : Registry
registry = record {
  redis_subscribed = "channel:a" ∷ "feed:0" ∷ [];
  redis_subscribe_in_flight = [];
  next_op = 0;
}

abbrev hub : Hub
hub = record {
  clients = (1, socket []) ∷ (2, socket ("x" ∷ [])) ∷ [];
  local_user_clients = [];
  channel_clients = [];
  community_clients = ("x", 2 ∷ []) ∷ [];
  pending_redis_release_timers = "channel:a" ∷ [];
  shard_ref_counts = ("feed:0", 1) ∷ [];
  registry = registry;
  effects = [];
}

abbrev empty_hub : Hub
empty_hub = record hub { clients = []; community_clients = [] }

empty_hub-IsMirrored : IsMirrored setup empty_hub
empty_hub-IsMirrored = record { agrees = λ ws t none_else. refl }

abbrev waiting : Hub
waiting = (subscribe_client setup 1 "channel:a" empty_hub).0

Reach-IsMirrored_example :
    IsMirrored setup
      (unsubscribe_client setup 1 "channel:a" (subscribe_client_resumed 1 "channel:a" waiting))
Reach-IsMirrored_example =
    Reach-IsMirrored setup empty_hub _
      (next _ _ (next _ _ (next _ _ start (subscribes 1 "channel:a")) (resumes 1 "channel:a"))
        (unsubscribes 1 "channel:a"))
      empty_hub-IsMirrored

hub-IsServed : IsServed hub
hub-IsServed = record { serves = λ t ws here. absurd (ground (arith, here)) }

requests-IsServed_example :
    IsServed (subscribe_client setup 1 "channel:a" hub).0
    × IsServed (unsubscribe_client setup 1 "channel:a" hub)
    × IsServed (release_timer_fired setup "channel:a" hub)
requests-IsServed_example = requests-IsServed setup 1 "channel:a" hub hub-IsServed

unsubscribe-subscribe_community_example :
    shard_count setup "y" (
      unsubscribe_community_client setup 1 "y" (subscribe_community_client_resumed setup 1 "y" hub))
    ≡ shard_count setup "y" hub
unsubscribe-subscribe_community_example =
    unsubscribe-subscribe_community setup 1 "y" hub refl refl refl
