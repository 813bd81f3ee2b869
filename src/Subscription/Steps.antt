-- ===== src/Subscription/Steps.antt =====
-- subscriptionManager.ts over every interleaving of the requests of one process.
use cse356_discord.Common.{
  ℕ, ◌≡◌, refl, String, false, inl, inr, some, List, map_get, string_eq, nat_eq, ◌==◌, leb,
  contains, Bool-cases,
}
use cse356_discord.Subscription.Registry.{Registry}
use cse356_discord.Subscription.Manager.{
  Hub, Setup, client, set_client, user_of, increment_owned_communityfeed_shard, release_timer_fired,
  decrement_owned_communityfeed_shard, or_zero,
}
use cse356_discord.Subscription.Requests.{
  subscribe_client, subscribe_client_not_ready, subscribe_client_resumed, subscribe_clients,
  subscribe_clients_resumed, unsubscribe_client, subscribe_community_client,
  subscribe_community_client_resumed, unsubscribe_community_client, out_of_community,
}
use cse356_discord.Subscription.Mirrored.{
  IsMirrored, HasSameListeners-IsMirrored, same_fields-IsMirrored, set_client-HasSameListeners,
}
use cse356_discord.Subscription.Operations.{
  release-IsMirrored, clear-IsMirrored, timer-IsMirrored, subscribe_client-IsMirrored,
  not_ready-IsMirrored, subscribe_client_resumed-IsMirrored, subscribe_clients-IsMirrored,
  subscribe_clients_resumed-IsMirrored, unsubscribe_client-IsMirrored,
}

abbrev pub with_registry : Registry → Hub → Hub
with_registry g h = record h { registry = g }

-- What can happen between two waits: a request starts, goes on after a wait, or ends; a timer fires; a
-- SUBSCRIBE is issued or answered; a socket closes.
pub data Step (s : Setup) (h : Hub) : Hub → Type 0 where
  subscribes : (ws : ℕ) (topic : String) → Step s h (subscribe_client s ws topic h).0
  is_not_ready :
      (ws : ℕ) (user_id topic : String)
      → user_of s topic ≡ some user_id
      → Step s h (subscribe_client_not_ready ws user_id topic h)
  resumes : (ws : ℕ) (topic : String) → Step s h (subscribe_client_resumed ws topic h)
  subscribes_many : (ws : ℕ) (topics : List String) → Step s h (subscribe_clients s ws topics h).0
  resumes_many : (ws : ℕ) (topics : List String) → Step s h (subscribe_clients_resumed ws topics h)
  unsubscribes : (ws : ℕ) (topic : String) → Step s h (unsubscribe_client s ws topic h)
  joins_community :
      (community_id : String) → Step s h (subscribe_community_client s community_id h).0
  resumes_community :
      (ws : ℕ) (community_id : String)
      → Step s h (subscribe_community_client_resumed s ws community_id h)
  leaves_community :
      (ws : ℕ) (community_id : String) → Step s h (unsubscribe_community_client s ws community_id h)
  timer_fires : (topic : String) → Step s h (release_timer_fired s topic h)
  registers : (g : Registry) → Step s h (with_registry g h)
  closes : (ws : ℕ) → Step s h (set_client ws (record (client ws h) { is_open = false }) h)

pub data Reach (s : Setup) (h : Hub) : Hub → Type 0 where
  start : Reach s h h
  next : (h' h'' : Hub) → Reach s h h' → Step s h' h'' → Reach s h h''

joins_community-IsMirrored :
    (s : Setup) (community_id : String) (h : Hub)
    → IsMirrored s h
    → IsMirrored s (subscribe_community_client s community_id h).0
unfolding subscribe_community_client
joins_community-IsMirrored s community_id h m = elim (Bool-cases (community_id == "")) [
  | inl blank ↦ rw blank m
  | inr named ↦ rw named (clear-IsMirrored s _ h m)
]

increment-IsMirrored :
    (s : Setup) (shard : String) (h : Hub)
    → IsMirrored s h
    → IsMirrored s (increment_owned_communityfeed_shard shard h)
unfolding increment_owned_communityfeed_shard
increment-IsMirrored s shard h m = same_fields-IsMirrored s h _ refl refl m

resumes_community-IsMirrored :
    (s : Setup) (ws : ℕ) (community_id : String) (h : Hub)
    → IsMirrored s h
    → IsMirrored s (subscribe_community_client_resumed s ws community_id h)
unfolding subscribe_community_client_resumed
resumes_community-IsMirrored s ws community_id h m = elim (Bool-cases (client ws h).is_open) [
  | inr closed ↦ rw closed m
  | inl opened ↦ elim (Bool-cases (contains (client ws h).community_ids community_id)) [
    | inl there ↦ rw (opened, there) m
    | inr new ↦
        rw (opened, new)
          (increment-IsMirrored s _ _ (
            same_fields-IsMirrored s _ _ refl refl
              (HasSameListeners-IsMirrored s h _ (set_client-HasSameListeners ws _ h refl) m)))
  ]
]

decrement-IsMirrored :
    (s : Setup) (shard : String) (h : Hub)
    → IsMirrored s h
    → IsMirrored s (decrement_owned_communityfeed_shard shard h).0
unfolding decrement_owned_communityfeed_shard
decrement-IsMirrored s shard h m =
    elim (Bool-cases (leb (or_zero (map_get shard h.shard_ref_counts)) 1)) [
      | inl last ↦ rw last (same_fields-IsMirrored s h _ refl refl m)
      | inr more ↦ rw more (same_fields-IsMirrored s h _ refl refl m)
    ]

leaves_community-IsMirrored :
    (s : Setup) (ws : ℕ) (community_id : String) (h : Hub)
    → IsMirrored s h
    → IsMirrored s (unsubscribe_community_client s ws community_id h)
unfolding unsubscribe_community_client
leaves_community-IsMirrored s ws community_id h m =
    let left : IsMirrored s (out_of_community ws community_id h) =
      same_fields-IsMirrored s _ _ refl refl
        (HasSameListeners-IsMirrored s h _ (set_client-HasSameListeners ws _ h refl) m) in
    let shard : String = s.community_feed_channel community_id in
    let counted : IsMirrored s
        (decrement_owned_communityfeed_shard shard (out_of_community ws community_id h)).0 =
      decrement-IsMirrored s shard _ left in
    elim (Bool-cases (community_id == "")) [
      | inl blank ↦ rw blank m
      | inr named ↦
          elim (Bool-cases
            (decrement_owned_communityfeed_shard shard (out_of_community ws community_id h)).1) [
              | inl last ↦ rw (named, last) (release-IsMirrored s shard _ counted)
              | inr more ↦ rw (named, more) counted
            ]
    ]

-- At each step the two views of who listens to what stay the same view.
pub Step-IsMirrored : (s : Setup) (h h' : Hub) → Step s h h' → IsMirrored s h → IsMirrored s h'
Step-IsMirrored s h h' (subscribes ws topic) m = subscribe_client-IsMirrored s ws topic h m
Step-IsMirrored s h h' (is_not_ready ws user_id topic own) m =
    not_ready-IsMirrored s ws user_id topic h own m
Step-IsMirrored s h h' (resumes ws topic) m = subscribe_client_resumed-IsMirrored s ws topic h m
Step-IsMirrored s h h' (subscribes_many ws topics) m = subscribe_clients-IsMirrored s ws topics h m
Step-IsMirrored s h h' (resumes_many ws topics) m =
    subscribe_clients_resumed-IsMirrored s ws topics h m
Step-IsMirrored s h h' (unsubscribes ws topic) m = unsubscribe_client-IsMirrored s ws topic h m
Step-IsMirrored s h h' (joins_community c) m = joins_community-IsMirrored s c h m
Step-IsMirrored s h h' (resumes_community ws c) m = resumes_community-IsMirrored s ws c h m
Step-IsMirrored s h h' (leaves_community ws c) m = leaves_community-IsMirrored s ws c h m
Step-IsMirrored s h h' (timer_fires topic) m = timer-IsMirrored s topic h m
Step-IsMirrored s h h' (registers g) m = same_fields-IsMirrored s h _ refl refl m
Step-IsMirrored s h h' (closes ws) m =
    HasSameListeners-IsMirrored s h _ (set_client-HasSameListeners ws _ h refl) m

-- From a state where a socket's set of subscriptions and the map of listeners agree on every topic that
-- is no user's own, they agree in every state that the requests of the process lead to, in whatever
-- order these start, wait, go on and end.
pub Reach-IsMirrored : (s : Setup) (h h' : Hub) → Reach s h h' → IsMirrored s h → IsMirrored s h'
Reach-IsMirrored s h h' start m = m
Reach-IsMirrored s h h' (next mid _ before step) m =
    Step-IsMirrored s mid h' step (Reach-IsMirrored s h mid before m)
