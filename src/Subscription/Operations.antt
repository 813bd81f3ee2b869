-- ===== src/Subscription/Operations.antt =====
-- subscriptionManager.ts: each operation keeps the sockets' sets and the map of listeners in agreement.
use cse356_discord.Common.{
  ℕ, ◌≡◌, refl, String, not, ◌||◌, inl, inr, some, List, [], ◌∷◌, length, string_eq, nat_eq, ◌==◌,
  leb, contains, members, Bool-cases, Option-cases, not,
}
use text.Mathlib.Text.{starts_with}
use cse356_discord.Subscription.Manager.{
  Hub, Setup, client, user_of, clear_pending_redis_release, release,
  release_redis_topic_maybe_with_grace, release_timer_fired, is_grace_eligible_redis_topic,
}
use cse356_discord.Subscription.Requests.{
  subscribe_client, subscribe_client_not_ready, subscribe_client_resumed, partition_topics,
  subscribe_clients, register_topics, subscribe_clients_resumed, unsubscribe_client, unlisted,
  stop_listening,
}
use cse356_discord.Subscription.Mirrored.{
  IsMirrored, same_fields-IsMirrored, register-IsMirrored, unregister-IsMirrored,
  add_own-IsMirrored, delete_own-IsMirrored, note_explicit_unsub-IsMirrored,
}

pub release-IsMirrored :
    (s : Setup) (topic : String) (h : Hub) → IsMirrored s h → IsMirrored s (release s topic h)
unfolding release
release-IsMirrored s topic h = same_fields-IsMirrored s h _ refl refl

pub clear-IsMirrored :
    (s : Setup) (topic : String) (h : Hub)
    → IsMirrored s h
    → IsMirrored s (clear_pending_redis_release topic h)
unfolding clear_pending_redis_release
clear-IsMirrored s topic h = same_fields-IsMirrored s h _ refl refl

release_maybe-IsMirrored :
    (s : Setup) (topic : String) (h : Hub)
    → IsMirrored s h
    → IsMirrored s (release_redis_topic_maybe_with_grace s topic h)
unfolding release_redis_topic_maybe_with_grace
release_maybe-IsMirrored s topic h m =
    elim (Bool-cases (not (is_grace_eligible_redis_topic topic) || leb s.release_grace_ms 0)) [
      | inl now ↦ rw now (release-IsMirrored s topic h m)
      | inr later ↦ rw later (same_fields-IsMirrored s h _ refl refl m)
    ]

pub timer-IsMirrored :
    (s : Setup) (topic : String) (h : Hub)
    → IsMirrored s h
    → IsMirrored s (release_timer_fired s topic h)
unfolding release_timer_fired
timer-IsMirrored s topic h m = elim (Bool-cases (length (members topic h.channel_clients) == 0)) [
  | inl empty ↦ rw empty (release-IsMirrored s topic _ (clear-IsMirrored s topic h m))
  | inr used ↦ rw used (clear-IsMirrored s topic h m)
]

pub subscribe_client-IsMirrored :
    (s : Setup) (ws : ℕ) (topic : String) (h : Hub)
    → IsMirrored s h
    → IsMirrored s (subscribe_client s ws topic h).0
unfolding subscribe_client
subscribe_client-IsMirrored s ws topic h m =
    elim (Bool-cases (contains (client ws h).subscriptions topic)) [
      | inl there ↦ rw there m
      | inr new ↦ rw new (elim (Option-cases (user_of s topic)) [
        | inl none_else ↦ rw none_else (clear-IsMirrored s topic h m)
        | inr (user_id, own) ↦
            rw own (
              add_own-IsMirrored s ws topic user_id _ own
                (same_fields-IsMirrored s h _ refl refl m))
      ])
    ]

pub not_ready-IsMirrored :
    (s : Setup) (ws : ℕ) (user_id topic : String) (h : Hub)
    → user_of s topic ≡ some user_id
    → IsMirrored s h
    → IsMirrored s (subscribe_client_not_ready ws user_id topic h)
unfolding subscribe_client_not_ready
not_ready-IsMirrored s ws user_id topic h own m =
    delete_own-IsMirrored s ws topic user_id _ own (same_fields-IsMirrored s h _ refl refl m)

pub subscribe_client_resumed-IsMirrored :
    (s : Setup) (ws : ℕ) (topic : String) (h : Hub)
    → IsMirrored s h
    → IsMirrored s (subscribe_client_resumed ws topic h)
unfolding subscribe_client_resumed
subscribe_client_resumed-IsMirrored s ws topic h m = elim (Bool-cases (client ws h).is_open) [
  | inl opened ↦ rw opened (register-IsMirrored s ws topic h m)
  | inr closed ↦ rw closed m
]

partition_topics-IsMirrored :
    (s : Setup) (ws : ℕ) (topics : List String) (h : Hub)
    → IsMirrored s h
    → IsMirrored s (partition_topics s ws topics h).0
unfolding partition_topics
partition_topics-IsMirrored s ws [] h m = m
partition_topics-IsMirrored s ws (t ∷ ts) h m =
    elim (Bool-cases (starts_with t "user:" || starts_with t "community:")) [
      | inl alone ↦
          rw alone (partition_topics-IsMirrored s ws ts _ (subscribe_client-IsMirrored s ws t h m))
      | inr direct ↦ rw direct (partition_topics-IsMirrored s ws ts _ (clear-IsMirrored s t h m))
    ]

pub subscribe_clients-IsMirrored :
    (s : Setup) (ws : ℕ) (topics : List String) (h : Hub)
    → IsMirrored s h
    → IsMirrored s (subscribe_clients s ws topics h).0
unfolding subscribe_clients
subscribe_clients-IsMirrored s ws topics h = partition_topics-IsMirrored s ws _ h

register_topics-IsMirrored :
    (s : Setup) (ws : ℕ) (topics : List String) (h : Hub)
    → IsMirrored s h
    → IsMirrored s (register_topics ws topics h)
unfolding register_topics
register_topics-IsMirrored s ws [] h m = m
register_topics-IsMirrored s ws (t ∷ ts) h m =
    elim (Bool-cases (contains (client ws h).subscriptions t)) [
      | inl there ↦ rw there (register_topics-IsMirrored s ws ts h m)
      | inr new ↦ rw new (register_topics-IsMirrored s ws ts _ (register-IsMirrored s ws t h m))
    ]

pub subscribe_clients_resumed-IsMirrored :
    (s : Setup) (ws : ℕ) (topics : List String) (h : Hub)
    → IsMirrored s h
    → IsMirrored s (subscribe_clients_resumed ws topics h)
unfolding subscribe_clients_resumed
subscribe_clients_resumed-IsMirrored s ws topics h m = elim (Bool-cases (client ws h).is_open) [
  | inl opened ↦ rw opened (register_topics-IsMirrored s ws topics h m)
  | inr closed ↦ rw closed m
]

stop_listening-IsMirrored :
    (s : Setup) (ws : ℕ) (topic : String) (h : Hub)
    → IsMirrored s h
    → IsMirrored s (stop_listening s ws topic h)
unfolding stop_listening
stop_listening-IsMirrored s ws topic h m =
    let agree : IsMirrored s (unlisted ws topic h) =
      note_explicit_unsub-IsMirrored s ws topic _ (unregister-IsMirrored s ws topic h m) in
    elim (Bool-cases (length (members topic (unlisted ws topic h).channel_clients) == 0)) [
      | inl empty ↦ rw empty (release_maybe-IsMirrored s topic (unlisted ws topic h) agree)
      | inr used ↦ rw used agree
    ]

pub unsubscribe_client-IsMirrored :
    (s : Setup) (ws : ℕ) (topic : String) (h : Hub)
    → IsMirrored s h
    → IsMirrored s (unsubscribe_client s ws topic h)
unfolding unsubscribe_client
unsubscribe_client-IsMirrored s ws topic h m = elim (Option-cases (user_of s topic)) [
  | inr (user_id, own) ↦
      rw (unsubscribe_client, own)
        (delete_own-IsMirrored s ws topic user_id _ own (same_fields-IsMirrored s h _ refl refl m))
  | inl none_else ↦ rw (unsubscribe_client, none_else) (stop_listening-IsMirrored s ws topic h m)
]
