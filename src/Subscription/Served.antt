-- ===== src/Subscription/Served.antt =====
-- subscriptionManager.ts: a topic that some socket listens to is subscribed to at Redis.
use cse356_discord.Common.{
  ℕ, ◌≡◌, refl, ap, sym, ◌∙◌, String, true, false, not, ◌||◌, inl, inr, List, [], ◌∷◌, arith,
  length, string_eq, nat_eq, ◌==◌, leb, contains-without, members-add_member, members-remove_member,
  contains, members, Bool-cases, Option-cases, add_member, remove_member, not,
}
use text.Mathlib.Text.{starts_with}
use cse356_discord.Subscription.Registry.{release_redis_channel_subscription}
use cse356_discord.Subscription.Manager.{
  Hub, Setup, client, user_of, clear_pending_redis_release, release,
  release_redis_topic_maybe_with_grace, release_timer_fired, is_grace_eligible_redis_topic,
}
use cse356_discord.Subscription.Requests.{
  subscribe_client, register, subscribe_client_resumed, channel_side_effects, unlisted,
  stop_listening, unsubscribe_client,
}

pub record IsServed (h : Hub) : Type 0 where
  pub serves :
      (t : String) (ws : ℕ)
      → contains (members t h.channel_clients) ws ≡ true
      → contains h.registry.redis_subscribed t ≡ true

same_fields-IsServed :
    (h h' : Hub)
    → h'.channel_clients ≡ h.channel_clients
    → h'.registry ≡ h.registry
    → IsServed h
    → IsServed h'
same_fields-IsServed h h' c g v = record {
  serves = λ t ws here. rw g (v.serves t ws (rw c at here));
}

-- Releasing a topic leaves the other topics alone.
pub release-other :
    (s : Setup) (topic t : String) (h : Hub)
    → (t == topic) ≡ false
    → contains (release s topic h).registry.redis_subscribed t
      ≡ contains h.registry.redis_subscribed t
unfolding release release_redis_channel_subscription
release-other s topic t h other = elim (Bool-cases (contains h.registry.redis_subscribed topic)) [
  | inr absent ↦ rw absent refl
  | inl there ↦ elim (Bool-cases s.operational) [
    | inl up ↦ rw (there, up) (contains-without h.registry.redis_subscribed topic t ∙ rw other refl)
    | inr down ↦ rw (there, down) refl
  ]
]

release-channel_clients :
    (s : Setup) (topic : String) (h : Hub) → (release s topic h).channel_clients ≡ h.channel_clients
unfolding release
release-channel_clients s topic h = refl

nobody : (xs : List ℕ) (ws : ℕ) → (length xs == 0) ≡ true → contains xs ws ≡ true → ⊥
nobody [] ws e here = cc
nobody (x ∷ xs) ws e here = absurd (ground arith)

-- A topic without listeners may be released.
release_unused-IsServed :
    (s : Setup) (topic : String) (h : Hub)
    → (length (members topic h.channel_clients) == 0) ≡ true
    → IsServed h
    → IsServed (release s topic h)
release_unused-IsServed s topic h empty v = record {
  serves = λ t ws here.
      let listens : contains (members t h.channel_clients) ws ≡ true =
        rw (release-channel_clients s topic h) at here in
      elim (Bool-cases (t == topic)) [
        | inl same ↦ absurd (
            nobody (members topic h.channel_clients) ws empty
              (rw ((string_eq.beq_iff t topic).0 same) at listens))
        | inr other ↦ release-other s topic t h other ∙ v.serves t ws listens
      ];
}

clear-IsServed :
    (topic : String) (h : Hub) → IsServed h → IsServed (clear_pending_redis_release topic h)
unfolding clear_pending_redis_release
clear-IsServed topic h v = same_fields-IsServed h _ refl refl v

release_maybe-IsServed :
    (s : Setup) (topic : String) (h : Hub)
    → (length (members topic h.channel_clients) == 0) ≡ true
    → IsServed h
    → IsServed (release_redis_topic_maybe_with_grace s topic h)
unfolding release_redis_topic_maybe_with_grace
release_maybe-IsServed s topic h empty v =
    elim (Bool-cases (not (is_grace_eligible_redis_topic topic) || leb s.release_grace_ms 0)) [
      | inl now ↦ rw now (release_unused-IsServed s topic h empty v)
      | inr later ↦ rw later (same_fields-IsServed h _ refl refl v)
    ]

remove-IsServed :
    (topic : String) (ws : ℕ) (h : Hub)
    → IsServed h
    → IsServed (record h { channel_clients = remove_member topic ws h.channel_clients })
remove-IsServed topic ws h v = record {
  serves = λ t w here. v.serves t w (
      ground (
        arith,
        here,
        ap (λ xs. contains xs w) (members-remove_member topic t ws h.channel_clients),
        contains-without (members t h.channel_clients) ws w,
      ));
}

unlisted-IsServed :
    (ws : ℕ) (topic : String) (h : Hub) → IsServed h → IsServed (unlisted ws topic h)
unlisted-IsServed ws topic h v = elim (Bool-cases (starts_with topic "channel:")) [
  | inl a_channel ↦ rw a_channel (same_fields-IsServed _ _ refl refl (remove-IsServed topic ws h v))
  | inr no_channel ↦
      rw no_channel (same_fields-IsServed _ _ refl refl (remove-IsServed topic ws h v))
]

-- The last listener's leaving releases a topic, at once or after the grace time, and no other.
pub unsubscribe_client-IsServed :
    (s : Setup) (ws : ℕ) (topic : String) (h : Hub)
    → IsServed h
    → IsServed (unsubscribe_client s ws topic h)
unfolding unsubscribe_client stop_listening
unsubscribe_client-IsServed s ws topic h v = elim (Option-cases (user_of s topic)) [
  | inr (user_id, own) ↦ rw (unsubscribe_client, own) (same_fields-IsServed h _ refl refl v)
  | inl none_else ↦
      rw (unsubscribe_client, none_else)
        (elim (Bool-cases (length (members topic (unlisted ws topic h).channel_clients) == 0)) [
          | inl empty ↦
              rw empty (release_maybe-IsServed s topic _ empty (unlisted-IsServed ws topic h v))
          | inr used ↦ rw used (unlisted-IsServed ws topic h v)
        ])
]

-- A listener that came back during the grace time keeps the topic.
pub timer-IsServed :
    (s : Setup) (topic : String) (h : Hub) → IsServed h → IsServed (release_timer_fired s topic h)
unfolding release_timer_fired clear_pending_redis_release
timer-IsServed s topic h v = elim (Bool-cases (length (members topic h.channel_clients) == 0)) [
  | inl empty ↦ rw empty (release_unused-IsServed s topic _ empty (clear-IsServed topic h v))
  | inr used ↦ rw used (clear-IsServed topic h v)
]

pub subscribe_client-IsServed :
    (s : Setup) (ws : ℕ) (topic : String) (h : Hub)
    → IsServed h
    → IsServed (subscribe_client s ws topic h).0
unfolding subscribe_client
subscribe_client-IsServed s ws topic h v =
    elim (Bool-cases (contains (client ws h).subscriptions topic)) [
      | inl there ↦ rw there v
      | inr new ↦ rw new (elim (Option-cases (user_of s topic)) [
        | inl none_else ↦ rw none_else (clear-IsServed topic h v)
        | inr (user_id, own) ↦ rw own (same_fields-IsServed h _ refl refl v)
      ])
    ]

add-IsServed :
    (topic : String) (ws : ℕ) (h : Hub)
    → contains h.registry.redis_subscribed topic ≡ true
    → IsServed h
    → IsServed (record h { channel_clients = add_member topic ws h.channel_clients })
add-IsServed topic ws h subscribed v = record {
  serves = λ t w here. elim (Bool-cases (topic == t)) [
    | inl same ↦ rw (sym ((string_eq.beq_iff topic t).0 same)) subscribed
    | inr other ↦ v.serves t w (rw (members-add_member topic t ws h.channel_clients, other) at here)
  ];
}

register-IsServed :
    (ws : ℕ) (topic : String) (h : Hub)
    → contains h.registry.redis_subscribed topic ≡ true
    → IsServed h
    → IsServed (register ws topic h)
unfolding register channel_side_effects
register-IsServed ws topic h subscribed v = elim (Bool-cases (starts_with topic "channel:")) [
  | inl a_channel ↦
      rw a_channel (same_fields-IsServed _ _ refl refl (add-IsServed topic ws h subscribed v))
  | inr no_channel ↦
      rw no_channel (same_fields-IsServed _ _ refl refl (add-IsServed topic ws h subscribed v))
]

-- If every topic that a socket listens to is subscribed to at Redis, it still is after a
-- subscription went on whose topic Redis has.
pub subscribe_client_resumed-IsServed :
    (ws : ℕ) (topic : String) (h : Hub)
    → contains h.registry.redis_subscribed topic ≡ true
    → IsServed h
    → IsServed (subscribe_client_resumed ws topic h)
unfolding subscribe_client_resumed
subscribe_client_resumed-IsServed ws topic h subscribed v =
    elim (Bool-cases (client ws h).is_open) [
      | inl opened ↦ rw opened (register-IsServed ws topic h subscribed v)
      | inr closed ↦ rw closed v
    ]

-- If every topic that a socket listens to is subscribed to at Redis, it still is after a socket
-- started to subscribe or unsubscribed, and after the timer of the grace time fired.
pub requests-IsServed :
    (s : Setup) (ws : ℕ) (topic : String) (h : Hub)
    → IsServed h
    → IsServed (subscribe_client s ws topic h).0
      × IsServed (unsubscribe_client s ws topic h)
      × IsServed (release_timer_fired s topic h)
requests-IsServed s ws topic h v = (
  subscribe_client-IsServed s ws topic h v,
  unsubscribe_client-IsServed s ws topic h v,
  timer-IsServed s topic h v,
)
