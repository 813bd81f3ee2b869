-- ===== src/Subscription/Mirrored.antt =====
-- subscriptionManager.ts: a socket's own set of subscriptions and the map of sockets by topic agree.
use cse356_discord.Common.{
  ℕ, ◌≡◌, refl, ap, sym, ◌∙◌, String, Bool, true, false, inl, inr, none, some, List, arith,
  string_eq, nat_eq, ◌==◌, if◌then◌else◌, contains, without, insert, members, add_member,
  remove_member, map_get-map_set, Bool-cases, contains-insert, contains-without, members-add_member,
  members-remove_member,
}
use text.Mathlib.Text.{starts_with}
use cse356_discord.Subscription.Manager.{Client, Hub, Setup, client, set_client, user_of}
use cse356_discord.Subscription.Requests.{
  add_subscription, delete_subscription, channel_side_effects, register, note_explicit_unsub,
}

-- For a topic that is no user's own: the socket has it in its set just when the map lists the socket.
pub record IsMirrored (s : Setup) (h : Hub) : Type 0 where
  pub agrees :
      (ws : ℕ) (t : String)
      → user_of s t ≡ none
      → contains (client ws h).subscriptions t ≡ contains (members t h.channel_clients) ws

pub client-set_client :
    (ws w : ℕ) (c : Client) (h : Hub)
    → client w (set_client ws c h) ≡ (if ws == w then c else client w h)
client-set_client ws w c h = rw (map_get-map_set ws w c h.clients) (ground arith)

-- Nothing that the property speaks of differs.
pub record HasSameListeners (h h' : Hub) : Type 0 where
  pub subscriptions : (w : ℕ) → (client w h').subscriptions ≡ (client w h).subscriptions
  pub listeners : h'.channel_clients ≡ h.channel_clients

pub HasSameListeners-IsMirrored :
    (s : Setup) (h h' : Hub) → HasSameListeners h h' → IsMirrored s h → IsMirrored s h'
HasSameListeners-IsMirrored s h h' same m = record {
  agrees = λ ws t none_else. rw (same.subscriptions ws, same.listeners) (m.agrees ws t none_else);
}

-- A hub with the same sockets and listeners.
pub same_fields-IsMirrored :
    (s : Setup) (h h' : Hub)
    → h'.clients ≡ h.clients
    → h'.channel_clients ≡ h.channel_clients
    → IsMirrored s h
    → IsMirrored s h'
same_fields-IsMirrored s h h' c l =
    HasSameListeners-IsMirrored s h h' (record { subscriptions = λ w. rw c refl; listeners = l })

-- A socket's record may change in its other fields.
pub set_client-HasSameListeners :
    (ws : ℕ) (c : Client) (h : Hub)
    → c.subscriptions ≡ (client ws h).subscriptions
    → HasSameListeners h (set_client ws c h)
set_client-HasSameListeners ws c h e = record {
  subscriptions = λ w. ap (λ x. x.subscriptions) (client-set_client ws w c h) ∙ ground (arith, e);
  listeners = refl;
}

channel_side_effects-IsMirrored :
    (s : Setup) (ws : ℕ) (topic : String) (h : Hub)
    → IsMirrored s h
    → IsMirrored s (channel_side_effects ws topic h)
unfolding channel_side_effects
channel_side_effects-IsMirrored s ws topic h m = elim (Bool-cases (starts_with topic "channel:")) [
  | inl a_channel ↦ rw a_channel (
      same_fields-IsMirrored s _ _ refl refl
        (HasSameListeners-IsMirrored s h _ (set_client-HasSameListeners ws _ h refl) m))
  | inr no_channel ↦ rw no_channel m
]

pub note_explicit_unsub-IsMirrored :
    (s : Setup) (ws : ℕ) (topic : String) (h : Hub)
    → IsMirrored s h
    → IsMirrored s (note_explicit_unsub ws topic h)
note_explicit_unsub-IsMirrored s ws topic h m = elim (Bool-cases (starts_with topic "channel:")) [
  | inl a_channel ↦
      rw a_channel (HasSameListeners-IsMirrored s h _ (set_client-HasSameListeners ws _ h refl) m)
  | inr no_channel ↦ rw no_channel m
]

subscriptions-add_subscription :
    (ws w : ℕ) (topic t : String) (h : Hub)
    → contains (client w (add_subscription ws topic h)).subscriptions t ≡ (
        if ws == w
        then if t == topic then true else contains (client w h).subscriptions t
        else contains (client w h).subscriptions t)
subscriptions-add_subscription ws w topic t h =
    rw
      (client-set_client ws w
        (record (client ws h) { subscriptions = insert (client ws h).subscriptions topic }) h)
      (elim (Bool-cases (ws == w)) [
        | inl same ↦ rw same (
            contains-insert (client ws h).subscriptions topic t
            ∙ rw ((nat_eq.beq_iff ws w).0 same) refl)
        | inr other ↦ rw other refl
      ])

subscriptions-delete_subscription :
    (ws w : ℕ) (topic t : String) (h : Hub)
    → contains (client w (delete_subscription ws topic h)).subscriptions t ≡ (
        if ws == w
        then if t == topic then false else contains (client w h).subscriptions t
        else contains (client w h).subscriptions t)
subscriptions-delete_subscription ws w topic t h =
    rw
      (client-set_client ws w
        (record (client ws h) { subscriptions = without (client ws h).subscriptions topic }) h)
      (elim (Bool-cases (ws == w)) [
        | inl same ↦ rw same (
            contains-without (client ws h).subscriptions topic t
            ∙ rw ((nat_eq.beq_iff ws w).0 same) refl)
        | inr other ↦ rw other refl
      ])

-- Two topics that differ in whether they are a user's own differ.
other_topic :
    (s : Setup) (t topic : String) (user_id : String)
    → user_of s topic ≡ some user_id
    → user_of s t ≡ none
    → (t == topic) ≡ false
other_topic s t topic user_id own none_else = elim (Bool-cases (t == topic)) [
  | inl same ↦
      let e : t ≡ topic = (string_eq.beq_iff t topic).0 same in
      absurd (ground (arith, sym none_else ∙ ap (user_of s) e ∙ own))
  | inr other ↦ other
]

pub add_own-IsMirrored :
    (s : Setup) (ws : ℕ) (topic user_id : String) (h : Hub)
    → user_of s topic ≡ some user_id
    → IsMirrored s h
    → IsMirrored s (add_subscription ws topic h)
add_own-IsMirrored s ws topic user_id h own m = record {
  agrees = λ w t none_else.
      subscriptions-add_subscription ws w topic t h
      ∙ ground (arith, other_topic s t topic user_id own none_else, m.agrees w t none_else);
}

pub delete_own-IsMirrored :
    (s : Setup) (ws : ℕ) (topic user_id : String) (h : Hub)
    → user_of s topic ≡ some user_id
    → IsMirrored s h
    → IsMirrored s (delete_subscription ws topic h)
delete_own-IsMirrored s ws topic user_id h own m = record {
  agrees = λ w t none_else.
      subscriptions-delete_subscription ws w topic t h
      ∙ ground (arith, other_topic s t topic user_id own none_else, m.agrees w t none_else);
}

-- Adding on both sides, and taking away on both.
add_both :
    (xs : List ℕ) (ws w : ℕ) (topic t : String) (b : Bool)
    → b ≡ contains xs w
    → (if ws == w then if t == topic then true else b else b)
      ≡ contains (if topic == t then insert xs ws else xs) w
add_both xs ws w topic t b e = elim (Bool-cases (topic == t)) [
  | inl same ↦ rw same (
      rw (contains-insert xs ws w) (
        ground (
          arith,
          e,
          nat_eq.beq_iff ws w,
          nat_eq.beq_iff w ws,
          string_eq.beq_iff topic t,
          string_eq.beq_iff t topic,
        )))
  | inr other ↦ rw other (ground (arith, e, string_eq.beq_iff topic t, string_eq.beq_iff t topic))
]

delete_both :
    (xs : List ℕ) (ws w : ℕ) (topic t : String) (b : Bool)
    → b ≡ contains xs w
    → (if ws == w then if t == topic then false else b else b)
      ≡ contains (if topic == t then without xs ws else xs) w
delete_both xs ws w topic t b e = elim (Bool-cases (topic == t)) [
  | inl same ↦ rw same (
      rw (contains-without xs ws w) (
        ground (
          arith,
          e,
          nat_eq.beq_iff ws w,
          nat_eq.beq_iff w ws,
          string_eq.beq_iff topic t,
          string_eq.beq_iff t topic,
        )))
  | inr other ↦ rw other (ground (arith, e, string_eq.beq_iff topic t, string_eq.beq_iff t topic))
]

pub register-IsMirrored :
    (s : Setup) (ws : ℕ) (topic : String) (h : Hub)
    → IsMirrored s h
    → IsMirrored s (register ws topic h)
unfolding register
register-IsMirrored s ws topic h m = channel_side_effects-IsMirrored s ws topic _ (record {
  agrees = λ w t none_else.
      subscriptions-add_subscription ws w topic t
        (record h { channel_clients = add_member topic ws h.channel_clients })
      ∙ rw (members-add_member topic t ws h.channel_clients)
          (add_both (members t h.channel_clients) ws w topic t _ (m.agrees w t none_else));
})

pub unregister-IsMirrored :
    (s : Setup) (ws : ℕ) (topic : String) (h : Hub)
    → IsMirrored s h
    → IsMirrored s (
        delete_subscription ws topic
          (record h { channel_clients = remove_member topic ws h.channel_clients }))
unregister-IsMirrored s ws topic h m = record {
  agrees = λ w t none_else.
      subscriptions-delete_subscription ws w topic t
        (record h { channel_clients = remove_member topic ws h.channel_clients })
      ∙ rw (members-remove_member topic t ws h.channel_clients)
          (delete_both (members t h.channel_clients) ws w topic t _ (m.agrees w t none_else));
}
