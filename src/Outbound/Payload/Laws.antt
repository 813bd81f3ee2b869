-- ===== src/Outbound/Payload/Laws.antt =====
-- What outboundPayload.ts promises of the keys that a socket remembers.
use cse356_discord.Common.{
  ℕ, ◌+◌, ◌≤◌, ◌<◌, ◌≡◌, refl, ap, String, true, some, List, [], ◌∷◌, arith, ◌≢◌, ltb, ltb→lt, ◌==◌,
  string_eq, length, map_get, map_set, map_get-map_set_self, length-map_set, All, Bool-cases, inl,
  inr,
}
use text.Mathlib.TextEquality.{eq_iff}
use cse356_discord.Outbound.Payload.{
  evict_oldest, mark_socket_message_delivered, was_socket_message_recently_delivered,
  ws_socket_message_dedupe_max,
}

evict_oldest-small : (most : ℕ) (m : List (String × ℕ)) → length m ≤ most → evict_oldest most m ≡ m
unfolding evict_oldest
evict_oldest-small most [] h = refl
evict_oldest-small most (x ∷ m) h = ground arith

evict_oldest-one :
    (most : ℕ) (j : String) (w : ℕ) (tail next : List (String × ℕ))
    → next ≡ (j, w) ∷ tail
    → j ≢ ""
    → most < length next
    → length tail ≤ most
    → evict_oldest most next ≡ tail
unfolding evict_oldest
evict_oldest-one most j w tail next e named over short =
    rw e (ground (arith, ap length e, eq_iff j "", evict_oldest-small most tail short))

-- If setting a key made the map longer than `n`, what follows the oldest entry holds the key.
map_get-tail :
    (k j : String) (v w n : ℕ) (m : List (String × ℕ))
    → length ((j, w) ∷ m) ≤ n
    → n < length (map_set k v ((j, w) ∷ m))
    → (tail : List (String × ℕ)) × (map_set k v ((j, w) ∷ m) ≡ (j, w) ∷ tail)
      × (map_get k tail ≡ some v)
map_get-tail k j v w n m h g = elim (Bool-cases (j == k)) [
  | inl same ↦ absurd (ground arith)
  | inr other ↦ (map_set k v m, rw other refl, map_get-map_set_self k v m)
]

remembered :
    (most : ℕ) (key : String) (now : ℕ) (recent : List (String × ℕ))
    → 0 < most
    → length recent ≤ most
    → All (λ (e : String × ℕ). e.0 ≢ "") recent
    → (map_get key (evict_oldest most (map_set key now recent)) ≡ some now)
      × (length (evict_oldest most (map_set key now recent)) ≤ most)
remembered most key now [] p h a =
    rw (evict_oldest-small most ((key, now) ∷ []) (omega arith))
      (map_get-map_set_self key now [], omega arith)
remembered most key now ((j, w) ∷ m) p h (named, a) =
    let next : List (String × ℕ) = map_set key now ((j, w) ∷ m) in
    elim (Bool-cases (ltb most (length next))) [
      | inr fits ↦
          let small : evict_oldest most next ≡ next = evict_oldest-small most next (ground arith) in
          rw small (map_get-map_set_self key now ((j, w) ∷ m), ground arith)
      | inl over ↦
          let (tail, grown, found) = map_get-tail key j now w most m h (ground arith) in
          let bound : length next ≤ length ((j, w) ∷ m) + 1 = length-map_set key now ((j, w) ∷ m) in
          let short : length tail ≤ most = omega (arith, ap length grown) in
          let evicted : evict_oldest most next ≡ tail =
            evict_oldest-one most j w tail next grown named (ltb→lt _ _ over) short in
          rw evicted (found, short)
    ]

-- If a socket remembers at most 512 keys, none of them empty, then after a frame was written its key is
-- found, and the socket still remembers at most 512 keys.
pub mark_socket_message_delivered-remembers :
    (recent : List (String × ℕ)) (key : String) (now : ℕ)
    → length recent ≤ ws_socket_message_dedupe_max
    → All (λ (e : String × ℕ). e.0 ≢ "") recent
    → (was_socket_message_recently_delivered
          (mark_socket_message_delivered recent (some key) now)
          (some key)
        ≡ true)
      × (length (mark_socket_message_delivered recent (some key) now)
          ≤ ws_socket_message_dedupe_max)
unfolding mark_socket_message_delivered was_socket_message_recently_delivered
mark_socket_message_delivered-remembers recent key now h a =
    let (found, short) = remembered ws_socket_message_dedupe_max key now recent (omega arith) h a in
    (rw found refl, short)
