-- ===== src/Acl/Decisions.antt =====
-- How large the cache of aclCacheStore.ts grows.
use text.Mathlib.TextEquality.{eq_iff}
use text.Mathlib.TextLemmas.{append-ne-nil_of_right_ne-nil}
use Prim.Native.String
use Prim.Native.String.{len}
use text.Mathlib.TextPositions.{len-append}
use cse356_discord.Common.{
  ◌||◌, not, ℕ, ◌+◌, ◌≤◌, ◌<◌, ◌≡◌, refl, ◌≢◌, ap, String, Bool, true, false, inl, inr, Option,
  none, some, List, [], ◌∷◌, arith, leb, leb→lt, ◌==◌, nat_eq, string_eq, ==_refl, length,
  length-keep-le, length-map_set, length-map_delete-le, All, All-keep, map_set, map_delete, map_get,
  Bool-cases,
}
use cse356_discord.Acl.{
  Config, Decision, Store, acl_cache_key, make_room, set_acl_decision_local,
  set_acl_decision_shared, set_acl_decision, warm_ws_acl_cache_from_channel_list,
  invalidate_ws_acl_cache, evict_expired, is_allowed_channel, shared_answered, db_answered, is_live,
  start_check, unexpired,
}

acl_cache_key-ne-blank : (user_id channel : String) → acl_cache_key user_id channel ≢ ""
unfolding acl_cache_key
acl_cache_key-ne-blank user_id channel =
    append-ne-nil_of_right_ne-nil user_id (λ (h : String.◌++◌ ":" channel ≡ "").
      absurd (omega (arith, ap len h, len-append ":" channel)))

-- Every key is a text, and the entries are within the bound.
pub record IsBounded (most : ℕ) (m : List (String × Decision)) : Type 0 where
  pub named : All (λ (e : String × Decision). e.0 ≢ "") m
  pub within : length m ≤ most

module _ (P : String → Type 0) where
  abbrev Keyed : String × Decision → Type 0
  Keyed e = P e.0

  All-map_delete :
      (k : String) (m : List (String × Decision)) → All Keyed m → All Keyed (map_delete k m)
  All-map_delete k [] h = tt
  All-map_delete k ((j, d) ∷ m) (p, h) = elim (Bool-cases (j == k)) [
    | inl same ↦ rw same (All-map_delete k m h)
    | inr other ↦ rw other (p, All-map_delete k m h)
  ]

  All-map_set :
      (k : String) (d : Decision) (m : List (String × Decision))
      → P k
      → All Keyed m
      → All Keyed (map_set k d m)
  All-map_set k d [] q h = (q, tt)
  All-map_set k d ((j, w) ∷ m) q (p, h) = elim (Bool-cases (j == k)) [
    | inl same ↦ rw same (q, h)
    | inr other ↦ rw other (p, All-map_set k d m q h)
  ]

make_room-length :
    (most : ℕ) (m : List (String × Decision))
    → IsBounded most m
    → 0 < most
    → (All (λ (e : String × Decision). e.0 ≢ "") (make_room most m))
      × (length (make_room most m) < most)
unfolding make_room
make_room-length most [] v p = (tt, p)
make_room-length most ((k, d) ∷ rest) v p = elim (Bool-cases (leb most (length ((k, d) ∷ rest)))) [
  | inr roomy ↦ rw roomy (v.named, leb→lt _ _ roomy)
  | inl full ↦
      let here : k ≢ "" = v.named.0 in
      let named : (k == "") ≡ false = ground (arith, eq_iff k "", here) in
      let itself : (k == k) ≡ true = ==_refl k in
      rw (full, named, itself)
        (
          All-map_delete (λ x. x ≢ "") k rest v.named.1,
          omega (arith, length-map_delete-le k rest, v.within),
        )
]

module _ (c : Config) (now : ℕ) (roomy : 0 < c.acl_cache_max_entries) where
  local-IsBounded :
      (user_id channel : String) (allowed : Bool) (s : Store)
      → IsBounded c.acl_cache_max_entries s.acl_cache
      → IsBounded c.acl_cache_max_entries
          (set_acl_decision_local c now user_id channel allowed s).acl_cache
  unfolding set_acl_decision_local
  local-IsBounded user_id channel allowed s v =
      let key : String = acl_cache_key user_id channel in
      let (named, short) = make_room-length c.acl_cache_max_entries s.acl_cache v roomy in
      let d : Decision = record { allowed = allowed; expires_at = now + c.acl_cache_ttl_ms } in
      record {
        named = All-map_set (λ x. x ≢ "") key d _ (acl_cache_key-ne-blank user_id channel) named;
        within =
            omega (arith, length-map_set key d (make_room c.acl_cache_max_entries s.acl_cache));
      }

  set-IsBounded :
      (user_id channel : String) (allowed write_shared : Bool) (s : Store)
      → IsBounded c.acl_cache_max_entries s.acl_cache
      → IsBounded c.acl_cache_max_entries
          (set_acl_decision c now user_id channel allowed write_shared s).acl_cache
  unfolding set_acl_decision set_acl_decision_shared
  set-IsBounded user_id channel allowed false s v = local-IsBounded user_id channel allowed s v
  set-IsBounded user_id channel allowed true s v =
      elim (Bool-cases (c.ws_acl_redis_ttl_secs == 0)) [
        | inl off ↦ rw off (local-IsBounded user_id channel allowed s v)
        | inr on ↦ rw on (local-IsBounded user_id channel allowed s v)
      ]

  warm-IsBounded :
      (user_id : String) (channels : List String) (s : Store)
      → IsBounded c.acl_cache_max_entries s.acl_cache
      → IsBounded c.acl_cache_max_entries
          (warm_ws_acl_cache_from_channel_list c now user_id channels s).acl_cache
  unfolding warm_ws_acl_cache_from_channel_list
  warm-IsBounded user_id [] s v = v
  warm-IsBounded user_id (channel ∷ channels) s v =
      warm-IsBounded user_id channels (set_acl_decision c now user_id channel true false s)
        (set-IsBounded user_id channel true false s v)

-- What the process does to the store between two waits.
pub data Event : Type 0 where
  asked : ℕ → String → String → Event
  shared_said : String → String → Bool → Event
  database_said : String → String → Option Bool → Event
  warmed : String → List String → Event
  invalidated : (del_succeeds : Bool) → String → String → Event
  cleaned : Event

unfoldable pub happen : Config → ℕ → Event → Store → Store
happen c now (asked id user_id channel) s = (is_allowed_channel now id user_id channel s).0
happen c now (shared_said user_id channel allowed) s =
    shared_answered c now user_id channel allowed s
happen c now (database_said user_id channel answer) s = db_answered c now user_id channel answer s
happen c now (warmed user_id channels) s =
    warm_ws_acl_cache_from_channel_list c now user_id channels s
happen c now (invalidated del_succeeds user_id channel) s =
    invalidate_ws_acl_cache c del_succeeds user_id channel s
happen c now cleaned s = evict_expired now s

unfoldable pub happen_all : Config → List (ℕ × Event) → Store → Store
happen_all c [] s = s
happen_all c ((now, e) ∷ es) s = happen_all c es (happen c now e s)

asked-acl_cache :
    (id : ℕ) (key : String) (a : Option Bool) (o : Option ℕ) (s : Store)
    → (start_check id key a o s).0.acl_cache ≡ s.acl_cache
asked-acl_cache id key (some b) o s = refl
asked-acl_cache id key none (some p) s = refl
asked-acl_cache id key none none s = refl

happen-IsBounded :
    (c : Config) (now : ℕ) (e : Event) (s : Store)
    → 0 < c.acl_cache_max_entries
    → IsBounded c.acl_cache_max_entries s.acl_cache
    → IsBounded c.acl_cache_max_entries (happen c now e s).acl_cache
unfolding happen is_allowed_channel shared_answered db_answered invalidate_ws_acl_cache
    evict_expired
happen-IsBounded c now (asked id user_id channel) s p v =
    rw
      (asked-acl_cache id (acl_cache_key user_id channel)
        (unexpired now (map_get (acl_cache_key user_id channel) s.acl_cache))
        (map_get (acl_cache_key user_id channel) s.acl_check_in_flight) s)
      v
happen-IsBounded c now (shared_said user_id channel allowed) s p v =
    set-IsBounded c now p user_id channel allowed false s v
happen-IsBounded c now (database_said user_id channel none) s p v = v
happen-IsBounded c now (database_said user_id channel (some allowed)) s p v =
    set-IsBounded c now p user_id channel allowed true s v
happen-IsBounded c now (warmed user_id channels) s p v = warm-IsBounded c now p user_id channels s v
happen-IsBounded c now (invalidated del_succeeds user_id channel) s p v =
    let key : String = acl_cache_key user_id channel in
    let kept : IsBounded c.acl_cache_max_entries (map_delete key s.acl_cache) = record {
      named = All-map_delete (λ x. x ≢ "") key s.acl_cache v.named;
      within = omega (arith, length-map_delete-le key s.acl_cache, v.within);
    } in
    elim (Bool-cases ((c.ws_acl_redis_ttl_secs == 0) || not del_succeeds)) [
      | inl off ↦ rw off kept
      | inr on ↦ rw on kept
    ]
happen-IsBounded c now cleaned s p v = record {
  named = All-keep (λ (e : String × Decision). e.0 ≢ "") (is_live now) s.acl_cache v.named;
  within = omega (arith, length-keep-le (is_live now) s.acl_cache, v.within);
}

-- If the cache may have an entry at all, and from a cache within its bound with no empty key, it is so
-- after any requests, answers, warmings, invalidations and evictions.
pub happen_all-IsBounded :
    (c : Config) (es : List (ℕ × Event)) (s : Store)
    → 0 < c.acl_cache_max_entries
    → IsBounded c.acl_cache_max_entries s.acl_cache
    → IsBounded c.acl_cache_max_entries (happen_all c es s).acl_cache
unfolding happen_all
happen_all-IsBounded c [] s p v = v
happen_all-IsBounded c ((now, e) ∷ es) s p v =
    happen_all-IsBounded c es (happen c now e s) p (happen-IsBounded c now e s p v)
