-- ===== src/Acl.antt =====
-- Who may subscribe to a channel: backend/src/websocket/channelKeyParse.ts, aclCacheStore.ts and
-- channelAcl.ts. A check is cut at its awaits; Redis is a map that its commands change at once.
pub mod Decisions
pub mod Revocation
pub mod Tests
use Prim.Native.Char.{Char, code}
use Prim.Native.String
use Prim.Native.String.{slice, len}
use text.Mathlib.Text.{find?, starts_with}
use cse356_discord.Common.{
  ℕ, ◌+◌, String, Bool, true, false, not, ◌&&◌, ◌||◌, Option, none, some, List, [], ◌∷◌, ltb, leb,
  if◌then◌else◌, ◌==◌, nat_eq, string_eq, contains, keep, length, map_get, map_set, map_delete,
}

-- `[\w-]`
abbrev is_word : Char → Bool
is_word c =
    (leb 48 (code c) && leb (code c) 57)
    || (leb 65 (code c) && leb (code c) 90)
    || (leb 97 (code c) && leb (code c) 122)
    || code c == 95
    || code c == 45

abbrev all_words : String → Bool
all_words String.[] = true
all_words (String.◌∷◌ c s) = is_word c && all_words s

abbrev key_types : List String
key_types = "channel" ∷ "conversation" ∷ "community" ∷ "user" ∷ []

-- `/^(channel|conversation|community|user):([\w-]+)$/`, as the type and the id.
unfoldable pub parse_channel_key : String → Option (String × String)
parse_channel_key channel = elim (find? channel ":") [
  | none ↦ none
  | some colon ↦
      let type = slice channel 0 colon in
      let id = slice channel (colon + 1) (len channel) in
      if contains key_types type && not (id == "") && all_words id then some (type, id) else none
]

-- redisPubsubTopicUtils.ts
unfoldable pub normalize_community_topic : String → Option String
unfolding parse_channel_key
normalize_community_topic value =
    elim (parse_channel_key
      (if starts_with value "community:" then value else String.◌++◌ "community:" value)) [
        | none ↦ none
        | some (type, id) ↦ if type == "community" then some id else none
      ]

pub record Config : Type 0 where
  pub acl_cache_ttl_ms : ℕ
  pub acl_cache_max_entries : ℕ
  pub ws_acl_redis_ttl_secs : ℕ

pub record Decision : Type 0 where
  pub allowed : Bool
  pub expires_at : ℕ

-- `acl_check_in_flight` holds the number of the check; `shared` is what Redis holds.
pub record Store : Type 0 where
  pub acl_cache : List (String × Decision)
  pub acl_check_in_flight : List (String × ℕ)
  pub shared : List (String × String)

unfoldable pub acl_cache_key : String → String → String
acl_cache_key user_id channel = String.◌++◌ user_id (String.◌++◌ ":" channel)

unfoldable pub acl_redis_cache_key : String → String → String
acl_redis_cache_key user_id channel =
    String.◌++◌ "ws:acl:" (String.◌++◌ user_id (String.◌++◌ ":" channel))

unfoldable pub parse_acl_redis_value : Option String → Option Bool
parse_acl_redis_value none = none
parse_acl_redis_value (some raw) =
    if raw == "1" then some true else (if raw == "0" then some false else none)

-- The oldest entry goes if the cache is full.
unfoldable pub make_room : ℕ → List (String × Decision) → List (String × Decision)
make_room most [] = []
make_room most ((oldest, d) ∷ rest) =
    if leb most (length ((oldest, d) ∷ rest))
    then (if oldest == "" then (oldest, d) ∷ rest else map_delete oldest ((oldest, d) ∷ rest))
    else (oldest, d) ∷ rest

unfoldable pub set_acl_decision_local : Config → ℕ → String → String → Bool → Store → Store
unfolding make_room
set_acl_decision_local c now user_id channel allowed s = record s {
  acl_cache =
      map_set (acl_cache_key user_id channel)
        (record { allowed = allowed; expires_at = now + c.acl_cache_ttl_ms })
        (make_room c.acl_cache_max_entries s.acl_cache);
}

unfoldable pub set_acl_decision_shared : Config → String → String → Bool → Store → Store
set_acl_decision_shared c user_id channel allowed s =
    if c.ws_acl_redis_ttl_secs == 0 then s else record s {
      shared =
          map_set (acl_redis_cache_key user_id channel) (if allowed then "1" else "0") s.shared;
    }

unfoldable pub set_acl_decision : Config → ℕ → String → String → Bool → Bool → Store → Store
unfolding set_acl_decision_local set_acl_decision_shared
set_acl_decision c now user_id channel allowed write_shared s =
    let s' = set_acl_decision_local c now user_id channel allowed s in
    if write_shared then set_acl_decision_shared c user_id channel allowed s' else s'

-- What Redis answers; `none` also stands for an error.
unfoldable pub read_acl_shared_cache_entry : Config → String → String → Store → Option Bool
unfolding parse_acl_redis_value
read_acl_shared_cache_entry c user_id channel s =
    if c.ws_acl_redis_ttl_secs == 0
    then none
    else parse_acl_redis_value (map_get (acl_redis_cache_key user_id channel) s.shared)

unfoldable pub warm_ws_acl_cache_from_channel_list :
    Config → ℕ → String → List String → Store → Store
unfolding set_acl_decision
warm_ws_acl_cache_from_channel_list c now user_id [] s = s
warm_ws_acl_cache_from_channel_list c now user_id (channel ∷ channels) s =
    warm_ws_acl_cache_from_channel_list c now user_id channels
      (set_acl_decision c now user_id channel true false s)

-- `del_succeeds` says whether Redis carries out the `del`, whose failure is swallowed.
unfoldable pub invalidate_ws_acl_cache : Config → Bool → String → String → Store → Store
invalidate_ws_acl_cache c del_succeeds user_id channel s =
    let s' = record s {
      acl_cache = map_delete (acl_cache_key user_id channel) s.acl_cache;
      acl_check_in_flight = map_delete (acl_cache_key user_id channel) s.acl_check_in_flight;
    } in
    if (c.ws_acl_redis_ttl_secs == 0) || not del_succeeds
    then s'
    else record s' { shared = map_delete (acl_redis_cache_key user_id channel) s'.shared }

abbrev pub is_live : ℕ → String × Decision → Bool
is_live now (_, d) = ltb now d.expires_at

-- The periodic eviction.
unfoldable pub evict_expired : ℕ → Store → Store
evict_expired now s = record s { acl_cache = keep (is_live now) s.acl_cache }

-- What `isAllowedChannel` gives up to its first await: a cached decision, the promise of another check,
-- or a check of its own, with the number that it is given.
pub data Response : Type 0 where
  cached : Bool → Response
  joins : ℕ → Response
  checks : Response

abbrev pub unexpired : ℕ → Option Decision → Option Bool
unexpired now none = none
unexpired now (some d) = if ltb now d.expires_at then some d.allowed else none

abbrev pub start_check : ℕ → String → Option Bool → Option ℕ → Store → Store × Response
start_check id key (some allowed) o s = (s, Response.cached allowed)
start_check id key none (some pending) s = (s, Response.joins pending)
start_check id key none none s =
    (record s { acl_check_in_flight = map_set key id s.acl_check_in_flight }, Response.checks)

unfoldable pub is_allowed_channel : ℕ → ℕ → String → String → Store → Store × Response
is_allowed_channel now id user_id channel s =
    let key = acl_cache_key user_id channel in
    start_check id key (unexpired now (map_get key s.acl_cache)) (map_get key s.acl_check_in_flight)
      s

abbrev pub done : String → String → Store → Store
done user_id channel s = record s {
  acl_check_in_flight = map_delete (acl_cache_key user_id channel) s.acl_check_in_flight;
}

-- After Redis answered with a decision.
unfoldable pub shared_answered : Config → ℕ → String → String → Bool → Store → Store
unfolding set_acl_decision
shared_answered c now user_id channel allowed s =
    done user_id channel (set_acl_decision c now user_id channel allowed false s)

-- After the database answered; `none` is a query that failed.
unfoldable pub db_answered : Config → ℕ → String → String → Option Bool → Store → Store
unfolding set_acl_decision
db_answered c now user_id channel none s = done user_id channel s
db_answered c now user_id channel (some allowed) s =
    done user_id channel (set_acl_decision c now user_id channel allowed true s)

-- The queries of `isAllowedChannelDb`, each for an id and a user: whether there is a row.
pub record Database : Type 0 where
  pub has_community_member : String → String → Bool
  pub has_conversation_participant : String → String → Bool
  pub has_visible_channel : String → String → Bool

abbrev allowed_for : Database → String → String → String → Bool
allowed_for db user_id type id =
    if type == "user"
    then id == user_id
    else (if type == "community"
        then db.has_community_member id user_id
        else (if type == "conversation"
            then db.has_conversation_participant id user_id
            else db.has_visible_channel id user_id))

abbrev decided : Database → String → Option (String × String) → Bool
decided db user_id none = false
decided db user_id (some (type, id)) = allowed_for db user_id type id

-- Where the queries succeed.
unfoldable pub is_allowed_channel_db : Database → String → String → Bool
unfolding parse_channel_key
is_allowed_channel_db db user_id channel = decided db user_id (parse_channel_key channel)

abbrev pub settled : Config → ℕ → Database → String → String → Option Bool → Store → Store × Bool
settled c now db user_id channel (some allowed) s =
    (shared_answered c now user_id channel allowed s, allowed)
settled c now db user_id channel none s = (
  db_answered c now user_id channel (some (is_allowed_channel_db db user_id channel)) s,
  is_allowed_channel_db db user_id channel,
)

-- The rest of a check that nothing interrupts, with the decision that its promise is resolved with.
unfoldable pub run_check : Config → ℕ → Database → String → String → Store → Store × Bool
unfolding read_acl_shared_cache_entry
run_check c now db user_id channel s =
    settled c now db user_id channel (read_acl_shared_cache_entry c user_id channel s) s
