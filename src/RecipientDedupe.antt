-- ===== src/RecipientDedupe.antt =====
-- backend/src/websocket/fanoutRecipientDedupe.ts: each recipient gets a message event once, whatever
-- fanout paths it comes by. Time is an argument, and the metrics are left out.
pub mod Eviction
pub mod Laws
pub mod Reservation
pub mod Tests
use cse356_discord.Common.{
  ℕ, ◌+◌, ◌-◌, String, Bool, true, false, not, ◌||◌, Option, none, some, List, [], ◌∷◌, ltb,
  if◌then◌else◌, ◌==◌, nat_eq, string_eq, Eq, ◌≡◌, ◌↔◌, refl, arith, length, drop, map_get, map_set,
  map_delete,
}
use cse356_discord.Value.{Value, get_field, or_else, as_string, is_object}
use cse356_discord.Outbound.Payload.{◌<>◌}

-- The three forms of a token's text: `now:counter`, `now:confirmed` and `now:manual`.
pub data Token : Type 0 where
  issued : (now counter : ℕ) → Token
  at_confirmation by_hand : (now : ℕ) → Token

abbrev pub same_token : Token → Token → Bool
same_token (issued a b) (issued x y) = if a == x then b == y else false
same_token (at_confirmation a) (at_confirmation x) = a == x
same_token (by_hand a) (by_hand x) = a == x
same_token _ _ = false

pub data Status : Type 0 where
  reserved confirmed : Status

pub record Seen : Type 0 where
  pub ts : ℕ
  pub status : Status
  pub token : Token

-- The closure's variables. `ttl_ms` and `max_entries` are DEDUPE_TTL_MS and DEDUPE_MAX_ENTRIES.
pub record Dedupe : Type 0 where
  pub ttl_ms : ℕ
  pub max_entries : ℕ
  pub seen : List (String × Seen)
  pub next_token : ℕ

-- The first loop of `prune`: from the oldest place on, up to the first entry that is young enough.
unfoldable pub evict_expired : ℕ → List (String × Seen) → List (String × Seen)
evict_expired cutoff [] = []
evict_expired cutoff ((key, entry) ∷ m) =
    if ltb entry.ts cutoff then evict_expired cutoff m else (key, entry) ∷ m

-- The second loop of `prune`: as many of the first entries as exceed the cap.
abbrev pub evict_excess : ℕ → List (String × Seen) → List (String × Seen)
evict_excess most m = drop (length m - most) m

unfoldable pub prune : ℕ → Dedupe → Dedupe
prune now d = record d { seen = evict_excess d.max_entries (evict_expired (now - d.ttl_ms) d.seen) }

-- What names a recipient of an event; empty texts are refused by every operation.
pub record Recipient : Type 0 where
  pub message_id : String
  pub user_id : String
  pub event_name : String
  pub connection_id : String

abbrev pub is_blank : Recipient → Bool
is_blank r = r.message_id == "" || r.user_id == "" || r.event_name == "" || r.connection_id == ""

unfoldable pub build_key : Recipient → String
build_key r = r.event_name <> ":" <> r.message_id <> ":" <> r.user_id <> ":" <> r.connection_id

abbrev pub found : Option Seen → Bool
found none = false
found (some _) = true

unfoldable pub has_seen_recipient : Recipient → ℕ → Dedupe → Dedupe × Bool
has_seen_recipient r now d =
    if is_blank r
    then (d, false)
    else (prune now d, found (map_get (build_key r) (prune now d).seen))

abbrev pub put : String → Seen → Dedupe → Dedupe
put key entry d = record d { seen = map_set key entry d.seen }

unfoldable pub reserve_recipient : Recipient → ℕ → Dedupe → Dedupe × Option Token
reserve_recipient r now d =
    if is_blank r
    then (d, none)
    else (if found (map_get (build_key r) d.seen) then (d, none) else (
      prune now (
          put (build_key r)
            (record { ts = now; status = reserved; token = issued now (d.next_token + 1) })
            (record d { next_token = d.next_token + 1 })),
      some (issued now (d.next_token + 1)),
    ))

-- `existing && token && existing.token !== token`
abbrev pub is_foreign : Option Seen → Option Token → Bool
is_foreign (some existing) (some token) = not (same_token existing.token token)
is_foreign _ _ = false

-- `existing?.token || token || now:confirmed`
abbrev pub token_kept : Option Seen → Option Token → ℕ → Token
token_kept (some existing) given now = existing.token
token_kept none (some token) now = token
token_kept none none now = at_confirmation now

unfoldable pub confirm_recipient : Recipient → Option Token → ℕ → Dedupe → Dedupe × Bool
confirm_recipient r given now d =
    let existing = map_get (build_key r) d.seen in
    if is_blank r
    then (d, false)
    else (if is_foreign existing given then (d, false) else (
      prune now (
          put (build_key r)
            (record { ts = now; status = confirmed; token = token_kept existing given now }) d),
      true,
    ))

abbrev pub is_confirmed : Status → Bool
is_confirmed reserved = false
is_confirmed confirmed = true

abbrev pub may_release : Option Seen → Option Token → Bool
may_release none given = false
may_release (some existing) given =
    if is_confirmed existing.status then false else not (is_foreign (some existing) given)

unfoldable pub release_recipient : Recipient → Option Token → Dedupe → Dedupe × Bool
release_recipient r given d =
    if is_blank r
    then (d, false)
    else (if may_release (map_get (build_key r) d.seen) given
        then (record d { seen = map_delete (build_key r) d.seen }, true)
        else (d, false))

unfoldable pub mark_recipient : Recipient → ℕ → Dedupe → Dedupe
mark_recipient r now d =
    if is_blank r
    then d
    else prune now
        (put (build_key r) (record { ts = now; status = confirmed; token = by_hand now }) d)

unfoldable pub should_skip_recipient : Recipient → ℕ → Dedupe → Dedupe × Bool
unfolding has_seen_recipient mark_recipient
should_skip_recipient r now d =
    if is_blank r
    then (d, false)
    else (if (has_seen_recipient r now d).1
        then ((has_seen_recipient r now d).0, true)
        else (mark_recipient r now (has_seen_recipient r now d).0, false))

unfoldable pub extract_message_id : Value → Option String
unfolding get_field or_else is_object as_string
extract_message_id parsed =
    let row = get_field "data" parsed in
    if is_object parsed
    then as_string (
        or_else (get_field "id" row)
          (or_else (get_field "messageId" row) (get_field "message_id" row)))
    else none
