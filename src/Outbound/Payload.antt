-- ===== src/Outbound/Payload.antt =====
-- backend/src/websocket/outboundPayload.ts: dedupe keys, suppression and the frame text.
-- Identifiers inside a payload are strings, as the source's type annotations say.
pub mod Laws
pub mod Commands
use Prim.Native.Char.{Char, code}
use Prim.Native.String
use Prim.Native.String.{count}
use text.Mathlib.Text.{starts_with}
use cse356_discord.Common.{
  ℕ, suc, ◌+◌, ◌≤◌, ◌≡◌, refl, String, Bool, true, false, not, ◌&&◌, ◌||◌, Option, none, some, List,
  [], ◌∷◌, arith, ltb, if◌then◌else◌, ◌==◌, nat_eq, string_eq, contains, length, map_get, map_set,
}
use cse356_discord.Value.{
  Value, undefined, str, obj, get_field, or_else, nullish, as_string, is_object, is_truthy,
}
use cse356_discord.Realtime.Aliases.{
  message_dedupe_family, is_message_like_fanout_event_name, is_reliable_realtime_event_name,
}

infixr 65 ◌<>◌
abbrev pub ◌<>◌ : String → String → String
s <> t = String.◌++◌ s t

-- WS_SOCKET_MESSAGE_DEDUPE_MAX
abbrev pub ws_socket_message_dedupe_max : ℕ
ws_socket_message_dedupe_max = 512

-- `typeof ev === "string" && isMessageLikeFanoutEventName(ev)`
abbrev message_like : Value → Bool
message_like (str ev) = is_message_like_fanout_event_name ev
message_like _ = false

abbrev unsubscribed_from : List String → Value → Bool
unsubscribed_from explicit_unsub (str ch_id) =
    if ch_id == "" then false else contains explicit_unsub ("channel:" <> ch_id)
unsubscribed_from explicit_unsub _ = false

-- `shouldSkipSocketForLogicalChannel`; `explicit_unsub` is the socket's `_explicitChannelUnsub`.
unfoldable pub should_skip_socket_for_logical_channel : List String → String → Value → Bool
unfolding get_field or_else
should_skip_socket_for_logical_channel explicit_unsub logical_channel parsed =
    if not (starts_with logical_channel "user:" || starts_with logical_channel "community:")
      || not (is_object parsed)
    then false
    else (if not (message_like (get_field "event" parsed))
        then false
        else unsubscribed_from explicit_unsub (
            or_else (get_field "channel_id" (get_field "data" parsed))
              (get_field "channelId" (get_field "data" parsed))))

abbrev message_key : Option String → Value → Option String
message_key (some family) (str message_id) =
    if message_id == "" then none else some (family <> ":" <> message_id)
message_key _ _ = none

abbrev family_of : Value → Option String
family_of (str event_name) = message_dedupe_family event_name
family_of _ = none

unfoldable pub message_id_of : Value → Value
unfolding get_field or_else
message_id_of parsed = or_else (get_field "id" (get_field "data" parsed)) (
    or_else (get_field "messageId" (get_field "data" parsed))
      (get_field "message_id" (get_field "data" parsed)))

unfoldable pub socket_message_dedupe_key : Value → Option String
unfolding message_id_of is_object
socket_message_dedupe_key parsed =
    if is_object parsed
    then message_key (family_of (get_field "event" parsed)) (message_id_of parsed)
    else none

abbrev is_present : Option ℕ → Bool
is_present none = false
is_present (some _) = true

-- `wasSocketMessageRecentlyDelivered`, over the socket's `_recentMessageKeys`.
unfoldable pub was_socket_message_recently_delivered : List (String × ℕ) → Option String → Bool
was_socket_message_recently_delivered recent none = false
was_socket_message_recently_delivered recent (some key) = is_present (map_get key recent)

-- The `while` loop of `markSocketMessageDelivered`: the oldest key is at the head.
unfoldable pub evict_oldest : ℕ → List (String × ℕ) → List (String × ℕ)
evict_oldest most [] = []
evict_oldest most ((oldest, at) ∷ rest) =
    if ltb most (length ((oldest, at) ∷ rest))
    then (if oldest == "" then (oldest, at) ∷ rest else evict_oldest most rest)
    else (oldest, at) ∷ rest

unfoldable pub mark_socket_message_delivered :
    List (String × ℕ) → Option String → ℕ → List (String × ℕ)
unfolding evict_oldest
mark_socket_message_delivered recent none now = recent
mark_socket_message_delivered recent (some key) now =
    evict_oldest ws_socket_message_dedupe_max (map_set key now recent)

unfoldable pub is_reliable_realtime_event : Option String → Bool
is_reliable_realtime_event none = false
is_reliable_realtime_event (some event_name) = is_reliable_realtime_event_name event_name

pub record Prepared : Type 0 where
  pub dedupe_key : Option String
  pub outbound : String
  pub payload_event_name : Option String
  pub skip_drop_for_backpressure : Bool

-- A text without its last character, and that character.
unfoldable pub split_last : String → Option (String × Char)
split_last String.[] = none
split_last (String.◌∷◌ c s) = elim (split_last s) [
  | none ↦ some (String.[], c)
  | some (front, last) ↦ some (String.◌∷◌ c front, last)
]

-- `Date.parse` (`none` for NaN), `JSON.stringify` of a string, and of `{ ...parsed, channel }`.
pub record Runtime : Type 0 where
  pub parse_date : String → Option ℕ
  pub stringify : String → String
  pub stringify_with_channel : Value → String → String

-- `{` … `}` with the channel spliced in before the closing brace.
unfoldable pub splice_channel : Runtime → Value → String → String → String
unfolding split_last
splice_channel r parsed raw_message logical_channel = elim (split_last raw_message) [
  | none ↦ r.stringify_with_channel parsed logical_channel
  | some (front, last) ↦
      if ltb 1 (count raw_message) && code last == 125
      then (if ltb 2 (count raw_message)
          then front <> ",\"channel\":" <> r.stringify logical_channel <> "}"
          else "{\"channel\":" <> r.stringify logical_channel <> "}")
      else r.stringify_with_channel parsed logical_channel
]

abbrev embeds : Value → String → Bool
embeds (str channel) logical_channel = channel == logical_channel
embeds _ logical_channel = false

unfoldable pub prepare_socket_payload : Runtime → String → Value → String → Prepared
unfolding socket_message_dedupe_key splice_channel is_reliable_realtime_event as_string
prepare_socket_payload r logical_channel parsed raw_message =
    let event_name = if is_object parsed then as_string (get_field "event" parsed) else none in
    record {
      dedupe_key = socket_message_dedupe_key parsed;
      outbound =
          if not (is_object parsed)
          then raw_message
          else (if embeds (get_field "channel" parsed) logical_channel
              then raw_message
              else splice_channel r parsed raw_message logical_channel);
      payload_event_name = event_name;
      skip_drop_for_backpressure = is_reliable_realtime_event event_name;
    }

abbrev published_at_ms : Runtime → Value → Option ℕ
published_at_ms r (str pub_at) = r.parse_date pub_at
published_at_ms r _ = none

abbrev or_published_at : Runtime → Value → Option ℕ → Option ℕ
or_published_at r parsed none = published_at_ms r (get_field "publishedAt" parsed)
or_published_at r parsed (some t) = some t

abbrev created_at_ms : Runtime → Value → Option ℕ
created_at_ms r (str ca) = r.parse_date ca
created_at_ms r (Value.num ca) = some ca
created_at_ms r _ = none

-- `parsePayloadReferenceTimeMs`: the row's creation time, else the publication time.
unfoldable pub parse_payload_reference_time_ms : Runtime → Value → Option ℕ
unfolding get_field nullish is_object
parse_payload_reference_time_ms r parsed =
    let row = get_field "data" parsed in
    if is_object parsed
    then or_published_at r parsed (
        if is_object row
        then created_at_ms r (nullish (get_field "created_at" row) (get_field "createdAt" row))
        else none)
    else none
