-- ===== src/Outbound/Payload/Commands.antt =====
-- backend/src/websocket/outboundPayload.ts: internal commands on a user feed, and the topic's label.
use Prim.Native.String.{slice}
use text.Mathlib.Text.{find?}
use cse356_discord.Common.{
  String, Bool, true, false, not, ◌||◌, Option, none, some, List, [], ◌∷◌, if◌then◌else◌, ◌==◌,
  nat_eq, string_eq, contains,
}
use cse356_discord.Value.{Value, str, get_field, is_object, as_string}

abbrev is_text : Option String → Bool
is_text none = false
is_text (some _) = true

-- `null` is `none`.
unfoldable pub extract_internal_user_feed_command : Value → Option Value
unfolding get_field is_object as_string
extract_internal_user_feed_command payload =
    let internal = get_field "__wsInternal" payload in
    if not (is_object payload)
    then none
    else (if not (is_object internal) || not (is_text (as_string (get_field "kind" internal)))
        then none
        else some internal)

-- The prefixes that the label may have.
abbrev pub topic_prefixes : List String
topic_prefixes = "channel" ∷ "user" ∷ "conversation" ∷ "community" ∷ "userfeed" ∷ []

unfoldable pub ws_delivery_topic_prefix_for_metrics : Value → String
ws_delivery_topic_prefix_for_metrics (str logical_channel) = elim (find? logical_channel ":") [
  | none ↦ "other"
  | some idx ↦
      if idx == 0
      then "other"
      else (if contains topic_prefixes (slice logical_channel 0 idx)
          then slice logical_channel 0 idx
          else "other")
]
ws_delivery_topic_prefix_for_metrics _ = "other"
