-- ===== src/Realtime/Aliases.antt =====
-- backend/src/realtime/realtimeEventAliases.ts: alias names, dedupe families and the reliable events.
use text.Mathlib.Text.{starts_with}
use cse356_discord.Common.{
  String, ◌≡◌, refl, ◌≢◌, Bool, true, false, not, Option, none, some, List, [], ◌∷◌, arith,
  if◌then◌else◌, ◌==◌, string_eq, contains,
}

-- CANONICAL_TO_ALIASES
abbrev pub canonical_to_aliases : List (String × List String)
canonical_to_aliases =
    ("message:created", "new_message" ∷ [])
    ∷ ("message:updated", "message:edited" ∷ "message_edited" ∷ [])
    ∷ ("message:deleted", "message_deleted" ∷ [])
    ∷ ("presence:updated", "presence_update" ∷ "user:status" ∷ [])
    ∷ ("read:updated", "message:read" ∷ "read:receipt" ∷ "read_receipt" ∷ [])
    ∷ []

abbrev pub conversation_reliable_event_names : List String
conversation_reliable_event_names =
    "conversation:invited" ∷ "conversation:invite" ∷ "conversation:created"
    ∷ "conversation:participant_added" ∷ []

unfoldable pub aliases_of : String → List (String × List String) → List String
aliases_of event [] = []
aliases_of event ((canonical, aliases) ∷ rows) =
    if canonical == event then aliases else aliases_of event rows

-- The event is not the name of a property that every JavaScript object has.
unfoldable pub alias_event_names_for_canonical : String → List String
unfolding aliases_of
alias_event_names_for_canonical event =
    if event == "" then [] else aliases_of event canonical_to_aliases

-- The loop of `messageDedupeFamily` over the table.
family_in : String → List (String × List String) → Option String
family_in event [] = none
family_in event ((canonical, aliases) ∷ rows) =
    let rest = family_in event rows in
    if not (starts_with canonical "message:")
    then rest
    else (if event == canonical
        then some canonical
        else (if contains aliases event then some canonical else rest))

unfoldable pub message_dedupe_family : String → Option String
unfolding family_in
message_dedupe_family event =
    if event == ""
    then none
    else (if starts_with event "message:" then some event else family_in event canonical_to_aliases)

abbrev is_some : Option String → Bool
is_some none = false
is_some (some _) = true

unfoldable pub is_message_like_fanout_event_name : String → Bool
unfolding message_dedupe_family
is_message_like_fanout_event_name event = is_some (message_dedupe_family event)

-- The loop of `isReliableRealtimeEventName` over the table.
named_in : String → List (String × List String) → Bool
named_in event [] = false
named_in event ((canonical, aliases) ∷ rows) =
    let rest = named_in event rows in
    if event == canonical then true else (if contains aliases event then true else rest)

unfoldable pub is_reliable_realtime_event_name : String → Bool
unfolding named_in
is_reliable_realtime_event_name event =
    if event == ""
    then false
    else (if starts_with event "message:"
        then true
        else (if named_in event canonical_to_aliases
            then true
            else contains conversation_reliable_event_names event))

family_in-named_in :
    (event : String) (rows : List (String × List String))
    → family_in event rows ≢ none
    → named_in event rows ≡ true
unfolding family_in named_in
family_in-named_in event [] h = absurd (h refl)
family_in-named_in event ((canonical, aliases) ∷ rows) h =
    ground (arith, family_in-named_in event rows)

-- Every event that is deduplicated per socket is delivered reliably: no event is in a dedupe family
-- and yet may be dropped under backpressure.
pub message_dedupe_family-is_reliable :
    (event : String)
    → message_dedupe_family event ≢ none
    → is_reliable_realtime_event_name event ≡ true
unfolding message_dedupe_family is_reliable_realtime_event_name
message_dedupe_family-is_reliable event h =
    ground (arith, family_in-named_in event canonical_to_aliases)
