-- ===== src/Realtime/Fanout.antt =====
-- backend/src/realtime/realtimeEventAliases.ts: the duplicate publishes under alias names.
use cse356_discord.Common.{
  String, Bool, ◌&&◌, ◌||◌, List, [], ◌∷◌, ◌++◌, map, if◌then◌else◌, ◌==◌, string_eq,
}
use cse356_discord.Value.{
  Value, str, obj, Fields, lookup_field, get_field, set_field, is_truthy, is_object,
}
use cse356_discord.Realtime.Aliases.{alias_event_names_for_canonical}

pub record FanoutBatchEntry : Type 0 where
  pub channel : String
  pub payload : Value

-- `isRealtimeEventAliasFanoutEnabled`; the variable's text in lower case.
unfoldable pub is_realtime_event_alias_fanout_enabled : String → Bool
is_realtime_event_alias_fanout_enabled v = v == "1" || v == "true" || v == "yes"

abbrev pub names_of : Value → List String
names_of (str event) = alias_event_names_for_canonical event
names_of _ = []

-- `{ ...p, event: v }` of an object
unfoldable pub with_event_field : Value → Value → Value
with_event_field v (obj fs) = obj (set_field "event" v fs)
with_event_field v p = p

-- `routed.__wsRoute && routed.payload && typeof routed.payload === 'object' && !Array.isArray(…)`
unfoldable pub is_routed : Fields → Bool
unfolding lookup_field is_truthy is_object
is_routed fs = is_truthy (lookup_field "__wsRoute" fs) && is_object (lookup_field "payload" fs)

-- `{ ...routed, payload: { ...inner, event: v } }`
unfoldable pub with_inner_event : Value → Fields → Value
unfolding with_event_field
with_inner_event v routed =
    obj (set_field "payload" (with_event_field v (lookup_field "payload" routed)) routed)

abbrev pub at_channel : String → Value → FanoutBatchEntry
at_channel channel payload = record { channel = channel; payload = payload }

-- The copies of one entry under the aliases of its event.
unfoldable pub alias_copies : String → Value → List FanoutBatchEntry
unfolding is_routed with_event_field with_inner_event get_field
alias_copies channel (obj fs) =
    if is_routed fs
    then map (λ alias. at_channel channel (with_inner_event (str alias) fs))
        (names_of (get_field "event" (lookup_field "payload" fs)))
    else map (λ alias. at_channel channel (with_event_field (str alias) (obj fs)))
        (names_of (lookup_field "event" fs))
alias_copies channel _ = []

-- The loop of `expandFanoutBatchEntriesWithAliases`.
unfoldable pub expand_entries : List FanoutBatchEntry → List FanoutBatchEntry
expand_entries [] = []
expand_entries (ent ∷ entries) =
    if ent.channel == ""
    then expand_entries entries
    else ent ∷ (alias_copies ent.channel ent.payload ++ expand_entries entries)

unfoldable pub expand_fanout_batch_entries_with_aliases :
    String → List FanoutBatchEntry → List FanoutBatchEntry
unfolding expand_entries
expand_fanout_batch_entries_with_aliases v entries =
    if is_realtime_event_alias_fanout_enabled v then expand_entries entries else entries
