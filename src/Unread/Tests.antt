-- ===== src/Unread/Tests.antt =====
-- Two channels and a conversation of a user.
use cse356_discord.Common.{
  ◌+◌, ◌≡◌, refl, true, false, List, [], ◌∷◌, arith, map, String, nat_eq, if◌then◌else◌, ◌==◌,
  string_eq,
}
use cse356_discord.Value.{
  Value, null, str, obj, field, end, get_field, lookup_field, is_truthy, or_else, nullish,
}
use cse356_discord.Unread.{
  ℤ, pos, raw_count, is_conversation_unread, normalize_conversation_unread_metadata,
  patch_channel_row_by_id, read_patch, count_unread_channels, is_channel_unread_for_user,
  channel_last_message_id, channel_last_message_author_id, channel_my_last_read_message_id,
  strict_eq, entity_last_read_message_id, read_index, reaches, entity_already_read_at_or_beyond,
  find_row,
}
use cse356_discord.Unread.Verdict.{normalize_conversation_unread_metadata-is_conversation_unread}
use cse356_discord.Unread.Rows.{row_of, patch_row, id_field, patch_channel_row_by_id-refines}
use cse356_discord.Unread.Receipts.{
  count_unread_channels-read, entity_already_read_at_or_beyond-earlier,
}

abbrev row : Value
row = obj (field "id" (str "c1") (field "last_message_id" (str "m2") end))

abbrev rows : List Value
rows = obj (field "id" (str "c0") end) ∷ row ∷ []

abbrev no_number : Value → ℤ
no_number v = pos 0

normalize_conversation_unread_metadata-is_conversation_unread_example :
    is_conversation_unread no_number
      (normalize_conversation_unread_metadata no_number row (str "ann"))
      false
      (str "ann")
    ≡ is_conversation_unread no_number row false (str "ann")
unfolding is_truthy raw_count nullish get_field lookup_field
normalize_conversation_unread_metadata-is_conversation_unread_example =
    normalize_conversation_unread_metadata-is_conversation_unread no_number row "ann" 0 refl refl

patch_channel_row_by_id-refines_example :
    (row_of "c1" (patch_channel_row_by_id rows "c1" (field "last_message_id" (str "m3") end)) ≡ (
      if ◌==◌ {A = String} "c1" "c1"
      then patch_row (field "last_message_id" (str "m3") end) (row_of "c1" rows)
      else row_of "c1" rows))
    × (map id_field (patch_channel_row_by_id rows "c1" (field "last_message_id" (str "m3") end))
        ≡ map id_field rows)
patch_channel_row_by_id-refines_example =
    patch_channel_row_by_id-refines rows "c1" "c1" (field "last_message_id" (str "m3") end) refl

count_unread_channels-read_example :
    count_unread_channels (patch_channel_row_by_id rows "c1" (read_patch "m2")) (str "ann") null + 1
    ≡ count_unread_channels rows (str "ann") null
unfolding is_truthy channel_last_message_id is_channel_unread_for_user strict_eq get_field
    lookup_field or_else channel_last_message_author_id channel_my_last_read_message_id
count_unread_channels-read_example =
    count_unread_channels-read rows "c1" "m2" row (str "ann") null refl refl refl refl

abbrev messages : List Value
messages = obj (field "id" (str "m1") end) ∷ obj (field "id" (str "m2") end) ∷ []

abbrev read_row : Value
read_row = obj (field "my_last_read_message_id" (str "m2") end)

entity_already_read_at_or_beyond-earlier_example :
    entity_already_read_at_or_beyond read_row messages "m1" ≡ true
unfolding find_row entity_last_read_message_id read_index reaches is_truthy or_else strict_eq
    get_field lookup_field entity_already_read_at_or_beyond
entity_already_read_at_or_beyond-earlier_example =
    entity_already_read_at_or_beyond-earlier read_row messages "m1" "m2" 0 1 refl refl (omega arith)
      refl
