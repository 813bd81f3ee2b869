-- ===== src/MessageList/Tests.antt =====
-- A new message between two others, and a list with a repeated message.
use cse356_discord.Common.{
  ℕ, ◌≡◌, refl, String, Bool, true, Option, none, some, List, [], ◌∷◌, string_eq, nat_eq,
}
use cse356_discord.Value.{Value, num, str, or_else, as_string}
use cse356_discord.MessageList.{
  Message, id_of, prop, message_sort_key, is_not_after, insert_sorted,
  upsert_message_chronologically, find_index,
}
use cse356_discord.MessageList.Sorted.{IsOrder, IsSorted}
use cse356_discord.MessageList.Upsert.{upsert_message_chronologically-insert_sorted}

abbrev date_ms : Value → Option ℕ
date_ms (num t) = some t
date_ms _ = none

-- All ids stand level.
abbrev level : String → String → Bool
level a b = true

level-IsOrder : IsOrder level
level-IsOrder = record { trans = λ a b c h k. refl; total = λ a b h. refl }

abbrev message : String → ℕ → Message
message id t = ("id", str id) ∷ ("created_at", num t) ∷ []

abbrev two : List Message
two = message "a" 10 ∷ message "c" 30 ∷ []

upsert_message_chronologically-insert_sorted_example :
    (upsert_message_chronologically date_ms level two (message "b" 20)
      ≡ insert_sorted date_ms level (message "b" 20) two)
    × IsSorted date_ms level (upsert_message_chronologically date_ms level two (message "b" 20))
unfolding is_not_after message_sort_key find_index id_of prop or_else as_string
upsert_message_chronologically-insert_sorted_example =
    upsert_message_chronologically-insert_sorted date_ms level level-IsOrder two (message "b" 20)
      ((refl, tt), (tt, tt)) refl
