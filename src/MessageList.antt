-- ===== src/MessageList.antt =====
-- frontend/src/stores/chatStoreMessageList.ts: the list of a channel's messages in the browser. A message
-- is a JavaScript object, its properties in insertion order. Two functions of the platform are
-- parameters: `date_ms` is `new Date(v).getTime()`, `none` where that is not finite, and `locale_le`
-- says that `localeCompare` is at most 0. Ids are texts.
pub mod Sorted
pub mod Upsert
pub mod Merge
pub mod Page
pub mod Tests
use cse356_discord.Common.{
  ℕ, zero, suc, ◌+◌, ◌-◌, ◌/◌, ◌≤◌, ◌<◌, ◌≡◌, refl, String, Bool, true, false, Option, none, some,
  List, [], ◌∷◌, ◌++◌, length, take, drop, get_elem?, contains, map_get, map_set, if◌then◌else◌,
  ◌==◌, ltb, nat_eq, string_eq,
}
use cse356_discord.Value.{Value, undefined, num, or_else, as_string}

abbrev pub Message : Type 0
Message = List (String × Value)

-- `m.name`
unfoldable pub prop : String → Message → Value
prop name m = elim (map_get name m) [ none ↦ undefined | some v ↦ v ]

-- `String(m.id || '')`
unfoldable pub id_of : Message → String
id_of m = elim (as_string (prop "id" m)) [ none ↦ "" | some s ↦ s ]

-- `{ ...a, ...b }`
unfoldable pub spread : Message → Message → Message
spread a [] = a
spread a ((k, v) ∷ b) = spread (map_set k v a) b

unfoldable pub dedupe_from : List String → List Message → List Message
dedupe_from seen [] = []
dedupe_from seen (m ∷ ms) =
    let skipped : List Message = dedupe_from seen ms in
    let kept : List Message = m ∷ dedupe_from (seen ++ id_of m ∷ []) ms in
    if id_of m == "" then skipped else if contains seen (id_of m) then skipped else kept

unfoldable pub dedupe_messages : List Message → List Message
dedupe_messages messages = dedupe_from [] messages

-- `list.findIndex((m) => m.id === id)`
unfoldable pub find_index : String → List Message → Option ℕ
find_index id [] = none
find_index id (m ∷ ms) =
    if id_of m == id
    then some 0
    else elim (find_index id ms) [ none ↦ none | some i ↦ some (i + 1) ]

-- `next[i] = f(next[i])`
unfoldable pub update_at : ℕ → (Message → Message) → List Message → List Message
update_at i f [] = []
update_at zero f (m ∷ ms) = f m ∷ ms
update_at (suc i) f (m ∷ ms) = m ∷ update_at i f ms

-- `next.splice(i, 0, m)`
unfoldable pub splice_in : Message → List Message → ℕ → List Message
splice_in incoming list at_place = take at_place list ++ incoming ∷ drop at_place list

-- A loop that fills the map: a message without an id is skipped.
unfoldable pub put_all :
    (Option Message → Message → Message)
    → List Message
    → List (String × Message)
    → List (String × Message)
put_all combine [] rows = rows
put_all combine (m ∷ ms) rows =
    let stored : List (String × Message) =
      put_all combine ms (map_set (id_of m) (combine (map_get (id_of m) rows) m) rows) in
    let skipped : List (String × Message) = put_all combine ms rows in
    if id_of m == "" then skipped else stored

abbrev pub latest : Option Message → Message → Message
latest prev m = m

abbrev pub overlaid : Option Message → Message → Message
overlaid none m = m
overlaid (some prev) m = spread prev m

abbrev pub values_of : List (String × Message) → List Message
values_of [] = []
values_of ((k, m) ∷ rows) = m ∷ values_of rows

module _ (date_ms : Value → Option ℕ) (locale_le : String → String → Bool) where
  unfoldable pub message_sort_key : Message → ℕ
  message_sort_key m =
      elim (date_ms (or_else (prop "created_at" m) (or_else (prop "createdAt" m) (num 0)))) [
        | none ↦ 0
        | some t ↦ t
      ]

  -- `compareMessageOrder(a, b) <= 0`
  unfoldable pub is_not_after : Message → Message → Bool
  is_not_after a b =
      if message_sort_key a == message_sort_key b
      then locale_le (id_of a) (id_of b)
      else ltb (message_sort_key a) (message_sort_key b)

  -- A message's place in a sorted list. The library's sort is stable, as inserting before the first
  -- message that is not earlier is, from the last message on.
  unfoldable pub insert_sorted : Message → List Message → List Message
  insert_sorted m [] = m ∷ []
  insert_sorted m (n ∷ ns) = if is_not_after m n then m ∷ n ∷ ns else n ∷ insert_sorted m ns

  unfoldable pub sort_messages_chronologically : List Message → List Message
  sort_messages_chronologically [] = []
  sort_messages_chronologically (m ∷ ms) = insert_sorted m (sort_messages_chronologically ms)

  unfoldable pub merge_latest_page_with_existing : List Message → List Message → List Message
  merge_latest_page_with_existing local server =
      sort_messages_chronologically (values_of (put_all overlaid server (put_all latest local [])))

  -- The binary search between `lo` and `hi`, which is the source's `hi + 1`.
  unfoldable pub search_place : ℕ → Message → List Message → ℕ → ℕ → ℕ
  search_place zero incoming list lo hi = lo
  search_place (suc fuel) incoming list lo hi =
      let mid = (lo + (hi - 1)) / 2 in
      let left = search_place fuel incoming list lo mid in
      let right = search_place fuel incoming list (mid + 1) hi in
      if ltb lo hi
      then elim (get_elem? list mid) [
        | none ↦ right
        | some m ↦ if is_not_after incoming m then left else right
      ]
      else lo

  unfoldable pub upsert_message_chronologically : List Message → Message → List Message
  upsert_message_chronologically list incoming = elim (find_index (id_of incoming) list) [
    | some i ↦ update_at i (λ m. spread m incoming) list
    | none ↦ splice_in incoming list (search_place (length list) incoming list 0 (length list))
  ]
