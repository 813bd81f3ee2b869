-- ===== src/Unread.antt =====
-- What the browser counts as unread: frontend/src/lib/unread.ts and
-- frontend/src/stores/chatStoreUnreadModel.ts. An entity is the object of a channel or a conversation; ids
-- are texts, and a count is a whole number. `Number(v)` of anything but a number is a parameter.
pub mod Values
pub mod Verdict
pub mod Rows
pub mod Receipts
pub mod Tests
use cse356_discord.Common.{
  ℕ, zero, suc, ◌+◌, String, Bool, true, false, not, ◌&&◌, ◌||◌, Option, none, some, List, [], ◌∷◌,
  any, leb, if◌then◌else◌, ◌==◌, nat_eq, string_eq,
}
use cse356_discord.Value.{
  Value, undefined, null, bool, num, str, obj, arr, Fields, field, end, get_field, set_field,
  is_truthy, or_else, nullish,
}

pub data ℤ : Type 0 where
  pos negsuc : ℕ → ℤ

-- `Math.max(0, n)`
unfoldable pub max_zero : ℤ → ℕ
max_zero (pos n) = n
max_zero (negsuc n) = 0

unfoldable pub is_zero : ℤ → Bool
is_zero (pos n) = n == 0
is_zero (negsuc n) = false

-- `a === b` of ids and of what stands for no id.
unfoldable pub strict_eq : Value → Value → Bool
strict_eq undefined undefined = true
strict_eq null null = true
strict_eq (bool true) (bool b) = b
strict_eq (bool false) (bool b) = not b
strict_eq (num m) (num n) = m == n
strict_eq (str s) (str t) = s == t
strict_eq _ _ = false

-- `{ ...entity, [name]: v }`
unfoldable pub with_field : String → Value → Value → Value
with_field name v (obj fs) = obj (set_field name v fs)
with_field name v _ = obj (field name v end)

-- `{ ...entity, ...patch }`
unfoldable pub patched : Value → Fields → Value
unfolding with_field
patched entity end = entity
patched entity (field name v patch) = patched (with_field name v entity) patch

-- `entity.a || entity.b`
abbrev pub either_field : String → String → Value → Value
either_field a b entity = or_else (get_field a entity) (get_field b entity)

unfoldable pub channel_last_message_id : Value → Value
channel_last_message_id channel =
    or_else (either_field "last_message_id" "lastMessageId" channel) null

unfoldable pub channel_last_message_author_id : Value → Value
channel_last_message_author_id channel =
    or_else (either_field "last_message_author_id" "lastMessageAuthorId" channel) null

unfoldable pub channel_my_last_read_message_id : Value → Value
channel_my_last_read_message_id channel =
    or_else (either_field "my_last_read_message_id" "myLastReadMessageId" channel) null

unfoldable pub conversation_last_message_id : Value → Value
conversation_last_message_id conversation =
    or_else (either_field "last_message_id" "lastMessageId" conversation) null

unfoldable pub conversation_last_message_author_id : Value → Value
conversation_last_message_author_id conversation =
    or_else (either_field "last_message_author_id" "lastMessageAuthorId" conversation) null

unfoldable pub conversation_my_last_read_message_id : Value → Value
conversation_my_last_read_message_id conversation =
    or_else (either_field "my_last_read_message_id" "myLastReadMessageId" conversation) null

unfoldable pub entity_last_read_message_id : Value → Value
entity_last_read_message_id entity =
    or_else (either_field "my_last_read_message_id" "myLastReadMessageId" entity) null

-- `Boolean(entity?.has_new_activity ?? entity?.hasNewActivity)`
unfoldable pub has_activity : Value → Bool
has_activity entity =
    is_truthy (nullish (get_field "has_new_activity" entity) (get_field "hasNewActivity" entity))

-- `count || 1`
abbrev or_one : ℕ → ℕ
or_one n = if n == 0 then 1 else n

unfoldable pub with_metadata : Value → ℕ → Bool → Value
unfolding with_field
with_metadata conversation count flag = with_field "hasNewActivity" (bool flag) (
    with_field "has_new_activity" (bool flag)
      (with_field "unread_message_count" (num count) conversation))

unfoldable pub authored_by_me : Value → Value → Bool
unfolding conversation_last_message_author_id
authored_by_me conversation current_user_id =
    is_truthy current_user_id
    && is_truthy (conversation_last_message_author_id conversation)
    && strict_eq (conversation_last_message_author_id conversation) current_user_id

unfoldable pub is_unread_by_cursor : Value → Value → Bool
unfolding authored_by_me
is_unread_by_cursor conversation current_user_id =
    is_truthy (conversation_last_message_id conversation)
    && not (authored_by_me conversation current_user_id)
    && not (
        strict_eq (conversation_my_last_read_message_id conversation)
          (conversation_last_message_id conversation))

module _ (number : Value → ℤ) where
  unfoldable pub to_number : Value → ℤ
  to_number (num n) = pos n
  to_number v = number v

  -- `Number(entity?.unread_message_count ?? 0)`
  unfoldable pub raw_count : Value → ℤ
  unfolding to_number
  raw_count entity = to_number (nullish (get_field "unread_message_count" entity) (num 0))

  unfoldable pub get_entity_unread_count : Value → Bool → ℕ
  unfolding raw_count has_activity
  get_entity_unread_count entity active =
      if active
      then 0
      else if is_zero (raw_count entity) && has_activity entity
      then 1
      else max_zero (raw_count entity)

  unfoldable pub is_entity_unread_by_cursor : Value → Bool → Value → Bool
  unfolding get_entity_unread_count
  is_entity_unread_by_cursor entity active current_user_id =
      let last_message_id = either_field "last_message_id" "lastMessageId" entity in
      if leb 1 (get_entity_unread_count entity active)
      then true
      else if active
      then false
      else if not (is_truthy last_message_id)
      then false
      else if strict_eq (either_field "last_message_author_id" "lastMessageAuthorId" entity)
          current_user_id
      then false
      else not (
          strict_eq (either_field "my_last_read_message_id" "myLastReadMessageId" entity)
            last_message_id)

  unfoldable pub get_entity_unread_count_with_fallback : Value → Bool → Value → ℕ
  unfolding is_entity_unread_by_cursor
  get_entity_unread_count_with_fallback entity active current_user_id =
      if is_entity_unread_by_cursor entity active current_user_id
      then or_one (get_entity_unread_count entity active)
      else 0

  unfoldable pub is_conversation_unread : Value → Bool → Value → Bool
  unfolding get_entity_unread_count_with_fallback
  is_conversation_unread conversation active current_user_id =
      leb 1 (get_entity_unread_count_with_fallback conversation active current_user_id)

  unfoldable pub normalize_conversation_unread_metadata : Value → Value → Value
  unfolding with_metadata is_unread_by_cursor raw_count has_activity
  normalize_conversation_unread_metadata conversation current_user_id =
      if leb 1 (max_zero (raw_count conversation)) || has_activity conversation
      then with_metadata conversation (max_zero (raw_count conversation))
          (has_activity conversation)
      else with_metadata conversation
          (if is_unread_by_cursor conversation current_user_id then 1 else 0)
          (is_unread_by_cursor conversation current_user_id)

unfoldable pub is_channel_unread_for_user : Value → Value → Value → Bool
unfolding channel_last_message_id
is_channel_unread_for_user channel current_user_id active_channel_id =
    if not (is_truthy channel) || not (is_truthy current_user_id)
    then false
    else if is_truthy active_channel_id && strict_eq (get_field "id" channel) active_channel_id
    then false
    else if not (is_truthy (channel_last_message_id channel))
    then false
    else if strict_eq (channel_last_message_author_id channel) current_user_id
    then false
    else not (strict_eq (channel_my_last_read_message_id channel) (channel_last_message_id channel))

-- The callback of `reduce` over the channels.
unfoldable pub count_unread_from : ℕ → List Value → Value → Value → ℕ
unfolding is_channel_unread_for_user
count_unread_from count [] current_user_id active_channel_id = count
count_unread_from count (channel ∷ channels) current_user_id active_channel_id =
    count_unread_from
      (count
        + (if is_channel_unread_for_user channel current_user_id active_channel_id then 1 else 0))
      channels current_user_id active_channel_id

unfoldable pub count_unread_channels : List Value → Value → Value → ℕ
unfolding count_unread_from
count_unread_channels channels current_user_id active_channel_id =
    if not (is_truthy current_user_id)
    then 0
    else count_unread_from 0 channels current_user_id active_channel_id

-- `rows.findIndex((row) => row.id === id)`, and `message?.id`: no row is null.
unfoldable pub find_row : String → List Value → Option ℕ
unfolding strict_eq
find_row id [] = none
find_row id (row ∷ rows) =
    if strict_eq (get_field "id" row) (str id)
    then some 0
    else elim (find_row id rows) [ none ↦ none | some i ↦ some (suc i) ]

-- `next[i] = { ...next[i], ...patch }`
unfoldable pub patch_at : Option ℕ → Fields → List Value → List Value
unfolding patched
patch_at none patch rows = rows
patch_at (some i) patch [] = []
patch_at (some zero) patch (row ∷ rows) = patched row patch ∷ rows
patch_at (some (suc i)) patch (row ∷ rows) = row ∷ patch_at (some i) patch rows

unfoldable pub patch_conversation_row_by_id : List Value → String → Fields → List Value
unfolding find_row patch_at
patch_conversation_row_by_id conversations id patch =
    patch_at (find_row id conversations) patch conversations

unfoldable pub patch_channel_row_by_id : List Value → String → Fields → List Value
unfolding find_row patch_at
patch_channel_row_by_id channels id patch = patch_at (find_row id channels) patch channels

-- What `selectChannel` writes into the row of a channel whose last message it has.
unfoldable pub read_patch : String → Fields
read_patch last_id =
    field "my_last_read_message_id" (str last_id) (field "myLastReadMessageId" (str last_id) end)

-- `participant?.id && participant.id !== currentUserId`
abbrev is_another : Value → Value → Bool
is_another current_user_id participant =
    is_truthy (get_field "id" participant)
    && not (strict_eq (get_field "id" participant) current_user_id)

-- The participants are the elements of the field, none where it is no array.
unfoldable pub is_visible_conversation : List Value → Value → Value → Bool
is_visible_conversation participants conv current_user_id =
    if not (is_truthy conv)
    then false
    else if not (is_truthy current_user_id)
    then true
    else if is_truthy (get_field "is_group" conv)
    then true
    else any (is_another current_user_id) participants

-- `readIdx !== -1 && candidateIdx !== -1 && readIdx >= candidateIdx`
unfoldable pub reaches : Option ℕ → Option ℕ → Bool
reaches (some read_idx) (some candidate_idx) = leb candidate_idx read_idx
reaches _ _ = false

-- A text is looked for as the id of the cursor.
unfoldable pub read_index : Value → List Value → Option ℕ
unfolding find_row
read_index (str id) messages = find_row id messages
read_index _ messages = none

unfoldable pub entity_already_read_at_or_beyond : Value → List Value → String → Bool
unfolding entity_last_read_message_id read_index reaches
entity_already_read_at_or_beyond entity messages candidate_message_id =
    let last_read_id = entity_last_read_message_id entity in
    if not (is_truthy last_read_id)
    then false
    else if strict_eq last_read_id (str candidate_message_id)
    then true
    else reaches (read_index last_read_id messages) (find_row candidate_message_id messages)
