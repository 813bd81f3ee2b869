-- ===== src/Unread/Receipts.antt =====
-- What chatStoreUnreadModel.ts counts after a channel is read, and which messages it takes as read.
use text.Mathlib.TextEquality.{eq_iff}
use cse356_discord.Common.{
  ℕ, ◌+◌, ◌≤◌, ◌≡◌, refl, String, Bool, true, false, not, some, List, [], ◌∷◌, arith, if◌then◌else◌,
  string_eq, nat_eq, inl, inr, Bool-cases, Option-cases,
}
use cse356_discord.Value.{Value, str, get_field, is_truthy, or_else}
use cse356_discord.Unread.{
  strict_eq, patched, with_field, find_row, patch_at, patch_channel_row_by_id, read_patch,
  is_channel_unread_for_user, count_unread_from, count_unread_channels, channel_last_message_id,
  channel_my_last_read_message_id, entity_already_read_at_or_beyond, entity_last_read_message_id,
  read_index, reaches,
}
use cse356_discord.Unread.Values.{get_field-with_field}
use cse356_discord.Unread.Rows.{row_of, get_field-patched, patch_at-here, patch_at-later}

last_id-patched :
    (row : Value) (l : String)
    → channel_last_message_id (patched row (read_patch l)) ≡ channel_last_message_id row
unfolding channel_last_message_id read_patch
last_id-patched row l =
    rw
      (
        get_field-patched "last_message_id" (read_patch l) row refl,
        get_field-patched "lastMessageId" (read_patch l) row refl,
      )
      refl

read_id-patched :
    (row : Value) (l : String)
    → is_truthy (str l) ≡ true
    → channel_my_last_read_message_id (patched row (read_patch l)) ≡ str l
unfolding channel_my_last_read_message_id read_patch patched or_else
read_id-patched row l h =
    rw
      (
        get_field-with_field "my_last_read_message_id" "myLastReadMessageId" (str l)
            (with_field "my_last_read_message_id" (str l) row),
        get_field-with_field "my_last_read_message_id" "my_last_read_message_id" (str l) row,
      )
      (ground (arith, h))

strict_eq-same : (l : String) → strict_eq (str l) (str l) ≡ true
unfolding strict_eq
strict_eq-same l = ground (arith, eq_iff l l)

patched-read :
    (row user active : Value) (l : String)
    → channel_last_message_id row ≡ str l
    → is_channel_unread_for_user (patched row (read_patch l)) user active ≡ false
unfolding is_channel_unread_for_user
patched-read row user active l last =
    rw (last_id-patched row l, last)
      (elim (Bool-cases (is_truthy (str l))) [
        | inl truthy ↦ rw (truthy, read_id-patched row l truthy, strict_eq-same l) (ground arith)
        | inr falsy ↦ rw falsy (ground arith)
      ])

abbrev unread_as : Value → Value → Value → ℕ
unread_as user active row = if is_channel_unread_for_user row user active then 1 else 0

count_unread_from-start :
    (n : ℕ) (rows : List Value) (user active : Value)
    → count_unread_from n rows user active ≡ n + count_unread_from 0 rows user active
unfolding count_unread_from
count_unread_from-start n [] user active = omega arith
count_unread_from-start n (row ∷ rows) user active =
    rw
      (
        count_unread_from-start (n + unread_as user active row) rows user active,
        count_unread_from-start (0 + unread_as user active row) rows user active,
      )
      (omega arith)

counted_one :
    (row : Value) (rows : List Value) (user active : Value)
    → count_unread_from 0 (row ∷ rows) user active
      ≡ unread_as user active row + count_unread_from 0 rows user active
unfolding count_unread_from
counted_one row rows user active =
    rw (count_unread_from-start (0 + unread_as user active row) rows user active) (omega arith)

count-patch_at :
    (rows : List Value) (id l : String) (row user active : Value)
    → row_of id rows ≡ some row
    → channel_last_message_id row ≡ str l
    → is_channel_unread_for_user row user active ≡ true
    → count_unread_from 0 (patch_at (find_row id rows) (read_patch l) rows) user active + 1
      ≡ count_unread_from 0 rows user active
count-patch_at [] id l row user active found last unread = absurd (ground arith)
count-patch_at (r ∷ rows) id l row user active found last unread =
    elim (Bool-cases (strict_eq (get_field "id" r) (str id))) [
      | inl here ↦
          let same : r ≡ row = ground (arith, found, here) in
          rw
            (
              patch_at-here id (read_patch l) r rows here,
              counted_one (patched r (read_patch l)) rows user active,
              counted_one r rows user active,
              same,
              patched-read row user active l last,
              unread,
            )
            (omega arith)
      | inr later ↦
          let further : row_of id rows ≡ some row = ground (arith, found, later) in
          rw
            (
              patch_at-later id (read_patch l) r rows later,
              counted_one r (patch_at (find_row id rows) (read_patch l) rows) user active,
              counted_one r rows user active,
            )
            (omega (arith, count-patch_at rows id l row user active further last unread))
    ]

-- A channel that counts as unread for a user who is signed in, whose last message is known, takes the
-- number of unread channels down by exactly one when its row is patched as read up to that message.
pub count_unread_channels-read :
    (rows : List Value) (id l : String) (row user active : Value)
    → row_of id rows ≡ some row
    → channel_last_message_id row ≡ str l
    → is_truthy user ≡ true
    → is_channel_unread_for_user row user active ≡ true
    → count_unread_channels (patch_channel_row_by_id rows id (read_patch l)) user active + 1
      ≡ count_unread_channels rows user active
unfolding count_unread_channels patch_channel_row_by_id
count_unread_channels-read rows id l row user active found last signed_in unread =
    rw signed_in (count-patch_at rows id l row user active found last unread)

abbrev covers : List Value → Value → String → Bool
covers messages v c =
    if not (is_truthy v)
    then false
    else if strict_eq v (str c)
    then true
    else reaches (read_index v messages) (find_row c messages)

covers_earlier :
    (messages : List Value) (earlier later : String) (i j : ℕ)
    → find_row earlier messages ≡ some i
    → find_row later messages ≡ some j
    → i ≤ j
    → (v : Value) → covers messages v later ≡ true
    → covers messages v earlier ≡ true
unfolding read_index reaches strict_eq
covers_earlier messages earlier later i j at_i at_j le (str s) k =
    elim (Option-cases (find_row s messages)) [
      | inl absent ↦ ground (arith, at_i, at_j, absent, eq_iff s later, eq_iff s earlier)
      | inr (n, found) ↦ ground (arith, at_i, at_j, found, eq_iff s later, eq_iff s earlier)
    ]
covers_earlier messages earlier later i j at_i at_j le _ k = ground arith

-- If a message is taken as read, so is every message that stands in the list no later than it.
pub entity_already_read_at_or_beyond-earlier :
    (entity : Value) (messages : List Value) (earlier later : String) (i j : ℕ)
    → find_row earlier messages ≡ some i
    → find_row later messages ≡ some j
    → i ≤ j
    → entity_already_read_at_or_beyond entity messages later ≡ true
    → entity_already_read_at_or_beyond entity messages earlier ≡ true
unfolding entity_already_read_at_or_beyond
entity_already_read_at_or_beyond-earlier entity messages earlier later i j at_i at_j le h =
    covers_earlier messages earlier later i j at_i at_j le (entity_last_read_message_id entity) h
