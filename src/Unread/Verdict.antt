-- ===== src/Unread/Verdict.antt =====
-- Which conversations unread.ts shows as unread, before and after chatStoreUnreadModel.ts normalizes them.
use cse356_discord.Common.{
  ℕ, ◌≡◌, refl, String, Bool, true, false, not, ◌&&◌, ◌||◌, arith, leb, if◌then◌else◌, ◌==◌,
  string_eq, nat_eq, inl, inr, Bool-cases,
}
use cse356_discord.Value.{Value, bool, num, str, is_truthy, nullish}
use cse356_discord.Unread.{
  ℤ, pos, strict_eq, either_field, raw_count, has_activity, is_zero, get_entity_unread_count,
  max_zero, conversation_last_message_id, conversation_my_last_read_message_id,
  is_conversation_unread, is_unread_by_cursor, authored_by_me,
  normalize_conversation_unread_metadata, with_metadata, with_field,
}
use cse356_discord.Unread.Values.{
  get_field-with_field, get_field-with_metadata, strict_eq-or_null, or_null-truthy,
  is_truthy-or_null, strict_eq-is_truthy,
}

-- The ids of a conversation that the verdict of its read cursor looks at.
abbrev last_id : Value → Value
last_id c = either_field "last_message_id" "lastMessageId" c

abbrev author_id : Value → Value
author_id c = either_field "last_message_author_id" "lastMessageAuthorId" c

abbrev read_id : Value → Value
read_id c = either_field "my_last_read_message_id" "myLastReadMessageId" c

abbrev is_behind : Value → Value → Bool
is_behind c user =
    is_truthy (last_id c)
    && not (strict_eq (author_id c) user)
    && not (strict_eq (read_id c) (last_id c))

has_activity-with_metadata :
    (c : Value) (n : ℕ) (flag : Bool) → has_activity (with_metadata c n flag) ≡ flag
unfolding has_activity with_metadata nullish is_truthy
has_activity-with_metadata c n flag =
    rw
      (
        get_field-with_field "has_new_activity" "hasNewActivity" (bool flag) (
            with_field "has_new_activity" (bool flag)
              (with_field "unread_message_count" (num n) c)),
        get_field-with_field "has_new_activity" "has_new_activity" (bool flag)
            (with_field "unread_message_count" (num n) c),
      )
      refl

module _ (number : Value → ℤ) where
  verdict :
      (c user : Value)
      → is_conversation_unread number c false user
        ≡ (leb 1 (get_entity_unread_count number c false) || is_behind c user)
  unfolding is_conversation_unread
  verdict c user = ground arith

  raw_count-with_metadata :
      (c : Value) (n : ℕ) (flag : Bool) → raw_count number (with_metadata c n flag) ≡ pos n
  unfolding raw_count with_metadata nullish
  raw_count-with_metadata c n flag =
      rw
        (
          get_field-with_field "unread_message_count" "hasNewActivity" (bool flag) (
              with_field "has_new_activity" (bool flag)
                (with_field "unread_message_count" (num n) c)),
          get_field-with_field "unread_message_count" "has_new_activity" (bool flag)
              (with_field "unread_message_count" (num n) c),
          get_field-with_field "unread_message_count" "unread_message_count" (num n) c,
        )
        refl

  count-with_metadata :
      (c : Value) (n : ℕ) (flag : Bool)
      → get_entity_unread_count number (with_metadata c n flag) false
        ≡ (if (n == 0) && flag then 1 else n)
  unfolding get_entity_unread_count max_zero is_zero
  count-with_metadata c n flag =
      rw (raw_count-with_metadata c n flag, has_activity-with_metadata c n flag) refl

is_behind-with_metadata :
    (c user : Value) (n : ℕ) (flag : Bool)
    → is_behind (with_metadata c n flag) user ≡ is_behind c user
is_behind-with_metadata c user n flag =
    rw
      (
        get_field-with_metadata "last_message_id" c n flag refl refl refl,
        get_field-with_metadata "lastMessageId" c n flag refl refl refl,
        get_field-with_metadata "last_message_author_id" c n flag refl refl refl,
        get_field-with_metadata "lastMessageAuthorId" c n flag refl refl refl,
        get_field-with_metadata "my_last_read_message_id" c n flag refl refl refl,
        get_field-with_metadata "myLastReadMessageId" c n flag refl refl refl,
      )
      refl

authored_by_me-strict_eq :
    (c : Value) (x : String)
    → is_truthy (str x) ≡ true
    → authored_by_me c (str x) ≡ strict_eq (author_id c) (str x)
unfolding authored_by_me
authored_by_me-strict_eq c x h =
    rw (h, strict_eq-or_null (author_id c) (str x) h, is_truthy-or_null (author_id c))
      (ground (arith, h, strict_eq-is_truthy (author_id c) (str x)))

is_unread_by_cursor-is_behind :
    (c : Value) (x : String)
    → is_truthy (str x) ≡ true
    → is_unread_by_cursor c (str x) ≡ is_behind c (str x)
unfolding is_unread_by_cursor conversation_last_message_id conversation_my_last_read_message_id
is_unread_by_cursor-is_behind c x h = elim (Bool-cases (is_truthy (last_id c))) [
  | inl truthy ↦
      rw
        (
          authored_by_me-strict_eq c x h,
          or_null-truthy (last_id c) truthy,
          strict_eq-or_null (read_id c) (last_id c) truthy,
        )
        refl
  | inr falsy ↦ ground (arith, falsy, is_truthy-or_null (last_id c))
]

module _ (number : Value → ℤ) where
  verdict-with_metadata :
      (c user : Value) (n : ℕ) (flag : Bool)
      → is_conversation_unread number (with_metadata c n flag) false user
        ≡ (leb 1 (if (n == 0) && flag then 1 else n) || is_behind c user)
  verdict-with_metadata c user n flag =
      rw
        (
          verdict number (with_metadata c n flag) user,
          count-with_metadata number c n flag,
          is_behind-with_metadata c user n flag,
        )
        refl

  verdict_counted :
      (c user : Value) (n : ℕ)
      → raw_count number c ≡ pos n
      → is_conversation_unread number c false user
        ≡ (leb 1 (if (n == 0) && has_activity c then 1 else n) || is_behind c user)
  unfolding get_entity_unread_count max_zero is_zero
  verdict_counted c user n count = rw (verdict number c user, count) refl

  normalized :
      (c user : Value) (n : ℕ)
      → raw_count number c ≡ pos n
      → normalize_conversation_unread_metadata number c user ≡ (
          if leb 1 n || has_activity c
          then with_metadata c n (has_activity c)
          else with_metadata c
              (if is_unread_by_cursor c user then 1 else 0)
              (is_unread_by_cursor c user))
  unfolding normalize_conversation_unread_metadata max_zero
  normalized c user n count = rw (count) refl

  -- Normalizing a conversation whose count is not negative changes nothing in whether a user that is
  -- signed in sees it as unread, by the count, the flag of new activity or the read cursor.
  pub normalize_conversation_unread_metadata-is_conversation_unread :
      (c : Value) (x : String) (n : ℕ)
      → is_truthy (str x) ≡ true
      → raw_count number c ≡ pos n
      → is_conversation_unread number
          (normalize_conversation_unread_metadata number c (str x))
          false
          (str x)
        ≡ is_conversation_unread number c false (str x)
  normalize_conversation_unread_metadata-is_conversation_unread c x n h count =
      rw (verdict_counted c (str x) n count, normalized c (str x) n count)
        (elim (Bool-cases (leb 1 n || has_activity c)) [
          | inl counted ↦ rw (counted, verdict-with_metadata c (str x) n (has_activity c)) refl
          | inr uncounted ↦
              rw
                (
                  uncounted,
                  verdict-with_metadata c (str x) (if is_unread_by_cursor c (str x) then 1 else 0)
                      (is_unread_by_cursor c (str x)),
                  is_unread_by_cursor-is_behind c x h,
                )
                (ground arith)
        ])
