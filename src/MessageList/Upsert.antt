-- ===== src/MessageList/Upsert.antt =====
-- chatStoreMessageList.ts: upsertMessageChronologically is insertion into the sorted list.
use cse356_discord.Common.{
  ℕ, zero, suc, ◌+◌, ◌-◌, ◌/◌, ◌≤◌, ◌<◌, ◌≡◌, refl, ap, sym, subst, ◌∙◌, String, Bool, true, inl,
  inr, Option, none, some, List, [], ◌∷◌, length, get_elem?, All, arith, if◌then◌else◌, ltb, leb,
  nat_eq, string_eq, Bool-cases,
}
use cse356_discord.Value.{Value}
use cse356_discord.MessageList.{
  Message, id_of, insert_sorted, find_index, search_place, splice_in,
  upsert_message_chronologically,
}
use cse356_discord.MessageList.Sorted.{
  IsOrder, earlier, IsSorted, is_not_after_trans, insert_sorted-IsSorted,
}

get_elem?-lt :
    (ms : List Message) (i : ℕ) → i < length ms → (m : Message) × (get_elem? ms i ≡ some m)
get_elem?-lt [] i h = absurd (omega arith)
get_elem?-lt (m ∷ ms) zero h = (m, refl)
get_elem?-lt (m ∷ ms) (suc i) h = get_elem?-lt ms i (omega arith)

All-get_elem? :
    (P : Message → Type 0) (ms : List Message) (i : ℕ) (m : Message)
    → All P ms
    → get_elem? ms i ≡ some m
    → P m
All-get_elem? P [] i m h e = cc
All-get_elem? P (n ∷ ns) zero m (p, h) e = let same : n ≡ m = ground arith in subst P same p
All-get_elem? P (n ∷ ns) (suc i) m (p, h) e = All-get_elem? P ns i m h e

module _ (date_ms : Value → Option ℕ) (locale_le : String → String → Bool) where
  abbrev before : Message → Message → Bool
  before = earlier date_ms locale_le

  -- The first place whose message the new one is not after.
  unfoldable place : Message → List Message → ℕ
  place x [] = 0
  place x (m ∷ ms) = if before x m then 0 else suc (place x ms)

  place-le : (x : Message) (ms : List Message) → place x ms ≤ length ms
  unfolding place
  place-le x [] = omega arith
  place-le x (m ∷ ms) = ground (arith, place-le x ms)

  splice_in-place :
      (x : Message) (ms : List Message)
      → splice_in x ms (place x ms) ≡ insert_sorted date_ms locale_le x ms
  unfolding splice_in insert_sorted place
  splice_in-place x [] = refl
  splice_in-place x (m ∷ ms) = elim (Bool-cases (before x m)) [
    | inl yes_before ↦ rw yes_before refl
    | inr after ↦ rw after (ap (λ r. m ∷ r) (splice_in-place x ms))
  ]

  module _ (order : IsOrder locale_le) where
    -- In a sorted list the comparison at a place tells on which side of it the new message's place is.
    before-at :
        (x : Message) (ms : List Message) (i : ℕ) (m : Message)
        → IsSorted date_ms locale_le ms
        → get_elem? ms i ≡ some m
        → before x m ≡ leb (place x ms) i
    unfolding place
    before-at x [] i m h e = cc
    before-at x (n ∷ ns) zero m h e =
        let same : n ≡ m = ground arith in
        rw (sym same) (elim (Bool-cases (before x n)) [
          | inl first ↦ rw first (ground arith)
          | inr later ↦ rw later (ground arith)
        ])
    before-at x (n ∷ ns) (suc i) m (all, h) e = elim (Bool-cases (before x n)) [
      | inl first ↦ rw first (
          is_not_after_trans date_ms locale_le order x n m first
            (All-get_elem? (λ z. before n z ≡ true) ns i m all e)
          ∙ ground arith)
      | inr later ↦ rw later (before-at x ns i m h e ∙ ground arith)
    ]

    search_place-place :
        (fuel : ℕ) (x : Message) (ms : List Message) (lo hi : ℕ)
        → IsSorted date_ms locale_le ms
        → lo ≤ place x ms
        → place x ms ≤ hi
        → hi ≤ length ms
        → hi ≤ lo + fuel
        → search_place date_ms locale_le fuel x ms lo hi ≡ place x ms
    unfolding search_place
    search_place-place zero x ms lo hi h a b c d = omega arith
    search_place-place (suc fuel) x ms lo hi h a b c d = elim (Bool-cases (ltb lo hi)) [
      | inr ended ↦ rw ended (ground arith)
      | inl unfinished ↦
          let mid : ℕ = (lo + (hi - 1)) / 2 in
          let within : mid < hi = ground arith in
          let above : lo ≤ mid = ground arith in
          let (m, there) = get_elem?-lt ms mid (omega arith) in
          elim (Bool-cases (before x m)) [
            | inl left ↦
                rw (unfinished, there, left)
                  (search_place-place fuel x ms lo mid h a
                    (ground (arith, sym (before-at x ms mid m h there) ∙ left)) (omega arith)
                    (omega arith))
            | inr right ↦
                rw (unfinished, there, right)
                  (search_place-place fuel x ms (mid + 1) hi h
                    (ground (arith, sym (before-at x ms mid m h there) ∙ right)) b c (omega arith))
          ]
    ]

-- If localeCompare orders the texts, then in a sorted list the binary search finds the place of a
-- message whose id is not in the list: the result is that of walking the list up to the first
-- message that the new one is not after, and it is sorted.
pub upsert_message_chronologically-insert_sorted :
    (date_ms : Value → Option ℕ) (locale_le : String → String → Bool)
    → IsOrder locale_le
    → (ms : List Message) (x : Message) → IsSorted date_ms locale_le ms
    → find_index (id_of x) ms ≡ none
    → (upsert_message_chronologically date_ms locale_le ms x ≡ insert_sorted date_ms locale_le x ms)
      × IsSorted date_ms locale_le (upsert_message_chronologically date_ms locale_le ms x)
unfolding upsert_message_chronologically
upsert_message_chronologically-insert_sorted date_ms locale_le order ms x h new =
    let found : search_place date_ms locale_le (length ms) x ms 0 (length ms)
        ≡ place date_ms locale_le x ms =
      search_place-place date_ms locale_le order (length ms) x ms 0 (length ms) h (omega arith)
        (place-le date_ms locale_le x ms) (omega arith) (omega arith) in
    let same : upsert_message_chronologically date_ms locale_le ms x
        ≡ insert_sorted date_ms locale_le x ms =
      rw (upsert_message_chronologically, new)
        (rw found (splice_in-place date_ms locale_le x ms)) in
    (same, rw same (insert_sorted-IsSorted date_ms locale_le order x ms h))
