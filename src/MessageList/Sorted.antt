-- ===== src/MessageList/Sorted.antt =====
-- chatStoreMessageList.ts: the chronological order, and insertion into a sorted list.
use cse356_discord.Common.{
  ℕ, ◌≡◌, String, Bool, true, false, inl, inr, Option, List, [], ◌∷◌, All, arith, nat_eq, string_eq,
  Bool-cases,
}
use cse356_discord.Value.{Value}
use cse356_discord.MessageList.{
  Message, id_of, is_not_after, insert_sorted, sort_messages_chronologically,
}

-- What `localeCompare` documents: it orders all texts.
pub record IsOrder (le : String → String → Bool) : Type 0 where
  pub trans : (a b c : String) → le a b ≡ true → le b c ≡ true → le a c ≡ true
  pub total : (a b : String) → le a b ≡ false → le b a ≡ true

module _ (date_ms : Value → Option ℕ) (locale_le : String → String → Bool) where
  abbrev pub earlier : Message → Message → Bool
  earlier = is_not_after date_ms locale_le

  abbrev pub IsSorted : List Message → Type 0
  IsSorted [] = Unit
  IsSorted (m ∷ ms) = All (λ n. earlier m n ≡ true) ms × IsSorted ms

  module _ (order : IsOrder locale_le) where
    pub is_not_after_trans :
        (a b c : Message) → earlier a b ≡ true → earlier b c ≡ true → earlier a c ≡ true
    unfolding is_not_after
    is_not_after_trans a b c h k = ground (arith, order.trans (id_of a) (id_of b) (id_of c), h, k)

    pub is_not_after_total : (a b : Message) → earlier a b ≡ false → earlier b a ≡ true
    unfolding is_not_after
    is_not_after_total a b h = ground (arith, order.total (id_of a) (id_of b), h)

    All-insert_sorted :
        (P : Message → Type 0) (m : Message) (ms : List Message)
        → P m
        → All P ms
        → All P (insert_sorted date_ms locale_le m ms)
    unfolding insert_sorted
    All-insert_sorted P m [] p h = (p, tt)
    All-insert_sorted P m (n ∷ ns) p (q, h) = elim (Bool-cases (earlier m n)) [
      | inl before ↦ rw before (p, (q, h))
      | inr after ↦ rw after (q, All-insert_sorted P m ns p h)
    ]

    earlier-All :
        (m n : Message) (ns : List Message)
        → earlier m n ≡ true
        → All (λ x. earlier n x ≡ true) ns
        → All (λ x. earlier m x ≡ true) ns
    earlier-All m n [] h all = tt
    earlier-All m n (x ∷ xs) h (a, all) = (is_not_after_trans m n x h a, earlier-All m n xs h all)

    pub insert_sorted-IsSorted :
        (m : Message) (ms : List Message)
        → IsSorted ms
        → IsSorted (insert_sorted date_ms locale_le m ms)
    unfolding insert_sorted
    insert_sorted-IsSorted m [] h = (tt, tt)
    insert_sorted-IsSorted m (n ∷ ns) (all, h) = elim (Bool-cases (earlier m n)) [
      | inl before ↦ rw before ((before, earlier-All m n ns before all), (all, h))
      | inr after ↦ rw after (
        All-insert_sorted (λ x. earlier n x ≡ true) m ns (is_not_after_total m n after) all,
        insert_sorted-IsSorted m ns h,
      )
    ]

    pub sort-IsSorted :
        (ms : List Message) → IsSorted (sort_messages_chronologically date_ms locale_le ms)
    unfolding sort_messages_chronologically
    sort-IsSorted [] = tt
    sort-IsSorted (m ∷ ms) = insert_sorted-IsSorted m _ (sort-IsSorted ms)
