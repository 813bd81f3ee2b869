-- ===== src/MessageList/Page.antt =====
-- chatStoreMessageList.ts: mergeLatestPageWithExisting loses no message.
use cse356_discord.Common.{
  ℕ, ◌≡◌, refl, ap, ◌∙◌, String, Bool, false, ◌||◌, inl, inr, Option, none, some, List, [], ◌∷◌,
  contains, arith, ◌==◌, string_eq, Bool-cases, Option-cases, map_get, map_set, map_get-map_set,
  HasDistinctKeys, All,
}
use cse356_discord.Value.{Value, as_string}
use cse356_discord.MessageList.{
  Message, id_of, prop, spread, put_all, latest, overlaid, values_of, insert_sorted, is_not_after,
  sort_messages_chronologically, merge_latest_page_with_existing,
}
use cse356_discord.MessageList.Sorted.{IsOrder, IsSorted, sort-IsSorted}
use cse356_discord.MessageList.Merge.{ids}

map_get-spread_absent :
    (k : String) (a b : Message) → map_get k b ≡ none → map_get k (spread a b) ≡ map_get k a
unfolding spread
map_get-spread_absent k a [] h = refl
map_get-spread_absent k a ((j, w) ∷ b) h = elim (Bool-cases (j == k)) [
  | inl same ↦ absurd (ground (arith, rw same at h))
  | inr other ↦
      map_get-spread_absent k (map_set j w a) b (rw other at h)
      ∙ (map_get-map_set j k w a ∙ rw other refl)
]

-- The later object's property wins.
map_get-spread :
    (k : String) (v : Value) (a b : Message)
    → HasDistinctKeys b
    → map_get k b ≡ some v
    → map_get k (spread a b) ≡ some v
unfolding spread
map_get-spread k v a [] d h = absurd (ground (arith, h))
map_get-spread k v a ((j, w) ∷ b) (free, d) h = elim (Bool-cases (j == k)) [
  | inl same ↦
      map_get-spread_absent k (map_set j w a) b (rw ((string_eq.beq_iff j k).0 same) at free)
      ∙ (map_get-map_set j k w a ∙ rw same (rw same at h))
  | inr other ↦ map_get-spread k v (map_set j w a) b d (rw other at h)
]

id_of-spread :
    (a m : Message) → HasDistinctKeys m → (id_of m == "") ≡ false → id_of (spread a m) ≡ id_of m
unfolding id_of prop as_string
id_of-spread a m d named = elim (Option-cases (map_get "id" m)) [
  | inl absent ↦ absurd (ground (arith, rw (id_of, prop, absent) at named))
  | inr (v, there) ↦ rw (id_of, prop, map_get-spread "id" v a m d there, there) refl
]

abbrev keys : List (String × Message) → List String
keys [] = []
keys ((k, m) ∷ rows) = k ∷ keys rows

-- Each message stands under its id.
abbrev IsKeyed : List (String × Message) → Type 0
IsKeyed [] = Unit
IsKeyed ((k, m) ∷ rows) = (id_of m ≡ k) × IsKeyed rows

ids-values_of : (rows : List (String × Message)) → IsKeyed rows → ids (values_of rows) ≡ keys rows
ids-values_of [] h = refl
ids-values_of ((k, m) ∷ rows) (e, h) = rw (e, ids-values_of rows h) refl

map_set-IsKeyed :
    (k : String) (m : Message) (rows : List (String × Message))
    → id_of m ≡ k
    → IsKeyed rows
    → IsKeyed (map_set k m rows)
map_set-IsKeyed k m [] e h = (e, tt)
map_set-IsKeyed k m ((j, n) ∷ rows) e (f, h) = elim (Bool-cases (j == k)) [
  | inl same ↦ rw same (e, h)
  | inr other ↦ rw other (f, map_set-IsKeyed k m rows e h)
]

contains-keys-map_set :
    (k id : String) (m : Message) (rows : List (String × Message))
    → contains (keys (map_set k m rows)) id ≡ (id == k || contains (keys rows) id)
contains-keys-map_set k id m [] = refl
contains-keys-map_set k id m ((j, n) ∷ rows) = elim (Bool-cases (j == k)) [
  | inl same ↦ rw same (
      ground
        (arith, (string_eq.beq_iff j k).0 same, string_eq.beq_iff id k, string_eq.beq_iff id j))
  | inr other ↦ rw other (ground (arith, contains-keys-map_set k id m rows))
]

module _ (combine : Option Message → Message → Message) (P : Message → Type 0)
    (keeps : (prev : Option Message) (m : Message)
      → P m
      → (id_of m == "") ≡ false
      → id_of (combine prev m) ≡ id_of m) where
  put_all-IsKeyed :
      (ms : List Message) (rows : List (String × Message))
      → All P ms
      → IsKeyed rows
      → IsKeyed (put_all combine ms rows)
  unfolding put_all
  put_all-IsKeyed [] rows p h = h
  put_all-IsKeyed (m ∷ ms) rows (p, ps) h = elim (Bool-cases (id_of m == "")) [
    | inl blank ↦ rw blank (put_all-IsKeyed ms rows ps h)
    | inr named ↦ rw named (
        put_all-IsKeyed ms _ ps (
          map_set-IsKeyed (id_of m) (combine (map_get (id_of m) rows) m) rows
            (keeps (map_get (id_of m) rows) m p named) h))
  ]

contains-keys-put_all :
    (combine : Option Message → Message → Message) (ms : List Message)
    (rows : List (String × Message)) (id : String)
    → (id == "") ≡ false
    → contains (keys (put_all combine ms rows)) id
      ≡ (contains (ids ms) id || contains (keys rows) id)
unfolding put_all
contains-keys-put_all combine [] rows id real = refl
contains-keys-put_all combine (m ∷ ms) rows id real = elim (Bool-cases (id_of m == "")) [
  | inl blank ↦ rw blank (
      ground (
        arith,
        contains-keys-put_all combine ms rows id real,
        blank,
        real,
        string_eq.beq_iff id (id_of m),
      ))
  | inr named ↦ rw named (
      contains-keys-put_all combine ms _ id real
      ∙ ground
          (arith, contains-keys-map_set (id_of m) id (combine (map_get (id_of m) rows) m) rows))
]

module _ (date_ms : Value → Option ℕ) (locale_le : String → String → Bool) where
  contains-ids-insert_sorted :
      (m : Message) (ms : List Message) (id : String)
      → contains (ids (insert_sorted date_ms locale_le m ms)) id
        ≡ (id == id_of m || contains (ids ms) id)
  unfolding insert_sorted
  contains-ids-insert_sorted m [] id = refl
  contains-ids-insert_sorted m (n ∷ ns) id =
      elim (Bool-cases (is_not_after date_ms locale_le m n)) [
        | inl before ↦ rw before refl
        | inr after ↦ rw after (ground (arith, contains-ids-insert_sorted m ns id))
      ]

  contains-ids-sort :
      (ms : List Message) (id : String)
      → contains (ids (sort_messages_chronologically date_ms locale_le ms)) id
        ≡ contains (ids ms) id
  unfolding sort_messages_chronologically
  contains-ids-sort [] id = refl
  contains-ids-sort (m ∷ ms) id =
      contains-ids-insert_sorted m (sort_messages_chronologically date_ms locale_le ms) id
      ∙ rw (contains-ids-sort ms id) refl

All-Unit : (ms : List Message) → All (λ m. Unit {0}) ms
All-Unit [] = tt
All-Unit (m ∷ ms) = (tt, All-Unit ms)

overlaid-id_of :
    (prev : Option Message) (m : Message)
    → HasDistinctKeys m
    → (id_of m == "") ≡ false
    → id_of (overlaid prev m) ≡ id_of m
overlaid-id_of none m d named = refl
overlaid-id_of (some prev) m d named = id_of-spread prev m d named

-- If localeCompare orders the texts and the properties of each message of the page have distinct
-- names, the merge is sorted, and it has a message with a given id, not blank, just when the page
-- or the local list has one: none is lost.
pub merge_latest_page_with_existing-ids :
    (date_ms : Value → Option ℕ) (locale_le : String → String → Bool)
    → IsOrder locale_le
    → (local server : List Message) (id : String) → All HasDistinctKeys server
    → (id == "") ≡ false
    → IsSorted date_ms locale_le (merge_latest_page_with_existing date_ms locale_le local server)
      × (contains (ids (merge_latest_page_with_existing date_ms locale_le local server)) id
          ≡ (contains (ids server) id || contains (ids local) id))
unfolding merge_latest_page_with_existing
merge_latest_page_with_existing-ids date_ms locale_le order local server id distinct real =
    let first : List (String × Message) = put_all latest local [] in
    let rows : List (String × Message) = put_all overlaid server first in
    let first_keyed : IsKeyed first =
      put_all-IsKeyed latest (λ m. Unit) (λ prev m p named. refl) local [] (All-Unit local) tt in
    let keyed : IsKeyed rows =
      put_all-IsKeyed overlaid HasDistinctKeys overlaid-id_of server first distinct first_keyed in
    (
      sort-IsSorted date_ms locale_le order (values_of rows),
      contains-ids-sort date_ms locale_le (values_of rows) id
          ∙ (ap (λ xs. contains xs id) (ids-values_of rows keyed)
              ∙ (contains-keys-put_all overlaid server first id real
                  ∙ rw (contains-keys-put_all latest local [] id real) (ground arith))),
    )
