-- ===== src/ReadState/Advance.antt =====
-- The cursor of readReceiptStateLua.ts over a sequence of reads.
use text.Mathlib.TextEquality.{eq_iff}
use cse356_discord.Common.{
  ℕ, ◌<◌, ◌≡◌, refl, ◌∙◌, String, true, false, inl, inr, Option, none, some, List, [], ◌∷◌, arith,
  max, if◌then◌else◌, ◌==◌, string_eq, ==_refl, contains, without, insert, map_get, map_set,
  map_get-map_set, map_get-map_delete, map_get-map_set_self, Bool-cases, ap,
}
use cse356_discord.ReadState.{
  Stores, Advanced, is_ahead, read_cursor_advance, lock_expires, cursor_expires, pending_expires,
  advance_read_state_cursor, pending_of,
}

-- A read that is reported, or the end of a key's lifetime.
pub data ReadEvent : Type 0 where
  reads : String → ℕ → String → ReadEvent
  lock_ends cursor_ends pending_ends : String → ReadEvent

unfoldable pub read_event : ReadEvent → Stores → Stores
read_event (reads key new_ts msg_id) s = (advance_read_state_cursor key new_ts msg_id s).0
read_event (lock_ends key) s = lock_expires key s
read_event (cursor_ends key) s = cursor_expires key s
read_event (pending_ends key) s = pending_expires key s

unfoldable pub read_events : List ReadEvent → Stores → Stores
read_events [] s = s
read_events (e ∷ es) s = read_events es (read_event e s)

abbrev or_zero : Option ℕ → ℕ
or_zero none = 0
or_zero (some t) = t

-- Where the cursor of a key stands, 0 if there is none.
abbrev pub cursor_at : String → Stores → ℕ
cursor_at key s = or_zero (map_get key s.cursors)

-- The latest time among the reads of a key since its cursor last expired, and `t` if it did not.
abbrev pub latest : String → List ReadEvent → ℕ → ℕ
latest key [] t = t
latest key (reads j new_ts msg_id ∷ es) t = latest key es (if j == key then max t new_ts else t)
latest key (cursor_ends j ∷ es) t = latest key es (if j == key then 0 else t)
latest key (_ ∷ es) t = latest key es t

abbrev next_cursors : String → ℕ → Stores → List (String × ℕ)
next_cursors key new_ts s =
    if is_ahead (map_get key s.cursors) new_ts then s.cursors else map_set key new_ts s.cursors

advance-cursors :
    (key : String) (new_ts : ℕ) (msg_id : String) (s : Stores)
    → (advance_read_state_cursor key new_ts msg_id s).0.cursors ≡ next_cursors key new_ts s
unfolding advance_read_state_cursor read_cursor_advance
advance-cursors key new_ts msg_id s = elim (Bool-cases (is_ahead (map_get key s.cursors) new_ts)) [
  | inl behind ↦ rw behind refl
  | inr ahead ↦ elim (Bool-cases (contains s.locks key)) [
    | inl locked ↦ rw (ahead, locked) refl
    | inr unlocked ↦ rw (ahead, unlocked) refl
  ]
]

is_ahead-max : (o : Option ℕ) (t : ℕ) → is_ahead o t ≡ true → or_zero o ≡ max (or_zero o) t
is_ahead-max none t h = cc
is_ahead-max (some c) t h = ground arith

not_ahead-max : (o : Option ℕ) (t : ℕ) → is_ahead o t ≡ false → t ≡ max (or_zero o) t
not_ahead-max none t h = omega arith
not_ahead-max (some c) t h = ground arith

read-cursor :
    (k j : String) (new_ts : ℕ) (msg_id : String) (s : Stores)
    → cursor_at k (advance_read_state_cursor j new_ts msg_id s).0
      ≡ (if j == k then max (cursor_at k s) new_ts else cursor_at k s)
read-cursor k j new_ts msg_id s =
    ap (λ (m : List (String × ℕ)). or_zero (map_get k m)) (advance-cursors j new_ts msg_id s)
    ∙ elim (Bool-cases (is_ahead (map_get j s.cursors) new_ts)) [
      | inl behind ↦ rw behind (elim (Bool-cases (j == k)) [
        | inl same ↦
            let there : is_ahead (map_get k s.cursors) new_ts ≡ true =
              rw ((eq_iff j k).0 same) at behind in
            rw same (is_ahead-max (map_get k s.cursors) new_ts there)
        | inr other ↦ rw other refl
      ])
      | inr ahead ↦
          rw (ahead, map_get-map_set j k new_ts s.cursors)
            (elim (Bool-cases (j == k)) [
              | inl same ↦
                  let there : is_ahead (map_get k s.cursors) new_ts ≡ false =
                    rw ((eq_iff j k).0 same) at ahead in
                  rw same (not_ahead-max (map_get k s.cursors) new_ts there)
              | inr other ↦ rw other refl
            ])
    ]

expired-cursor :
    (key j : String) (s : Stores)
    → cursor_at key (cursor_expires j s) ≡ (if j == key then 0 else cursor_at key s)
unfolding cursor_expires
expired-cursor key j s =
    ap or_zero (map_get-map_delete j key s.cursors)
    ∙ elim (Bool-cases (j == key)) [ inl same ↦ rw same refl | inr other ↦ rw other refl ]

-- After any reads, by whichever process and in whatever order, and any ends of locks, pending hashes and
-- cursors, the cursor of a key stands at the latest time that was read there since it last expired: but
-- for an expiry it never goes back and forgets none. A key with no cursor counts as time 0.
pub read_events-latest :
    (key : String) (es : List ReadEvent) (s : Stores)
    → cursor_at key (read_events es s) ≡ latest key es (cursor_at key s)
unfolding read_events read_event lock_expires cursor_expires pending_expires
read_events-latest key [] s = refl
read_events-latest key (reads j new_ts msg_id ∷ es) s =
    read_events-latest key es (advance_read_state_cursor j new_ts msg_id s).0
    ∙ ap (latest key es) (read-cursor key j new_ts msg_id s)
read_events-latest key (lock_ends j ∷ es) s = read_events-latest key es (lock_expires j s)
read_events-latest key (pending_ends j ∷ es) s = read_events-latest key es (pending_expires j s)
read_events-latest key (cursor_ends j ∷ es) s =
    read_events-latest key es (cursor_expires j s) ∙ ap (latest key es) (expired-cursor key j s)

abbrev enqueued_at : String → ℕ → String → Stores → Stores
enqueued_at key t msg_id s = record s {
  cursors = map_set key t s.cursors;
  locks = key ∷ s.locks;
  pending = map_set key (pending_of msg_id t) s.pending;
  dirty = insert s.dirty key;
}

module _ (key : String) (t : ℕ) (msg_id : String) (s : Stores) where
  advance-enqueued :
      is_ahead (map_get key s.cursors) t ≡ false
      → contains s.locks key ≡ false
      → advance_read_state_cursor key t msg_id s ≡ (enqueued_at key t msg_id s, Advanced.enqueued)
  unfolding advance_read_state_cursor read_cursor_advance
  advance-enqueued ahead unlocked = rw (ahead, unlocked) refl

  advance-rate_limited :
      is_ahead (map_get key s.cursors) t ≡ false
      → contains s.locks key ≡ true
      → advance_read_state_cursor key t msg_id s
        ≡ (record s { cursors = map_set key t s.cursors }, Advanced.rate_limited)
  unfolding advance_read_state_cursor read_cursor_advance
  advance-rate_limited ahead locked = rw (ahead, locked) refl

  advance-behind :
      is_ahead (map_get key s.cursors) t ≡ true
      → advance_read_state_cursor key t msg_id s ≡ (s, Advanced.behind)
  unfolding advance_read_state_cursor read_cursor_advance
  advance-behind behind = rw behind refl

-- The second of two reads of a key, made while the lock of the first holds, moves the cursor but is not
-- left for the database; and a third report of the same message, even after the lock has gone but
-- before the cursor expires, finds the cursor there and leaves nothing either.
pub advance-rate_limited_lost :
    (key : String) (t1 t2 : ℕ) (m1 m2 : String) (s : Stores)
    → is_ahead (map_get key s.cursors) t1 ≡ false
    → contains s.locks key ≡ false
    → t1 < t2
    → let s1 : Stores = (advance_read_state_cursor key t1 m1 s).0 in
      let s2 : Stores = (advance_read_state_cursor key t2 m2 s1).0 in
      let s3 : Stores = lock_expires key s2 in
      (cursor_at key s2 ≡ t2)
      × (map_get key s2.pending ≡ some (pending_of m1 t1))
      × (advance_read_state_cursor key t2 m2 s3 ≡ (s3, Advanced.behind))
unfolding lock_expires
advance-rate_limited_lost key t1 t2 m1 m2 s ahead unlocked l =
    let first : Stores = enqueued_at key t1 m1 s in
    let second : Stores = record first { cursors = map_set key t2 first.cursors } in
    let third : Stores = record second { locks = without second.locks key } in
    let stands : map_get key first.cursors ≡ some t1 = map_get-map_set_self key t1 s.cursors in
    let on : map_get key second.cursors ≡ some t2 = map_get-map_set_self key t2 first.cursors in
    let held : contains first.locks key ≡ true = rw (==_refl key) refl in
    let later : is_ahead (map_get key first.cursors) t2 ≡ false = rw stands (ground arith) in
    let reached : is_ahead (map_get key second.cursors) t2 ≡ true = rw on (ground arith) in
    rw
      (advance-enqueued key t1 m1 s ahead unlocked, advance-rate_limited key t2 m2 first later held)
      (
        ap or_zero on,
        map_get-map_set_self key (pending_of m1 t1) s.pending,
        advance-behind key t2 m2 third reached,
      )
