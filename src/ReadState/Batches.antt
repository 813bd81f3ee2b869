-- ===== src/ReadState/Batches.antt =====
-- What the loop of batchReadState.ts over the results of a batch gathers of one key.
use text.Mathlib.TextEquality.{eq_iff}
use cse356_discord.Common.{
  ◌≡◌, refl, String, Bool, true, false, not, ◌&&◌, ◌||◌, ◌⊎◌, inl, inr, Option, none, some, List,
  [], ◌∷◌, arith, if◌then◌else◌, ◌==◌, string_eq, ==_refl, any, contains, contains-append, map_get,
  map_set, map_get-map_set, map_get-map_set_self, Bool-cases, Option-cases, leb,
}
use cse356_discord.ReadState.{
  Stores, Pending, Batch, newer, stale, note_result, collect, empty_batch, flush_read,
}

-- Some command of the batch answered for the key.
abbrev pub reads_key : String → List (String × Bool) → Bool
reads_key key commands = any (λ (c : String × Bool). (c.0 == key) && not c.1) commands

-- Some command of the batch was for the key.
abbrev pub asks_key : String → List (String × Bool) → Bool
asks_key key commands = any (λ (c : String × Bool). c.0 == key) commands

newer-same : (o : Option Pending) (p : Pending) → (o ≡ none) ⊎ (o ≡ some p) → newer o p ≡ p
newer-same o p (inl h) = rw h refl
newer-same o p (inr h) = rw h (ground arith)

note-other :
    (key j : String) (failed : Bool) (o : Option Pending) (b : Batch)
    → (j == key) ≡ false
    → map_get key (note_result j failed o b).newest_rows ≡ map_get key b.newest_rows
unfolding note_result
note-other key j true o b other = refl
note-other key j false none b other = refl
note-other key j false (some q) b other = elim (Bool-cases (q.msg_id == "")) [
  | inl blank ↦ rw blank refl
  | inr named ↦
      rw (named, map_get-map_set j key (newer (map_get j b.newest_rows) q) b.newest_rows, other)
        refl
]

-- A key with a hash that names a message.
module _ (key : String) (pending : List (String × Pending)) (p : Pending)
    (h : map_get key pending ≡ some p) (named : (p.msg_id == "") ≡ false) where
  note-here :
      (b : Batch)
      → (map_get key b.newest_rows ≡ none) ⊎ (map_get key b.newest_rows ≡ some p)
      → map_get key (note_result key false (map_get key pending) b).newest_rows ≡ some p
  unfolding note_result
  note-here b before =
      rw (h, named, newer-same (map_get key b.newest_rows) p before)
        (map_get-map_set_self key p b.newest_rows)

  collect-newest :
      (commands : List (String × Bool)) (b : Batch)
      → (map_get key b.newest_rows ≡ none) ⊎ (map_get key b.newest_rows ≡ some p)
      → map_get key (collect commands pending b).newest_rows
        ≡ (if reads_key key commands then some p else map_get key b.newest_rows)
  unfolding collect note_result
  collect-newest [] b before = refl
  collect-newest ((j, true) ∷ commands) b before =
      rw (collect-newest commands (stale j b) before) (ground arith)
  collect-newest ((j, false) ∷ commands) b before = elim (Bool-cases (j == key)) [
    | inl same ↦
        let next : Batch = note_result key false (map_get key pending) b in
        let here : map_get key next.newest_rows ≡ some p = note-here b before in
        rw ((eq_iff j key).0 same, ==_refl key, collect-newest commands next (inr here), here)
          (ground arith)
    | inr other ↦
        let next : Batch = note_result j false (map_get j pending) b in
        let same : map_get key next.newest_rows ≡ map_get key b.newest_rows =
          note-other key j false (map_get j pending) b other in
        let fine : (map_get key next.newest_rows ≡ none) ⊎ (map_get key next.newest_rows ≡ some p) =
          rw same before in
        rw (collect-newest commands next fine, same, other) refl
  ]

  pub flush_read-newest :
      (commands : List (String × Bool)) (s : Stores)
      → s.pending ≡ pending
      → reads_key key commands ≡ true
      → map_get key (flush_read commands s).newest_rows ≡ some p
  unfolding flush_read
  flush_read-newest commands s e there =
      rw (e, collect-newest commands empty_batch (inl refl), there) refl

collect-unread :
    (key : String) (pending : List (String × Pending)) (commands : List (String × Bool)) (b : Batch)
    → reads_key key commands ≡ false
    → map_get key (collect commands pending b).newest_rows ≡ map_get key b.newest_rows
unfolding collect note_result
collect-unread key pending [] b h = refl
collect-unread key pending ((j, true) ∷ commands) b h =
    collect-unread key pending commands (stale j b) (ground arith)
collect-unread key pending ((j, false) ∷ commands) b h =
    rw
      (
        collect-unread key pending commands (note_result j false (map_get j pending) b)
            (ground arith),
        note-other key j false (map_get j pending) b (ground arith),
      )
      refl

still_stale :
    (key j : String) (failed : Bool) (o : Option Pending) (b : Batch)
    → contains b.dirty_keys_stale key ≡ true
    → contains (note_result j failed o b).dirty_keys_stale key ≡ true
unfolding note_result
still_stale key j true o b h = rw (contains-append b.dirty_keys_stale (j ∷ []) key, h) refl
still_stale key j false none b h = rw (contains-append b.dirty_keys_stale (j ∷ []) key, h) refl
still_stale key j false (some q) b h = elim (Bool-cases (q.msg_id == "")) [
  | inl blank ↦ rw (blank, contains-append b.dirty_keys_stale (j ∷ []) key, h) refl
  | inr named ↦ rw named h
]

collect-stale :
    (key : String) (pending : List (String × Pending)) (commands : List (String × Bool)) (b : Batch)
    → reads_key key commands ≡ false
    → (contains b.dirty_keys_stale key || asks_key key commands) ≡ true
    → contains (collect commands pending b).dirty_keys_stale key ≡ true
unfolding collect note_result
collect-stale key pending [] b unread h = ground arith
collect-stale key pending ((j, true) ∷ commands) b unread h =
    collect-stale key pending commands (stale j b) (ground arith) (
      rw (contains-append b.dirty_keys_stale (j ∷ []) key)
        (ground (arith, eq_iff j key, eq_iff key j)))
collect-stale key pending ((j, false) ∷ commands) b unread h =
    collect-stale key pending commands (note_result j false (map_get j pending) b) (ground arith)
      (ground (arith, still_stale key j false (map_get j pending) b))

-- A key for which every command of the batch failed has no row, and counts as stale.
pub flush_read-unread :
    (key : String) (commands : List (String × Bool)) (s : Stores)
    → reads_key key commands ≡ false
    → asks_key key commands ≡ true
    → (map_get key (flush_read commands s).newest_rows ≡ none)
      × (contains (flush_read commands s).dirty_keys_stale key ≡ true)
unfolding flush_read
flush_read-unread key commands s unread asked = (
  collect-unread key s.pending commands empty_batch unread,
  collect-stale key s.pending commands empty_batch unread asked,
)

-- Every row of the batch is the pending hash of its key.
abbrev pub AreOf : List (String × Pending) → List (String × Pending) → Type 0
AreOf pending [] = Unit
AreOf pending ((j, q) ∷ ps) = (map_get j pending ≡ some q) × AreOf pending ps

module _ (pending : List (String × Pending)) where
  map_get-AreOf :
      (key : String) (q : Pending) (ps : List (String × Pending))
      → AreOf pending ps
      → map_get key ps ≡ some q
      → map_get key pending ≡ some q
  map_get-AreOf key q [] v h = absurd (ground arith)
  map_get-AreOf key q ((j, r) ∷ ps) (here, v) h = elim (Bool-cases (j == key)) [
    | inl same ↦
        let found : some r ≡ some q = rw same at h in
        rw (← found) (rw ((eq_iff j key).0 same) at here)
    | inr other ↦ map_get-AreOf key q ps v (rw other at h)
  ]

  map_set-AreOf :
      (key : String) (q : Pending) (ps : List (String × Pending))
      → AreOf pending ps
      → map_get key pending ≡ some q
      → AreOf pending (map_set key q ps)
  map_set-AreOf key q [] v h = (h, tt)
  map_set-AreOf key q ((j, r) ∷ ps) (here, v) h = elim (Bool-cases (j == key)) [
    | inl same ↦ rw same (h, v)
    | inr other ↦ rw other (here, map_set-AreOf key q ps v h)
  ]

  newer-AreOf :
      (key : String) (p : Pending) (ps : List (String × Pending))
      → AreOf pending ps
      → map_get key pending ≡ some p
      → map_get key pending ≡ some (newer (map_get key ps) p)
  newer-AreOf key p ps v h = elim (Option-cases (map_get key ps)) [
    | inl first ↦ rw first h
    | inr (prev, seen) ↦
        let before : map_get key pending ≡ some prev = map_get-AreOf key prev ps v seen in
        rw seen (elim (Bool-cases (leb prev.msg_created_at p.msg_created_at)) [
          | inl later ↦ rw later h
          | inr earlier ↦ rw earlier before
        ])
  ]

  note-AreOf :
      (key : String) (failed : Bool) (o : Option Pending) (b : Batch)
      → map_get key pending ≡ o
      → AreOf pending b.newest_rows
      → AreOf pending (note_result key failed o b).newest_rows
  unfolding note_result
  note-AreOf key true o b e v = v
  note-AreOf key false none b e v = v
  note-AreOf key false (some p) b e v = elim (Bool-cases (p.msg_id == "")) [
    | inl blank ↦ rw blank v
    | inr named ↦ rw named (
        map_set-AreOf key (newer (map_get key b.newest_rows) p) b.newest_rows v
          (newer-AreOf key p b.newest_rows v e))
  ]

  collect-AreOf :
      (commands : List (String × Bool)) (b : Batch)
      → AreOf pending b.newest_rows
      → AreOf pending (collect commands pending b).newest_rows
  unfolding collect
  collect-AreOf [] b v = v
  collect-AreOf ((j, failed) ∷ commands) b v =
      collect-AreOf commands (note_result j failed (map_get j pending) b)
        (note-AreOf j failed (map_get j pending) b refl v)

pub flush_read-AreOf :
    (commands : List (String × Bool)) (s : Stores)
    → AreOf s.pending (flush_read commands s).newest_rows
unfolding flush_read
flush_read-AreOf commands s = collect-AreOf s.pending commands empty_batch tt
