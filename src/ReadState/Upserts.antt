-- ===== src/ReadState/Upserts.antt =====
-- What READ_STATE_BATCH_UPSERT_SQL of batchReadState.ts does to the row of a key.
use text.Mathlib.TextEquality.{eq_iff}
use cse356_discord.Common.{
  ℕ, ◌≤◌, ◌≡◌, refl, String, Bool, true, false, ◌&&◌, inl, inr, Option, none, some, List, [], ◌∷◌,
  arith, ◌==◌, string_eq, max, map_get, map_get-map_set, map_get-map_set_self, Bool-cases,
}
use cse356_discord.ReadState.{Pending, Row, may_update, row_of, upsert_row, upsert_rows}
use cse356_discord.ReadState.Batches.{AreOf}

abbrev pub row_time : Option Row → ℕ
row_time none = 0
row_time (some row) = elim row.last_read_message_created_at [ none ↦ 0 | some t ↦ t ]

-- The time up to which a key's row says it was read, 0 if it says nothing.
abbrev pub time_at : String → List (String × Row) → ℕ
time_at key rows = row_time (map_get key rows)

may_update-le : (o : Option Row) (at : ℕ) → may_update o at ≡ true → row_time o ≤ at
may_update-le none at h = omega arith
may_update-le (some row) at h = ground arith

not_may_update-le : (o : Option Row) (at : ℕ) → may_update o at ≡ false → at ≤ row_time o
not_may_update-le none at h = cc
not_may_update-le (some row) at h = ground arith

module _ (exists : String → Bool) (key : String) where
  upsert_row_mono :
      (j : String) (p : Pending) (rows : List (String × Row))
      → time_at key rows ≤ time_at key (upsert_row exists j p rows)
  unfolding upsert_row
  upsert_row_mono j p rows =
      elim (Bool-cases (exists p.msg_id && may_update (map_get j rows) p.msg_created_at)) [
        | inr kept ↦ rw kept (omega arith)
        | inl moved ↦
            rw (moved, map_get-map_set j key (row_of p) rows)
              (elim (Bool-cases (j == key)) [
                | inr other ↦ rw other (omega arith)
                | inl same ↦
                    let may : may_update (map_get j rows) p.msg_created_at ≡ true = ground arith in
                    let le : row_time (map_get j rows) ≤ p.msg_created_at =
                      may_update-le (map_get j rows) p.msg_created_at may in
                    rw same (rw ((eq_iff j key).0 same) at le)
              ])
      ]

  -- The row of a key never goes back in time, whatever batch is written.
  pub upsert_rows_mono :
      (ps : List (String × Pending)) (rows : List (String × Row))
      → time_at key rows ≤ time_at key (upsert_rows exists ps rows)
  unfolding upsert_rows
  upsert_rows_mono [] rows = omega arith
  upsert_rows_mono ((j, p) ∷ ps) rows =
      omega (arith, upsert_row_mono j p rows, upsert_rows_mono ps (upsert_row exists j p rows))

  upsert_row-reaches :
      (p : Pending) (rows : List (String × Row))
      → exists p.msg_id ≡ true
      → p.msg_created_at ≤ time_at key (upsert_row exists key p rows)
  unfolding upsert_row
  upsert_row-reaches p rows there =
      elim (Bool-cases (may_update (map_get key rows) p.msg_created_at)) [
        | inl moves ↦ rw (there, moves, map_get-map_set_self key (row_of p) rows) (omega arith)
        | inr stays ↦
            rw (there, stays) (not_may_update-le (map_get key rows) p.msg_created_at stays)
      ]

  pub upsert_rows-reaches :
      (p : Pending) (ps : List (String × Pending)) (rows : List (String × Row))
      → exists p.msg_id ≡ true
      → map_get key ps ≡ some p
      → p.msg_created_at ≤ time_at key (upsert_rows exists ps rows)
  unfolding upsert_rows
  upsert_rows-reaches p [] rows there h = cc
  upsert_rows-reaches p ((j, q) ∷ ps) rows there h = elim (Bool-cases (j == key)) [
    | inr other ↦ upsert_rows-reaches p ps (upsert_row exists j q rows) there (rw other at h)
    | inl same ↦
        let found : some q ≡ some p = rw same at h in
        let is_p : q ≡ p = cc in
        rw ((eq_iff j key).0 same, is_p)
          (omega (
            arith,
            upsert_row-reaches p rows there,
            upsert_rows_mono ps (upsert_row exists key p rows),
          ))
  ]

upsert_row-other :
    (exists : String → Bool) (key j : String) (p : Pending) (rows : List (String × Row))
    → (j == key) ≡ false
    → map_get key (upsert_row exists j p rows) ≡ map_get key rows
unfolding upsert_row
upsert_row-other exists key j p rows other =
    elim (Bool-cases (exists p.msg_id && may_update (map_get j rows) p.msg_created_at)) [
      | inl moved ↦ rw (moved, map_get-map_set j key (row_of p) rows, other) refl
      | inr kept ↦ rw kept refl
    ]

pub upsert_rows-absent :
    (exists : String → Bool) (key : String) (ps : List (String × Pending))
    (rows : List (String × Row))
    → map_get key ps ≡ none
    → map_get key (upsert_rows exists ps rows) ≡ map_get key rows
unfolding upsert_rows
upsert_rows-absent exists key [] rows h = refl
upsert_rows-absent exists key ((j, p) ∷ ps) rows h = elim (Bool-cases (j == key)) [
  | inl same ↦ let found : some p ≡ none = rw same at h in absurd (ground (arith, found))
  | inr other ↦
      rw
        (
          upsert_rows-absent exists key ps (upsert_row exists j p rows) (rw other at h),
          upsert_row-other exists key j p rows other,
        )
        refl
]

upsert_row-le :
    (exists : String → Bool) (key : String) (p : Pending) (rows : List (String × Row))
    → time_at key (upsert_row exists key p rows) ≤ max (time_at key rows) p.msg_created_at
unfolding upsert_row
upsert_row-le exists key p rows =
    elim (Bool-cases (exists p.msg_id && may_update (map_get key rows) p.msg_created_at)) [
      | inl moved ↦ rw (moved, map_get-map_set_self key (row_of p) rows) (omega arith)
      | inr kept ↦ rw kept (omega arith)
    ]

-- A batch whose rows are the pending hashes leaves a key's row no later than its hash says.
pub upsert_rows-le :
    (exists : String → Bool) (key : String) (pending : List (String × Pending)) (p : Pending)
    (ps : List (String × Pending)) (rows : List (String × Row))
    → AreOf pending ps
    → map_get key pending ≡ some p
    → time_at key (upsert_rows exists ps rows) ≤ max (time_at key rows) p.msg_created_at
unfolding upsert_rows
upsert_rows-le exists key pending p [] rows v h = omega arith
upsert_rows-le exists key pending p ((j, q) ∷ ps) rows (here, v) h = elim (Bool-cases (j == key)) [
  | inl same ↦
      let its : map_get key pending ≡ some q = rw ((eq_iff j key).0 same) at here in
      let is_p : q ≡ p = ground (arith, its, h) in
      rw ((eq_iff j key).0 same, is_p)
        (omega (
          arith,
          upsert_rows-le exists key pending p ps (upsert_row exists key p rows) v h,
          upsert_row-le exists key p rows,
        ))
  | inr other ↦
      let rest = upsert_rows-le exists key pending p ps (upsert_row exists j q rows) v h in
      rw (upsert_row-other exists key j q rows other) at rest
]
