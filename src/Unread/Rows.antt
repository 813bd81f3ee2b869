-- ===== src/Unread/Rows.antt =====
-- The rows of channels and conversations that chatStoreUnreadModel.ts patches by their id.
use text.Mathlib.TextEquality.{eq_iff}
use cse356_discord.Common.{
  ◌≡◌, refl, String, Bool, true, false, ◌||◌, Option, none, some, List, [], ◌∷◌, map, arith,
  if◌then◌else◌, ◌==◌, string_eq, nat_eq, ◌∙◌, inl, inr, Bool-cases, Option-cases,
}
use cse356_discord.Value.{Value, str, Fields, field, end, get_field}
use cse356_discord.Unread.{
  strict_eq, patched, with_field, find_row, patch_at, patch_channel_row_by_id,
}
use cse356_discord.Unread.Values.{get_field-with_field}

-- `name in patch`
abbrev pub mentions : String → Fields → Bool
mentions name end = false
mentions name (field k v patch) = (k == name) || mentions name patch

-- The rows seen as a map from ids: the first row with the id.
abbrev pub row_of : String → List Value → Option Value
row_of id [] = none
row_of id (row ∷ rows) =
    if strict_eq (get_field "id" row) (str id) then some row else row_of id rows

abbrev pub patch_row : Fields → Option Value → Option Value
patch_row patch none = none
patch_row patch (some row) = some (patched row patch)

abbrev pub id_field : Value → Value
id_field row = get_field "id" row

pub get_field-patched :
    (k : String) (patch : Fields) (row : Value)
    → mentions k patch ≡ false
    → get_field k (patched row patch) ≡ get_field k row
unfolding patched
get_field-patched k end row h = refl
get_field-patched k (field name v patch) row h =
    get_field-patched k patch (with_field name v row) (ground arith)
    ∙ ground (arith, get_field-with_field k name v row)

same_text : (v : Value) (a b : String) → strict_eq v (str a) ≡ true → strict_eq v (str b) ≡ (a == b)
unfolding strict_eq
same_text (str s) a b h = ground (arith, eq_iff s a, eq_iff s b, eq_iff a b)
same_text _ a b h = ground arith

pub patch_at-here :
    (id : String) (patch : Fields) (row : Value) (rows : List Value)
    → strict_eq (get_field "id" row) (str id) ≡ true
    → patch_at (find_row id (row ∷ rows)) patch (row ∷ rows) ≡ patched row patch ∷ rows
unfolding find_row patch_at
patch_at-here id patch row rows h = rw h refl

pub patch_at-later :
    (id : String) (patch : Fields) (row : Value) (rows : List Value)
    → strict_eq (get_field "id" row) (str id) ≡ false
    → patch_at (find_row id (row ∷ rows)) patch (row ∷ rows)
      ≡ row ∷ patch_at (find_row id rows) patch rows
unfolding find_row patch_at
patch_at-later id patch row rows h = rw h (elim (Option-cases (find_row id rows)) [
  | inl absent ↦ rw absent refl
  | inr (i, found) ↦ rw found refl
])

row_of-patch_at :
    (k id : String) (patch : Fields) (rows : List Value)
    → mentions "id" patch ≡ false
    → row_of k (patch_at (find_row id rows) patch rows)
      ≡ (if id == k then patch_row patch (row_of k rows) else row_of k rows)
unfolding find_row patch_at
row_of-patch_at k id patch [] h = ground arith
row_of-patch_at k id patch (row ∷ rows) h =
    elim (Bool-cases (strict_eq (get_field "id" row) (str id))) [
      | inl here ↦
          rw
            (
              patch_at-here id patch row rows here,
              get_field-patched "id" patch row h,
              same_text (get_field "id" row) id k here,
            )
            (ground arith)
      | inr later ↦
          rw (patch_at-later id patch row rows later, row_of-patch_at k id patch rows h)
            (ground (arith, later, eq_iff id k))
    ]

ids-patch_at :
    (id : String) (patch : Fields) (rows : List Value)
    → mentions "id" patch ≡ false
    → map id_field (patch_at (find_row id rows) patch rows) ≡ map id_field rows
unfolding find_row patch_at
ids-patch_at id patch [] h = refl
ids-patch_at id patch (row ∷ rows) h = elim (Bool-cases (strict_eq (get_field "id" row) (str id))) [
  | inl here ↦ rw (patch_at-here id patch row rows here, get_field-patched "id" patch row h) refl
  | inr later ↦ rw (patch_at-later id patch row rows later, ids-patch_at id patch rows h) refl
]

-- Seen as a map from ids to rows, a patch that names no id changes the row of its id and no other, and
-- the ids of the list stay as they are, in order; an id that no row has changes nothing.
pub patch_channel_row_by_id-refines :
    (rows : List Value) (id k : String) (patch : Fields)
    → mentions "id" patch ≡ false
    → (row_of k (patch_channel_row_by_id rows id patch)
        ≡ (if id == k then patch_row patch (row_of k rows) else row_of k rows))
      × (map id_field (patch_channel_row_by_id rows id patch) ≡ map id_field rows)
unfolding patch_channel_row_by_id
patch_channel_row_by_id-refines rows id k patch h =
    (row_of-patch_at k id patch rows h, ids-patch_at id patch rows h)
