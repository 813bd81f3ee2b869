-- ===== src/Common/Maps.antt =====
-- A JavaScript `Map`: entries in insertion order. `set` on a present key keeps the entry's place.
use Prim.Native.Nat.{ℕ, ◌+◌, ◌≤◌}
use mathlib.Core.Path.{◌≡◌, refl, ◌∙◌, subst}
use mathlib.Core.Logic.{inl, inr}
use mathlib.Core.List.{List, [], ◌∷◌}
use mathlib.Core.Option.{Option, none, some}
use native.Mathlib.Omega.{arith}
use cse356_discord.Common.Tests.{if◌then◌else◌, Eq, ◌==◌, Bool-cases}
use cse356_discord.Common.Lists.{length}

abbrev pub size_of {κ} : {V : Type κ} → (V → ℕ) → Option V → ℕ
size_of size none = 0
size_of size (some v) = size v

module _ {ℓ κ} {K : Type ℓ} {V : Type κ} ⦃e : Eq K⦄ where
  abbrev pub map_get : K → List (K × V) → Option V
  map_get k [] = none
  map_get k ((j, v) ∷ m) = if j == k then some v else map_get k m

  abbrev pub map_set : K → V → List (K × V) → List (K × V)
  map_set k v [] = (k, v) ∷ []
  map_set k v ((j, w) ∷ m) = if j == k then (k, v) ∷ m else (j, w) ∷ map_set k v m

  abbrev pub map_delete : K → List (K × V) → List (K × V)
  map_delete k [] = []
  map_delete k ((j, w) ∷ m) = if j == k then map_delete k m else (j, w) ∷ map_delete k m

  pub map_get-map_set :
      (k j : K) (v : V) (m : List (K × V))
      → map_get j (map_set k v m) ≡ (if k == j then some v else map_get j m)
  map_get-map_set k j v [] = refl
  map_get-map_set k j v ((i, w) ∷ m) =
      ground (arith, e.beq_iff k j, e.beq_iff i k, e.beq_iff i j, map_get-map_set k j v m)

  pub map_get-map_delete :
      (k j : K) (m : List (K × V))
      → map_get j (map_delete k m) ≡ (if k == j then none else map_get j m)
  map_get-map_delete k j [] = ground arith
  map_get-map_delete k j ((i, w) ∷ m) =
      ground (arith, e.beq_iff k j, e.beq_iff i k, e.beq_iff i j, map_get-map_delete k j m)

  pub map_get-map_set_self : (k : K) (v : V) (m : List (K × V)) → map_get k (map_set k v m) ≡ some v
  map_get-map_set_self k v m = rw (map_get-map_set k k v m, (e.beq_iff k k).1 refl)

  -- A present key is overwritten in place; a new one grows the map by one.
  pub length-map_set : (k : K) (v : V) (m : List (K × V)) → length (map_set k v m) ≤ length m + 1
  length-map_set k v [] = omega arith
  length-map_set k v ((i, w) ∷ m) = ground (arith, length-map_set k v m)

  pub length-map_delete-le : (k : K) (m : List (K × V)) → length (map_delete k m) ≤ length m
  length-map_delete-le k [] = omega arith
  length-map_delete-le k ((i, w) ∷ m) = ground (arith, length-map_delete-le k m)

  pub map_get-map_delete_self : (k : K) (m : List (K × V)) → map_get k (map_delete k m) ≡ none
  map_get-map_delete_self k m = rw (map_get-map_delete k k m, (e.beq_iff k k).1 refl)

  -- Every key stands once.
  abbrev pub HasDistinctKeys : List (K × V) → Type (ℓ ⊔ κ)
  HasDistinctKeys [] = Unit
  HasDistinctKeys ((k, v) ∷ m) = (map_get k m ≡ none) × HasDistinctKeys m

  pub map_set-HasDistinctKeys :
      (k : K) (v : V) (m : List (K × V)) → HasDistinctKeys m → HasDistinctKeys (map_set k v m)
  map_set-HasDistinctKeys k v [] h = (refl, tt)
  map_set-HasDistinctKeys k v ((j, w) ∷ m) (free, h) = elim (Bool-cases (j == k)) [
    | inl same ↦ rw same (rw ((e.beq_iff j k).0 same) at free, h)
    | inr other ↦ rw other (
      map_get-map_set k j v m ∙ ground (arith, e.beq_iff k j, e.beq_iff j k),
      map_set-HasDistinctKeys k v m h,
    )
  ]

  pub map_delete-HasDistinctKeys :
      (k : K) (m : List (K × V)) → HasDistinctKeys m → HasDistinctKeys (map_delete k m)
  map_delete-HasDistinctKeys k [] h = tt
  map_delete-HasDistinctKeys k ((j, w) ∷ m) (free, h) = elim (Bool-cases (j == k)) [
    | inl same ↦ rw same (map_delete-HasDistinctKeys k m h)
    | inr other ↦
        rw other (map_get-map_delete k j m ∙ ground (arith, free), map_delete-HasDistinctKeys k m h)
  ]

  pub map_delete_absent : (k : K) (m : List (K × V)) → map_get k m ≡ none → map_delete k m ≡ m
  map_delete_absent k [] h = refl
  map_delete_absent k ((j, w) ∷ m) h = ground (arith, map_delete_absent k m)

  -- What holds of every value.
  abbrev pub AllValues {μ} : (V → Type μ) → List (K × V) → Type μ
  AllValues P [] = Unit
  AllValues P ((k, v) ∷ m) = P v × AllValues P m

  module _ {μ} (P : V → Type μ) where
    pub AllValues-map_get :
        (k : K) (v : V) (m : List (K × V)) → AllValues P m → map_get k m ≡ some v → P v
    AllValues-map_get k v [] h found = cc
    AllValues-map_get k v ((j, w) ∷ m) (p, h) found = elim (Bool-cases (j == k)) [
      | inl same ↦ let eq : w ≡ v = ground arith in subst P eq p
      | inr other ↦ AllValues-map_get k v m h (rw other at found)
    ]

    pub AllValues-map_set :
        (k : K) (v : V) (m : List (K × V)) → AllValues P m → P v → AllValues P (map_set k v m)
    AllValues-map_set k v [] h p = (p, tt)
    AllValues-map_set k v ((j, w) ∷ m) (q, h) p = elim (Bool-cases (j == k)) [
      | inl same ↦ rw same (p, h)
      | inr other ↦ rw other (q, AllValues-map_set k v m h p)
    ]

    pub AllValues-map_delete :
        (k : K) (m : List (K × V)) → AllValues P m → AllValues P (map_delete k m)
    AllValues-map_delete k [] h = tt
    AllValues-map_delete k ((j, w) ∷ m) (q, h) = elim (Bool-cases (j == k)) [
      | inl same ↦ rw same (AllValues-map_delete k m h)
      | inr other ↦ rw other (q, AllValues-map_delete k m h)
    ]

  -- The sum of a measure over the values.
  module _ (size : V → ℕ) where
    abbrev pub total : List (K × V) → ℕ
    total [] = 0
    total ((k, v) ∷ m) = size v + total m

    pub total-map_set :
        (k : K) (v : V) (m : List (K × V))
        → total (map_set k v m) + size_of size (map_get k m) ≡ total m + size v
    total-map_set k v [] = omega arith
    total-map_set k v ((j, w) ∷ m) = ground (arith, total-map_set k v m)

    pub total-map_delete :
        (k : K) (m : List (K × V))
        → HasDistinctKeys m
        → total (map_delete k m) + size_of size (map_get k m) ≡ total m
    total-map_delete k [] h = omega arith
    total-map_delete k ((j, w) ∷ m) (free, h) = elim (Bool-cases (j == k)) [
      | inl same ↦
          let gone : map_delete k m ≡ m =
            map_delete_absent k m (rw (← (e.beq_iff j k).0 same) free) in
          rw (same, gone) (omega arith)
      | inr other ↦ rw other (omega (arith, total-map_delete k m h))
    ]

pub AllValues-mono {ℓ κ μ} :
    {K : Type ℓ} {V : Type κ} ⦃e : Eq K⦄ (P Q : V → Type μ) (m : List (K × V))
    → ((v : V) → P v → Q v)
    → AllValues P m
    → AllValues Q m
AllValues-mono P Q [] f h = tt
AllValues-mono P Q ((k, v) ∷ m) f (p, h) = (f v p, AllValues-mono P Q m f h)
