-- ===== src/Common/Sets.antt =====
-- A JavaScript `Set` as the list of its members, and a `Map` of such sets.
use Prim.Native.Nat.{ℕ}
use mathlib.Core.Path.{◌≡◌, refl, sym}
use mathlib.Core.Logic.{inl, inr}
use mathlib.Core.Bool.{true, false, ◌||◌}
use mathlib.Core.List.{List, [], ◌∷◌, ◌++◌}
use mathlib.Core.Option.{Option, none, some}
use native.Mathlib.Omega.{arith}
use cse356_discord.Common.Tests.{if◌then◌else◌, Eq, ◌==◌, nat_eq, Bool-cases}
use cse356_discord.Common.Lists.{length, contains, without, insert}
use cse356_discord.Common.Maps.{map_get, map_set, map_delete, map_get-map_set, map_get-map_delete}

module _ {ℓ} {A : Type ℓ} ⦃e : Eq A⦄ where
  pub contains-append :
      (xs ys : List A) (a : A) → contains (xs ++ ys) a ≡ (contains xs a || contains ys a)
  contains-append [] ys a = refl
  contains-append (x ∷ xs) ys a = ground (arith, contains-append xs ys a)

  pub contains-insert :
      (xs : List A) (a b : A) → contains (insert xs a) b ≡ (if b == a then true else contains xs b)
  contains-insert xs a b = ground (arith, contains-append xs (a ∷ []) b, e.beq_iff b a)

  pub contains-without :
      (xs : List A) (a b : A)
      → contains (without xs a) b ≡ (if b == a then false else contains xs b)
  contains-without [] a b = ground arith
  contains-without (x ∷ xs) a b =
      ground (arith, contains-without xs a b, e.beq_iff a x, e.beq_iff b x, e.beq_iff b a)

abbrev pub members_or : Option (List ℕ) → List ℕ
members_or none = []
members_or (some xs) = xs

empty_of_length : (xs : List ℕ) → (length xs == 0) ≡ true → xs ≡ []
empty_of_length [] h = refl
empty_of_length (x ∷ xs) h = ground arith

module _ {ℓ} {K : Type ℓ} ⦃e : Eq K⦄ where
  -- `m.get(k)`, no set being an empty one
  abbrev pub members : K → List (K × List ℕ) → List ℕ
  members k m = members_or (map_get k m)

  -- `if (!m.has(k)) m.set(k, new Set()); m.get(k).add(a)`
  unfoldable pub add_member : K → ℕ → List (K × List ℕ) → List (K × List ℕ)
  add_member k a m = map_set k (insert (members k m) a) m

  -- `m.get(k)?.delete(a); if ((m.get(k)?.size || 0) === 0) m.delete(k)`
  unfoldable pub remove_member : K → ℕ → List (K × List ℕ) → List (K × List ℕ)
  remove_member k a m =
      let rest = without (members k m) a in
      if length rest == 0 then map_delete k m else map_set k rest m

  pub members-add_member :
      (k j : K) (a : ℕ) (m : List (K × List ℕ))
      → members j (add_member k a m) ≡ (if k == j then insert (members j m) a else members j m)
  unfolding add_member
  members-add_member k j a m = elim (Bool-cases (k == j)) [
    | inl same ↦
        rw (map_get-map_set k j (insert (members k m) a) m, same) (rw ((e.beq_iff k j).0 same) refl)
    | inr other ↦ rw (map_get-map_set k j (insert (members k m) a) m, other) refl
  ]

  pub members-remove_member :
      (k j : K) (a : ℕ) (m : List (K × List ℕ))
      → members j (remove_member k a m) ≡ (if k == j then without (members j m) a else members j m)
  unfolding remove_member
  members-remove_member k j a m = elim (Bool-cases (length (without (members k m) a) == 0)) [
    | inl gone ↦
        rw (gone, map_get-map_delete k j m)
          (elim (Bool-cases (k == j)) [
            | inl same ↦ rw same (
                sym
                  (empty_of_length (without (members j m) a) (rw ((e.beq_iff k j).0 same) at gone)))
            | inr other ↦ rw other refl
          ])
    | inr left ↦
        rw (left, map_get-map_set k j (without (members k m) a) m)
          (elim (Bool-cases (k == j)) [
            | inl same ↦ rw (same, (e.beq_iff k j).0 same) refl
            | inr other ↦ rw other refl
          ])
  ]
