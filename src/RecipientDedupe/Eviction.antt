-- ===== src/RecipientDedupe/Eviction.antt =====
-- What `prune` of fanoutRecipientDedupe.ts leaves in place.
use cse356_discord.Common.{
  ℕ, zero, suc, ◌-◌, ◌≤◌, ◌<◌, ◌≡◌, refl, String, inl, inr, none, some, List, [], ◌∷◌, ◌++◌, arith,
  ltb, length, length-append, length-drop, drop-append, drop, map_get, map_set,
  map_get-map_set_self, string_eq, Bool-cases, ◌==◌, ==_refl,
}
use cse356_discord.RecipientDedupe.{Seen, evict_expired, evict_excess}

abbrev Entries : Type 0
Entries = List (String × Seen)

pub map_set-append :
    (k : String) (v : Seen) (m : Entries) → map_get k m ≡ none → map_set k v m ≡ m ++ (k, v) ∷ []
map_set-append k v [] h = refl
map_set-append k v ((j, w) ∷ m) h = ground (arith, map_set-append k v m)

map_get-append_new :
    (k : String) (v : Seen) (m : Entries)
    → map_get k m ≡ none
    → map_get k (m ++ (k, v) ∷ []) ≡ some v
map_get-append_new k v [] h = rw (==_refl k) refl
map_get-append_new k v ((j, w) ∷ m) h = ground (arith, map_get-append_new k v m)

-- Dropping entries makes no key appear.
map_get-drop-none :
    (k : String) (n : ℕ) (m : Entries) → map_get k m ≡ none → map_get k (drop n m) ≡ none
map_get-drop-none k zero m h = h
map_get-drop-none k (suc n) [] h = h
map_get-drop-none k (suc n) ((j, w) ∷ m) h = map_get-drop-none k n m (ground arith)

map_get-evict_expired-none :
    (k : String) (cutoff : ℕ) (m : Entries)
    → map_get k m ≡ none
    → map_get k (evict_expired cutoff m) ≡ none
unfolding evict_expired
map_get-evict_expired-none k cutoff [] h = h
map_get-evict_expired-none k cutoff ((j, w) ∷ m) h =
    ground (arith, map_get-evict_expired-none k cutoff m)

evict_expired-append :
    (cutoff : ℕ) (m : Entries) (k : String) (v : Seen)
    → cutoff ≤ v.ts
    → evict_expired cutoff (m ++ (k, v) ∷ []) ≡ evict_expired cutoff m ++ (k, v) ∷ []
unfolding evict_expired
evict_expired-append cutoff [] k v h = ground arith
evict_expired-append cutoff ((j, w) ∷ m) k v h = ground (arith, evict_expired-append cutoff m k v h)

pub length-evict_expired : (cutoff : ℕ) (m : Entries) → length (evict_expired cutoff m) ≤ length m
unfolding evict_expired
length-evict_expired cutoff [] = omega arith
length-evict_expired cutoff ((j, w) ∷ m) = ground (arith, length-evict_expired cutoff m)

pub length-evict_excess : (most : ℕ) (m : Entries) → length (evict_excess most m) ≤ most
length-evict_excess most m = omega (arith, length-drop (length m - most) m)

-- A new entry, young enough, survives the pruning that follows.
pub prune-new :
    (cutoff most : ℕ) (k : String) (v : Seen) (m : Entries)
    → map_get k m ≡ none
    → cutoff ≤ v.ts
    → 0 < most
    → map_get k (evict_excess most (evict_expired cutoff (map_set k v m))) ≡ some v
prune-new cutoff most k v m h young room =
    let kept : Entries = evict_expired cutoff m in
    let excess : ℕ = length (kept ++ (k, v) ∷ []) - most in
    rw (map_set-append k v m h, evict_expired-append cutoff m k v young)
      (rw (drop-append excess kept ((k, v) ∷ []) (omega (arith, length-append kept ((k, v) ∷ []))))
        (map_get-append_new k v (drop excess kept)
          (map_get-drop-none k excess kept (map_get-evict_expired-none k cutoff m h))))

length-map_set_present :
    (k : String) (v w : Seen) (m : Entries)
    → map_get k m ≡ some w
    → length (map_set k v m) ≡ length m
length-map_set_present k v w [] h = cc
length-map_set_present k v w ((j, x) ∷ m) h = ground (arith, length-map_set_present k v w m)

map_get-evict_expired-set :
    (k : String) (v : Seen) (cutoff : ℕ) (m : Entries)
    → cutoff ≤ v.ts
    → map_get k (evict_expired cutoff (map_set k v m)) ≡ some v
unfolding evict_expired
map_get-evict_expired-set k v cutoff [] young = ground (arith, ==_refl k)
map_get-evict_expired-set k v cutoff ((j, w) ∷ m) young = elim (Bool-cases (j == k)) [
  | inl same ↦ rw same (ground (arith, ==_refl k))
  | inr other ↦ rw other (elim (Bool-cases (ltb w.ts cutoff)) [
    | inl old ↦ rw old (map_get-evict_expired-set k v cutoff m young)
    | inr recent ↦ rw recent (rw other (map_get-map_set_self k v m))
  ])
]

-- An entry that is renewed in place survives as well, if the map was within its cap.
pub prune-present :
    (cutoff most : ℕ) (k : String) (v w : Seen) (m : Entries)
    → map_get k m ≡ some w
    → cutoff ≤ v.ts
    → length m ≤ most
    → map_get k (evict_excess most (evict_expired cutoff (map_set k v m))) ≡ some v
prune-present cutoff most k v w m there young fits =
    let kept : Entries = evict_expired cutoff (map_set k v m) in
    let none_over : length kept - most ≡ 0 =
      omega (
        arith,
        length-evict_expired cutoff (map_set k v m),
        length-map_set_present k v w m there,
      ) in
    rw none_over (map_get-evict_expired-set k v cutoff m young)
