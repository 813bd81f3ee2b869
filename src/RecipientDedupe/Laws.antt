-- ===== src/RecipientDedupe/Laws.antt =====
-- The life of a reservation in fanoutRecipientDedupe.ts.
use cse356_discord.Common.{
  ℕ, ◌-◌, ◌≤◌, ◌<◌, ◌≡◌, refl, String, true, inl, inr, Option, some, arith, length, map_get,
  length-map_delete-le, string_eq, nat_eq, Bool-cases, Option-cases, ==_refl,
}
use cse356_discord.RecipientDedupe.{
  Token, issued, at_confirmation, by_hand, same_token, Seen, Dedupe, Recipient, is_blank, build_key,
  prune, put, found, is_foreign, evict_expired, reserve_recipient, confirm_recipient,
  release_recipient, mark_recipient, has_seen_recipient, may_release,
}
use cse356_discord.RecipientDedupe.Eviction.{prune-new, prune-present, length-evict_excess}

pub record IsBounded (d : Dedupe) : Type 0 where
  pub within : length d.seen ≤ d.max_entries
  pub positive : 0 < d.max_entries

pub same_token_refl : (t : Token) → same_token t t ≡ true
same_token_refl (issued a b) = rw (==_refl a, ==_refl b) refl
same_token_refl (at_confirmation a) = ==_refl a
same_token_refl (by_hand a) = ==_refl a

-- After a put of the current time the key is found, whether it was there or not.
pub map_get-prune-put :
    (now : ℕ) (key : String) (entry : Seen) (d : Dedupe)
    → IsBounded d
    → entry.ts ≡ now
    → map_get key (prune now (put key entry d)).seen ≡ some entry
unfolding prune
map_get-prune-put now key entry d b e = elim (Option-cases (map_get key d.seen)) [
  | inl fresh ↦
      prune-new (now - d.ttl_ms) d.max_entries key entry d.seen fresh (omega arith) b.positive
  | inr (old, there) ↦
      prune-present (now - d.ttl_ms) d.max_entries key entry old d.seen there (omega arith) b.within
]

-- Every operation that adds an entry leaves the map within its cap.
pub prune-IsBounded : (now : ℕ) (d : Dedupe) → 0 < d.max_entries → IsBounded (prune now d)
unfolding prune
prune-IsBounded now d p = record {
  within = length-evict_excess d.max_entries (evict_expired (now - d.ttl_ms) d.seen);
  positive = p;
}

reserve_recipient-IsBounded :
    (r : Recipient) (now : ℕ) (d : Dedupe) → IsBounded d → IsBounded (reserve_recipient r now d).0
unfolding reserve_recipient
reserve_recipient-IsBounded r now d b = elim (Bool-cases (is_blank r)) [
  | inl blank ↦ rw blank b
  | inr named ↦ rw named (elim (Bool-cases (found (map_get (build_key r) d.seen))) [
    | inl taken ↦ rw taken b
    | inr free ↦ rw free (prune-IsBounded now _ b.positive)
  ])
]

confirm_recipient-IsBounded :
    (r : Recipient) (given : Option Token) (now : ℕ) (d : Dedupe)
    → IsBounded d
    → IsBounded (confirm_recipient r given now d).0
unfolding confirm_recipient
confirm_recipient-IsBounded r given now d b = elim (Bool-cases (is_blank r)) [
  | inl blank ↦ rw blank b
  | inr named ↦ rw named (elim (Bool-cases (is_foreign (map_get (build_key r) d.seen) given)) [
    | inl foreign ↦ rw foreign b
    | inr own ↦ rw own (prune-IsBounded now _ b.positive)
  ])
]

release_recipient-IsBounded :
    (r : Recipient) (given : Option Token) (d : Dedupe)
    → IsBounded d
    → IsBounded (release_recipient r given d).0
unfolding release_recipient
release_recipient-IsBounded r given d b = elim (Bool-cases (is_blank r)) [
  | inl blank ↦ rw blank b
  | inr named ↦ rw named (elim (Bool-cases (may_release (map_get (build_key r) d.seen) given)) [
    | inl allowed ↦ rw allowed record {
      within = omega (arith, b.within, length-map_delete-le (build_key r) d.seen);
      positive = b.positive;
    }
    | inr refused ↦ rw refused b
  ])
]

mark_recipient-IsBounded :
    (r : Recipient) (now : ℕ) (d : Dedupe) → IsBounded d → IsBounded (mark_recipient r now d)
unfolding mark_recipient
mark_recipient-IsBounded r now d b = elim (Bool-cases (is_blank r)) [
  | inl blank ↦ rw blank b
  | inr named ↦ rw named (prune-IsBounded now _ b.positive)
]

has_seen_recipient-IsBounded :
    (r : Recipient) (now : ℕ) (d : Dedupe) → IsBounded d → IsBounded (has_seen_recipient r now d).0
unfolding has_seen_recipient
has_seen_recipient-IsBounded r now d b = elim (Bool-cases (is_blank r)) [
  | inl blank ↦ rw blank b
  | inr named ↦ rw named (prune-IsBounded now d b.positive)
]

-- If the map is within its cap, which is not 0, it still is after reserving, confirming, releasing,
-- marking or asking.
pub operations-IsBounded :
    (r : Recipient) (given : Option Token) (now : ℕ) (d : Dedupe)
    → IsBounded d
    → IsBounded (reserve_recipient r now d).0
      × IsBounded (confirm_recipient r given now d).0
      × IsBounded (release_recipient r given d).0
      × IsBounded (mark_recipient r now d)
      × IsBounded (has_seen_recipient r now d).0
operations-IsBounded r given now d b = (
  reserve_recipient-IsBounded r now d b,
  confirm_recipient-IsBounded r given now d b,
  release_recipient-IsBounded r given d b,
  mark_recipient-IsBounded r now d b,
  has_seen_recipient-IsBounded r now d b,
)
