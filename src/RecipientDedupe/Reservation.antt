-- ===== src/RecipientDedupe/Reservation.antt =====
-- The life of a reservation in fanoutRecipientDedupe.ts.
use cse356_discord.Common.{
  ℕ, ◌+◌, ◌-◌, ◌≤◌, ltb, ◌≡◌, refl, ap, sym, String, true, false, inl, inr, Option, none, some,
  List, ◌∷◌, arith, length, map_get, map_delete, map_get-map_delete_self, string_eq, nat_eq,
  Bool-cases,
}
use cse356_discord.RecipientDedupe.{
  Token, issued, same_token, reserved, confirmed, Seen, Dedupe, Recipient, is_blank, build_key,
  prune, found, is_foreign, token_kept, evict_expired, reserve_recipient, confirm_recipient,
  release_recipient, has_seen_recipient,
}
use cse356_discord.RecipientDedupe.Laws.{IsBounded, map_get-prune-put, same_token_refl}

-- What a reservation leaves behind: the recipient is named, was free, and is held under the token.
pub record IsHeld (r : Recipient) (t : Token) (d : Dedupe) : Type 0 where
  pub named : is_blank r ≡ false
  pub since : ℕ
  pub held :
      map_get (build_key r) d.seen ≡ some (record { ts = since; status = reserved; token = t })

abbrev advance : Dedupe → Dedupe
advance d = record d { next_token = d.next_token + 1 }

advance-IsBounded : (d : Dedupe) → IsBounded d → IsBounded (advance d)
advance-IsBounded d b = record { within = b.within; positive = b.positive }

reserve_recipient-IsHeld :
    (r : Recipient) (now : ℕ) (d : Dedupe) (t : Token)
    → IsBounded d
    → (reserve_recipient r now d).1 ≡ some t
    → IsHeld r t (reserve_recipient r now d).0
unfolding reserve_recipient
reserve_recipient-IsHeld r now d t b e = elim (Bool-cases (is_blank r)) [
  | inl blank ↦ absurd (ground (arith, rw blank at e))
  | inr named ↦ elim (Bool-cases (found (map_get (build_key r) d.seen))) [
    | inl taken ↦ absurd (ground (arith, rw (named, taken) at e))
    | inr free ↦
        let issue : issued now (d.next_token + 1) ≡ t = ground (arith, rw (named, free) at e) in
        rw (named, free)
          record {
            named = named;
            since = now;
            held =
                rw (sym issue)
                  (map_get-prune-put now (build_key r) _ (advance d) (advance-IsBounded d b) refl);
          }
  ]
]

-- While it is held, nobody reserves the recipient again, and nobody releases or confirms it under
-- another token; its own token releases it.
IsHeld-reserve_recipient :
    (r : Recipient) (t : Token) (later : ℕ) (d : Dedupe)
    → IsHeld r t d
    → reserve_recipient r later d ≡ (d, none)
unfolding reserve_recipient
IsHeld-reserve_recipient r t later d h = rw (h.named, h.held) refl

IsHeld-release_recipient_foreign :
    (r : Recipient) (t other : Token) (d : Dedupe)
    → IsHeld r t d
    → same_token t other ≡ false
    → release_recipient r (some other) d ≡ (d, false)
unfolding release_recipient
IsHeld-release_recipient_foreign r t other d h foreign = rw (h.named, h.held, foreign) refl

IsHeld-release_recipient :
    (r : Recipient) (t : Token) (d : Dedupe)
    → IsHeld r t d
    → release_recipient r (some t) d ≡ (record d { seen = map_delete (build_key r) d.seen }, true)
unfolding release_recipient
IsHeld-release_recipient r t d h = rw (h.named, h.held, same_token_refl t) refl

-- Right after a recipient was reserved, in a map within its cap, it cannot be reserved again, at
-- whatever time that is tried: of the fanout paths that ask for it, one gets the reservation.
pub reserve_recipient-exclusive :
    (r : Recipient) (now later : ℕ) (d : Dedupe) (t : Token)
    → IsBounded d
    → (reserve_recipient r now d).1 ≡ some t
    → (reserve_recipient r later (reserve_recipient r now d).0).1 ≡ none
reserve_recipient-exclusive r now later d t b e =
    rw (IsHeld-reserve_recipient r t later _ (reserve_recipient-IsHeld r now d t b e)) refl

reserve_recipient_free :
    (r : Recipient) (now : ℕ) (d : Dedupe)
    → is_blank r ≡ false
    → map_get (build_key r) d.seen ≡ none
    → (reserve_recipient r now d).1 ≡ some (issued now (d.next_token + 1))
unfolding reserve_recipient
reserve_recipient_free r now d named free = rw (named, free) refl

-- Right after a recipient was reserved, in a map within its cap, a release under a different token
-- changes nothing, and the holder's own release frees the recipient, so that it can be reserved
-- again.
pub release_recipient-by_holder :
    (r : Recipient) (now later : ℕ) (d : Dedupe) (t other : Token)
    → IsBounded d
    → (reserve_recipient r now d).1 ≡ some t
    → same_token t other ≡ false
    → (release_recipient r (some other) (reserve_recipient r now d).0
        ≡ ((reserve_recipient r now d).0, false))
      × ((release_recipient r (some t) (reserve_recipient r now d).0).1 ≡ true)
      × ((reserve_recipient r later
            (release_recipient r (some t) (reserve_recipient r now d).0).0).1
          ≡ some (
              issued later
                ((release_recipient r (some t) (reserve_recipient r now d).0).0.next_token + 1)))
release_recipient-by_holder r now later d t other b e foreign =
    let h : IsHeld r t (reserve_recipient r now d).0 = reserve_recipient-IsHeld r now d t b e in
    (
      IsHeld-release_recipient_foreign r t other _ h foreign,
      ap (λ x. x.1) (IsHeld-release_recipient r t _ h),
      rw (IsHeld-release_recipient r t _ h) (
          reserve_recipient_free r later _ h.named
            (map_get-map_delete_self (build_key r) (reserve_recipient r now d).0.seen)),
    )

confirm_recipient-entry :
    (r : Recipient) (given : Option Token) (now : ℕ) (d : Dedupe)
    → IsBounded d
    → (confirm_recipient r given now d).1 ≡ true
    → (is_blank r ≡ false)
      × ((t : Token) × (map_get (build_key r) (confirm_recipient r given now d).0.seen
            ≡ some (record { ts = now; status = confirmed; token = t })))
unfolding confirm_recipient
confirm_recipient-entry r given now d b e = elim (Bool-cases (is_blank r)) [
  | inl blank ↦ absurd (ground (arith, rw blank at e))
  | inr named ↦ elim (Bool-cases (is_foreign (map_get (build_key r) d.seen) given)) [
    | inl foreign ↦ absurd (ground (arith, rw (named, foreign) at e))
    | inr own ↦
        rw (named, own)
          (
            refl,
            (
              token_kept (map_get (build_key r) d.seen) given now,
              map_get-prune-put now (build_key r) _ d b refl,
            ),
          )
  ]
]

-- Right after a confirmation, in a map within its cap, no token releases the recipient, and at no
-- time is it reserved again.
pub confirm_recipient-final :
    (r : Recipient) (given other : Option Token) (now later : ℕ) (d : Dedupe)
    → IsBounded d
    → (confirm_recipient r given now d).1 ≡ true
    → ((release_recipient r other (confirm_recipient r given now d).0).1 ≡ false)
      × ((reserve_recipient r later (confirm_recipient r given now d).0).1 ≡ none)
unfolding reserve_recipient release_recipient
confirm_recipient-final r given other now later d b e =
    let (named, (_, entry)) = confirm_recipient-entry r given now d b e in
    (rw (named, entry) refl, rw (named, entry) refl)

-- Eviction stops at the first entry that is young enough. A confirmation renews an entry in its old
-- place, so entries behind it outlive the time limit: whatever its age, an entry is still seen behind a
-- young head, while the map is within its cap.
pub has_seen_recipient-behind_young :
    (r : Recipient) (now : ℕ) (d : Dedupe) (first : String × Seen) (rest : List (String × Seen))
    (old : Seen)
    → is_blank r ≡ false
    → d.seen ≡ first ∷ rest
    → now - d.ttl_ms ≤ first.1.ts
    → length d.seen ≤ d.max_entries
    → map_get (build_key r) d.seen ≡ some old
    → (has_seen_recipient r now d).1 ≡ true
unfolding has_seen_recipient prune evict_expired
has_seen_recipient-behind_young r now d first rest old named seen young within present =
    let unexpired : ltb first.1.ts (now - d.ttl_ms) ≡ false = ground arith in
    let no_excess : length (first ∷ rest) - d.max_entries ≡ 0 = omega (arith, rw seen at within) in
    rw (named, seen, unexpired) (rw no_excess (rw (rw seen at present) refl))
