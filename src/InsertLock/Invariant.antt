-- ===== src/InsertLock/Invariant.antt =====
-- The shape that channelInsertConcurrency.ts keeps its wait queues in.
use cse356_discord.Common.{
  ℕ, ◌+◌, ◌≤◌, ◌<◌, ◌≡◌, refl, true, false, ◌⊎◌, inl, inr, List, [], ◌∷◌, ◌++◌, arith, length,
  length-append, All, All-append, string_eq, nat_eq, HasDistinctKeys, AllValues, total,
}
use cse356_discord.InsertLock.Queue.{Entry, ChannelQueue, Locks, LockConfig, resolve_first, pushed}

abbrev pub IsWaiting : Entry → Type 0
IsWaiting e = e.resolved ≡ false

-- The numbers of the entries grow along the queue and lie below `n`.
abbrev pub IsNumbered : ℕ → List Entry → Type 0
IsNumbered n [] = Unit {0}
IsNumbered n (e ∷ es) = All (λ x. e.id < x.id) es × (e.id < n) × IsNumbered n es

-- The gate of the first entry is open, and of no other.
abbrev pub IsGated : List Entry → Type 0
IsGated [] = ⊥
IsGated (e ∷ es) = (e.resolved ≡ true) × All IsWaiting es

pub record QueueInv (c : LockConfig) (n : ℕ) (q : ChannelQueue) : Type 0 where
  pub is_active : q.active ≡ true
  pub gated : IsGated q.entries
  pub numbered : IsNumbered n q.entries
  pub capped : length q.entries ≤ c.max_waiters_per_channel

abbrev pub queue_length : ChannelQueue → ℕ
queue_length q = length q.entries

pub record LocksInv (c : LockConfig) (s : Locks) : Type 0 where
  pub queues : AllValues (QueueInv c s.next_id) s.channel_queues
  pub distinct : HasDistinctKeys s.channel_queues
  pub counted : s.waiters_total ≡ total queue_length s.channel_queues

pub length-resolve_first : (es : List Entry) → length (resolve_first es) ≡ length es
length-resolve_first [] = refl
length-resolve_first (e ∷ es) = refl

pub IsNumbered-suc : (n : ℕ) (es : List Entry) → IsNumbered n es → IsNumbered (n + 1) es
IsNumbered-suc n [] h = tt
IsNumbered-suc n (e ∷ es) (a, b, h) = (a, omega arith, IsNumbered-suc n es h)

below-append :
    (k : ℕ) (es : List Entry) (x : Entry)
    → All (λ y. k < y.id) es
    → k < x.id
    → All (λ y. k < y.id) (es ++ x ∷ [])
below-append k es x h p = All-append (λ y. k < y.id) es (x ∷ []) h (p, tt)

IsNumbered-push :
    (n : ℕ) (es : List Entry) (x : Entry)
    → IsNumbered n es
    → x.id ≡ n
    → IsNumbered (n + 1) (es ++ x ∷ [])
IsNumbered-push n [] x h e = (tt, omega arith, tt)
IsNumbered-push n (y ∷ es) x (a, b, h) e =
    (below-append y.id es x a (omega arith), omega arith, IsNumbered-push n es x h e)

IsGated-push : (es : List Entry) (x : Entry) → IsGated es → IsWaiting x → IsGated (es ++ x ∷ [])
IsGated-push [] x h w = elim h [ ]
IsGated-push (y ∷ es) x (opened, h) w = (opened, All-append IsWaiting es (x ∷ []) h (w, tt))

pub QueueInv-suc :
    (c : LockConfig) (n : ℕ) (q : ChannelQueue) → QueueInv c n q → QueueInv c (n + 1) q
QueueInv-suc c n q v = record {
  is_active = v.is_active;
  gated = v.gated;
  numbered = IsNumbered-suc n q.entries v.numbered;
  capped = v.capped;
}

pub pushed-QueueInv :
    (c : LockConfig) (n : ℕ) (q : ChannelQueue) (x : Entry)
    → (QueueInv c n q) ⊎ (q ≡ record { entries = []; active = false })
    → x.id ≡ n
    → IsWaiting x
    → length q.entries < c.max_waiters_per_channel
    → QueueInv c (n + 1) (pushed q x)
pushed-QueueInv c n q x (inl v) e w room = rw v.is_active (record {
  is_active = refl;
  gated = IsGated-push q.entries x v.gated w;
  numbered = IsNumbered-push n q.entries x v.numbered e;
  capped = omega (arith, length-append q.entries (x ∷ []));
})
pushed-QueueInv c n q x (inr empty) e w room = rw empty (record {
  is_active = refl;
  gated = (refl, tt);
  numbered = (tt, omega arith, tt);
  capped = omega arith;
})
