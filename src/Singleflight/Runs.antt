-- ===== src/Singleflight/Runs.antt =====
-- The runs of distributedSingleflight.ts: which of them have the lock, and which a process waits for.
use cse356_discord.Common.{
  ℕ, ◌≡◌, ◌≢◌, ◌⊎◌, Bool, true, false, some, arith, ◌==◌, nat_eq, sym, ◌∙◌, ap, inl, inr,
  Bool-cases, Option-cases, subst, map_get, map_get-map_set, map_get-map_delete,
}
use cse356_discord.Singleflight.{
  Phase, loading, releasing, Run, Outcome, Flights, at_phase, finish, on_run,
}

-- A run that loads under the lock, or is about to release it.
abbrev pub has_lock : Phase → Bool
has_lock (loading lock_acquired) = lock_acquired
has_lock (releasing outcome) = true
has_lock _ = false

-- Redis has the token of each run that has the lock.
abbrev pub HoldsLock : Flights → Type 0
HoldsLock s =
    (t : ℕ) (r : Run) → map_get t s.runs ≡ some r → has_lock r.phase ≡ true → s.lock ≡ some t

-- The map of each process has the token of its run.
abbrev pub IsInflight : Flights → Type 0
IsInflight s = (t : ℕ) (r : Run) → map_get t s.runs ≡ some r → map_get r.process s.inflight ≡ some t

-- What a run that is found after a step was before it.
pub found_at_phase :
    (token t : ℕ) (run r : Run) (phase : Phase) (s : Flights)
    → map_get t (at_phase token run phase s).runs ≡ some r
    → ((token ≡ t) × (record run { phase = phase } ≡ r)) ⊎ (map_get t s.runs ≡ some r)
found_at_phase token t run r phase s e = elim (Bool-cases (token == t)) [
  | inl same ↦ inl (
    ground arith,
    ground (arith, e, same, map_get-map_set token t (record run { phase = phase }) s.runs),
  )
  | inr other ↦
      inr (ground (arith, e, other, map_get-map_set token t (record run { phase = phase }) s.runs))
]

pub found_finished :
    (token t : ℕ) (run r : Run) (outcome : Outcome) (s : Flights)
    → map_get t (finish token run outcome s).runs ≡ some r
    → (token ≢ t) × (map_get t s.runs ≡ some r)
unfolding finish
found_finished token t run r outcome s e = elim (Bool-cases (token == t)) [
  | inl same ↦ absurd (ground (arith, e, same, map_get-map_delete token t s.runs))
  | inr other ↦ (ground (arith, other), ground (arith, e, other, map_get-map_delete token t s.runs))
]

pub at_phase-HoldsLock :
    (token : ℕ) (run : Run) (phase : Phase) (s : Flights)
    → HoldsLock s
    → (has_lock phase ≡ true → s.lock ≡ some token)
    → HoldsLock (at_phase token run phase s)
at_phase-HoldsLock token run phase s inv h t r e l = elim (found_at_phase token t run r phase s e) [
  | inl (same, is_run) ↦ rw (sym same) (h (ap (λ x. has_lock x.phase) is_run ∙ l))
  | inr before ↦ inv t r before l
]

pub finish-HoldsLock :
    (token : ℕ) (run : Run) (outcome : Outcome) (s : Flights)
    → HoldsLock s
    → HoldsLock (finish token run outcome s)
unfolding finish
finish-HoldsLock token run outcome s inv t r e l =
    inv t r (found_finished token t run r outcome s e).1 l

pub at_phase-IsInflight :
    (token : ℕ) (run : Run) (phase : Phase) (s : Flights)
    → IsInflight s
    → map_get token s.runs ≡ some run
    → IsInflight (at_phase token run phase s)
at_phase-IsInflight token run phase s inv is_under_way t r e =
    elim (found_at_phase token t run r phase s e) [
      | inl (same, is_run) ↦
          rw (sym same, sym (ap (λ x. x.process) is_run)) (inv token run is_under_way)
      | inr before ↦ inv t r before
    ]

pub finish-IsInflight :
    (token : ℕ) (run : Run) (outcome : Outcome) (s : Flights)
    → IsInflight s
    → map_get token s.runs ≡ some run
    → IsInflight (finish token run outcome s)
unfolding finish
finish-IsInflight token run outcome s inv is_under_way t r e =
    let (differs, before) = found_finished token t run r outcome s e in
    ground (
      arith,
      differs,
      inv t r before,
      inv token run is_under_way,
      map_get-map_delete run.process r.process s.inflight,
    )

-- What a step of a run keeps, `on_run` keeps.
pub on_run-keeps :
    (P : Flights → Type 0) (step : ℕ → Phase → Run → Flights → Flights) (token : ℕ) (s : Flights)
    → P s
    → ((run : Run) → map_get token s.runs ≡ some run → P (step token run.phase run s))
    → P (on_run step token (map_get token s.runs) s)
unfolding on_run
on_run-keeps P step token s h k = elim (Option-cases (map_get token s.runs)) [
  | inl absent ↦ subst (λ o. P (on_run step token o s)) (sym absent) h
  | inr (run, found) ↦ subst (λ o. P (on_run step token o s)) (sym found) (k run found)
]
