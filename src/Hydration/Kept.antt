-- ===== src/Hydration/Kept.antt =====
-- Each operation of bootstrapHydrationScheduler.ts keeps its invariant.
use cse356_discord.Common.{
  ℕ, ◌+◌, ◌<◌, ◌≡◌, refl, String, Bool, true, inl, inr, Option, none, some, subst, ap, ◌∙◌, List,
  [], ◌∷◌, ◌++◌, arith, length-append, leb, leb→lt, string_eq, Bool-cases, map_get,
  map_get-map_delete,
}
use cse356_discord.Hydration.Scheduler.{
  Config, Job, Position, idle, pausing, quiet, waiting_slot, jittering, Scheduler, job_of,
  without_job, prune_recent_hydrations, take_from, answer_found, finish_found, check_slot, resume,
  drain_step, hydration_answered, hydration_finished, answer, HydrationResult,
}
use cse356_discord.Hydration.Invariant.{
  held, TallyAt, IsDrained, IsConsistent, with_key-append, with_key-without_job, length-without_job,
  put_at, from_unheld, held_slots, is_busy, present-le, wait-IsConsistent, drain_head-IsConsistent,
  launch-IsConsistent, take_item-IsConsistent,
}

unheld :
    (c : Config) (p : Position) (s : Scheduler)
    → s.position ≡ p
    → ((k : String) → held k p ≡ 0)
    → held_slots p ≡ 0
    → TallyAt c s.position s
    → TallyAt c idle s
unheld c p s e h g t = from_unheld p h g (subst (λ q. TallyAt c q s) e t)

on :
    {most : ℕ} {p : Position} (s : Scheduler)
    → s.position ≡ p
    → IsDrained most s.pending_queue s.draining s.position
    → is_busy p ≡ true
    → s.draining ≡ true
on s e w b = w.flagged ∙ (ap is_busy e ∙ b)

answered :
    (c : Config) (now : ℕ) (result : Option (Option HydrationResult)) (item : Job) (s : Scheduler)
    → IsConsistent c s
    → IsConsistent c (answer now item result s)
unfolding answer
answered c now none item s v = v
answered c now (some result) item s v = v

module _ (c : Config) (now : ℕ) where
  take_from-IsConsistent :
      (is_open : Bool) (jitter : ℕ) (queue : List Job) (s : Scheduler)
      → s.pending_queue ≡ queue
      → TallyAt c idle s
      → s.draining ≡ true
      → s.active_hydrations < c.max_concurrent
      → IsConsistent c (take_from c now is_open jitter queue s)
  unfolding take_from
  take_from-IsConsistent is_open jitter [] s e t d l =
      (t, record { flagged = refl; served = inl e; patient = tt })
  take_from-IsConsistent is_open jitter (item ∷ rest) s e t d l =
      take_item-IsConsistent c now is_open jitter item (record s { pending_queue = rest })
        (rw e at t) d l

  check_slot-IsConsistent :
      (is_open : Bool) (jitter : ℕ) (s : Scheduler)
      → TallyAt c idle s
      → s.draining ≡ true
      → IsConsistent c (check_slot c now is_open jitter s)
  unfolding check_slot
  check_slot-IsConsistent is_open jitter s t d =
      elim (Bool-cases (leb c.max_concurrent s.active_hydrations)) [
        | inl full ↦ rw full (
          put_at waiting_slot (λ k. refl) refl t,
          record { flagged = d; served = inr d; patient = tt },
        )
        | inr room ↦
            rw room
              (take_from-IsConsistent is_open jitter s.pending_queue s refl t d (leb→lt _ _ room))
      ]

  resume-IsConsistent :
      (is_open : Bool) (jitter : ℕ) (p : Position) (s : Scheduler)
      → s.position ≡ p
      → IsConsistent c s
      → IsConsistent c (resume c now is_open jitter p s)
  unfolding resume
  resume-IsConsistent is_open jitter idle s e v = v
  resume-IsConsistent is_open jitter (pausing yields) s e (t, w) =
      wait-IsConsistent c now (yields + 1) s (unheld c _ s e (λ k. refl) refl t) (on s e w refl)
  resume-IsConsistent is_open jitter quiet s e (t, w) =
      check_slot-IsConsistent is_open jitter s (unheld c _ s e (λ k. refl) refl t) (on s e w refl)
  resume-IsConsistent is_open jitter waiting_slot s e (t, w) =
      drain_head-IsConsistent c now s (unheld c _ s e (λ k. refl) refl t) (on s e w refl)
  resume-IsConsistent is_open jitter (jittering item) s e (t, w) =
      launch-IsConsistent c now item s (subst (λ q. TallyAt c q s) e t) (on s e w refl)

  pub drain_step-IsConsistent :
      (is_open : Bool) (jitter : ℕ) (s : Scheduler)
      → IsConsistent c s
      → IsConsistent c (drain_step c now is_open jitter s)
  unfolding drain_step
  drain_step-IsConsistent is_open jitter s v =
      resume-IsConsistent is_open jitter s.position s refl v

  -- The `then` changes no job's place in the tally but from running to finishing.
  answer_found-IsConsistent :
      (caller : ℕ) (result : Option (Option HydrationResult)) (o : Option Job) (s : Scheduler)
      → job_of caller s.running ≡ o
      → IsConsistent c s
      → IsConsistent c (answer_found now caller result o s)
  unfolding answer_found
  answer_found-IsConsistent caller result none s e v = v
  answer_found-IsConsistent caller result (some item) s e (t, w) =
      let moved : TallyAt c s.position (record s {
        running = without_job caller s.running;
        finishing = s.finishing ++ item ∷ [];
      }) =
        record {
          one_each = λ k. omega (
            arith,
            t.one_each k,
            with_key-without_job k caller item s.running e,
            with_key-append k s.finishing (item ∷ []),
          );
          counted = omega (
            arith,
            t.counted,
            length-without_job caller item s.running e,
            length-append s.finishing (item ∷ []),
          );
          capped = t.capped;
        } in
      answered c now result item _ (moved, w)

  pub hydration_answered-IsConsistent :
      (caller : ℕ) (result : Option (Option HydrationResult)) (s : Scheduler)
      → IsConsistent c s
      → IsConsistent c (hydration_answered now caller result s)
  unfolding hydration_answered
  hydration_answered-IsConsistent caller result s v =
      answer_found-IsConsistent caller result (job_of caller s.running) s refl v

  finish_found-IsConsistent :
      (caller : ℕ) (o : Option Job) (s : Scheduler)
      → job_of caller s.finishing ≡ o
      → IsConsistent c s
      → IsConsistent c (finish_found c now caller o s)
  unfolding finish_found prune_recent_hydrations
  finish_found-IsConsistent caller none s e v = v
  finish_found-IsConsistent caller (some item) s e (t, w) = (
    record {
      one_each = λ k. ground (
        arith,
        t.one_each k,
        present-le (map_get k s.in_flight_by_socket),
        with_key-without_job k caller item s.finishing e,
        map_get-map_delete item.hydration_key k s.in_flight_by_socket,
      );
      counted = omega (arith, t.counted, length-without_job caller item s.finishing e);
      capped = omega (arith, t.capped);
    },
    w,
  )

  pub hydration_finished-IsConsistent :
      (caller : ℕ) (s : Scheduler)
      → IsConsistent c s
      → IsConsistent c (hydration_finished c now caller s)
  unfolding hydration_finished
  hydration_finished-IsConsistent caller s v =
      finish_found-IsConsistent caller (job_of caller s.finishing) s refl v
