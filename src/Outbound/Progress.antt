-- ===== src/Outbound/Progress.antt =====
-- Draining ends: outboundQueue.ts sends or settles all queued work if nothing new comes.
use cse356_discord.Common.{
  ℕ, zero, suc, ◌+◌, ◌≤◌, ◌<◌, ◌≡◌, refl, ap, true, false, inl, inr, List, [], ◌∷◌, arith, length,
  length-append,
}
use cse356_discord.Outbound.Socket.{
  Socket, Job, Config, is_open, batch_cap, clear_outbound_queue, drop_connection,
  schedule_outbound_drain,
}
use cse356_discord.Outbound.Flush.{flush_outbound_job}
use cse356_discord.Outbound.Drain.{promote_waiters, drain_rounds, run_scheduled_drain}
use cse356_discord.Outbound.Drain.Rule.{shifted, promoted_one, List-cases, drain_rounds-keeps}

abbrev pub work : Socket → ℕ
work s = length s.queue + length s.waiters

work-flush : (c : Config) (s : Socket) (job : Job) → work (flush_outbound_job c s job) ≤ work s
unfolding flush_outbound_job drop_connection
work-flush c s job = ground arith

work-drain_rounds :
    (c : Config) (rounds p n : ℕ) (s : Socket) → work (drain_rounds c rounds p n s).0 ≤ work s
work-drain_rounds c rounds p n s =
    drain_rounds-keeps c (λ t. work t ≤ work s)
      (λ t job ws e room h. omega (arith, ap length e, length-append t.queue (job ∷ [])))
      (λ t job q e h. omega (arith, ap length e, work-flush c (shifted t q) job)) rounds p n s
      (omega arith)

work-promote :
    (c : Config) (ws : List Job) (p : ℕ) (s : Socket)
    → s.waiters ≡ ws
    → (work (promote_waiters c ws p s).0 ≡ work s)
      × (length s.queue ≤ length (promote_waiters c ws p s).0.queue)
unfolding promote_waiters
work-promote c [] p s e = (refl, omega arith)
work-promote c (job ∷ ws) p s e = ground (
  arith,
  ap length e,
  length-append s.queue (job ∷ []),
  work-promote c ws (p + 1) (promoted_one s job ws) refl,
)

-- At the start of a batch, work anywhere means a job in the queue.
promote-queue :
    (c : Config) (ws : List Job) (s : Socket)
    → s.waiters ≡ ws
    → 0 < work s
    → 0 < length (promote_waiters c ws 0 s).0.queue
unfolding promote_waiters
promote-queue c [] s e h = omega (arith, ap length e)
promote-queue c (job ∷ ws) s e h = ground (
  arith,
  ap length e,
  length-append s.queue (job ∷ []),
  work-promote c ws 1 (promoted_one s job ws) refl,
)

drain_rounds-progress :
    (c : Config) (rounds n : ℕ) (s : Socket)
    → 0 < rounds
    → is_open s.ready_state ≡ true
    → 0 < work s
    → work (drain_rounds c rounds 0 n s).0 < work s
unfolding drain_rounds
drain_rounds-progress c zero n s r t h = absurd (omega arith)
drain_rounds-progress c (suc rounds) n s r t h = rw t (
    let s' : Socket = (promote_waiters c s.waiters 0 s).0 in
    let p' : ℕ = (promote_waiters c s.waiters 0 s).1 in
    let kept = work-promote c s.waiters 0 s refl in
    elim (List-cases s'.queue) [
      | inl e ↦ absurd (omega (arith, ap length e, promote-queue c s.waiters s refl h))
      | inr (job, q, e) ↦ rw e (
          omega (
            arith,
            kept,
            ap length e,
            work-flush c (shifted s' q) job,
            work-drain_rounds c rounds p' (n + 1) (flush_outbound_job c (shifted s' q) job),
          ))
    ])

batch_cap-pos : (c : Config) → 0 < batch_cap c
batch_cap-pos c = ground arith

-- A scheduled drain that finds work leaves strictly less of it.
pub run_scheduled_drain-progress :
    (c : Config) (s : Socket) → 0 < work s → work (run_scheduled_drain c s) < work s
unfolding run_scheduled_drain clear_outbound_queue schedule_outbound_drain
run_scheduled_drain-progress c s h = ground (
  arith,
  drain_rounds-progress c (batch_cap c) 0 (record s { drain_scheduled = false }) (batch_cap-pos c),
)

abbrev pub drains : Config → ℕ → Socket → Socket
drains c zero s = s
drains c (suc k) s = drains c k (run_scheduled_drain c s)

work-run_scheduled_drain : (c : Config) (s : Socket) → work (run_scheduled_drain c s) ≤ work s
unfolding run_scheduled_drain clear_outbound_queue schedule_outbound_drain
work-run_scheduled_drain c s =
    ground (arith, work-drain_rounds c (batch_cap c) 0 0 (record s { drain_scheduled = false }))

-- Left to its own drains, a socket's queue and waiters are empty after as many of them as there were
-- jobs, whatever the backpressure, the suppressions and the state of the socket.
pub drains-work : (c : Config) (k : ℕ) (s : Socket) → work s ≤ k → work (drains c k s) ≡ 0
drains-work c zero s h = omega arith
drains-work c (suc k) s h =
    drains-work c k (run_scheduled_drain c s)
      (grind (arith, run_scheduled_drain-progress c s, work-run_scheduled_drain c s))
