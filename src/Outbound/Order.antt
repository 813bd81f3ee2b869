-- ===== src/Outbound/Order.antt =====
-- The order of frames: what a drain of outboundQueue.ts does to the line of frames of one socket.
use mathlib.Core.List.{append_assoc, append-nil, Sublist, sublist-append_left}
use mathlib.Core.List.Sublist
use cse356_discord.Common.{
  ◌<◌, ◌≡◌, refl, sym, subst, true, false, ◌⊎◌, inl, inr, List, [], ◌∷◌, ◌++◌, arith, length,
}
use cse356_discord.Outbound.Payload.{was_socket_message_recently_delivered}
use cse356_discord.Outbound.Socket.{
  Socket, Job, Config, is_open, msg_cap, clear_outbound_queue, drop_connection,
  schedule_outbound_drain,
}
use cse356_discord.Outbound.Flush.{is_suppressed, flush_outbound_job}
use cse356_discord.Outbound.Drain.{run_scheduled_drain}
use cse356_discord.Outbound.Drain.Rule.{shifted, promoted_one, run_scheduled_drain-keeps}
use cse356_discord.Outbound.Send.{send_job}

-- The frames of a socket, oldest first: in flight, queued, and parked behind a full queue.
abbrev pub line : Socket → List Job
line s = s.sends ++ (s.queue ++ s.waiters)

-- A flush gives the frame to `ws.send`, or settles it, or ends the socket and empties its queue.
flush-cases :
    (c : Config) (s : Socket) (job : Job)
    → let t = flush_outbound_job c s job in
      ((t.sends ≡ s.sends ++ job ∷ []) × (t.queue ≡ s.queue) × (t.waiters ≡ s.waiters))
      ⊎ (((t.sends ≡ s.sends) × (t.queue ≡ s.queue) × (t.waiters ≡ s.waiters))
          ⊎ ((t.sends ≡ s.sends) × (t.queue ≡ []) × (t.waiters ≡ [])))
unfolding flush_outbound_job drop_connection
flush-cases c s job = ground arith

module _ {ℓ} {A : Type ℓ} where
  skip_middle : (xs ys : List A) (a : A) → Sublist (xs ++ ys) (xs ++ a ∷ ys)
  skip_middle xs ys a = Sublist.append (Sublist.refl xs) (Sublist.cons a (Sublist.refl ys))

line-flush :
    (c : Config) (s : Socket) (job : Job)
    → Sublist (line (flush_outbound_job c s job)) (s.sends ++ job ∷ (s.queue ++ s.waiters))
line-flush c s job = elim (flush-cases c s job) [
  | inl (a, b, d) ↦ rw (a, b, d) (rw append_assoc (Sublist.refl _))
  | inr (inl (a, b, d)) ↦ rw (a, b, d) (skip_middle s.sends (s.queue ++ s.waiters) job)
  | inr (inr (a, b, d)) ↦ rw (a, b, d, append-nil) (sublist-append_left s.sends _)
]

line-promoted :
    (s : Socket) (job : Job) (ws : List Job)
    → s.waiters ≡ job ∷ ws
    → line (promoted_one s job ws) ≡ line s
line-promoted s job ws e = rw (e, append_assoc) refl

line-schedule : (s : Socket) → line (schedule_outbound_drain s) ≡ line s
unfolding schedule_outbound_drain
line-schedule s = ground arith

line-clear : (s : Socket) → Sublist (line (clear_outbound_queue s)) (line s)
unfolding clear_outbound_queue
line-clear s = simp append-nil (sublist-append_left s.sends _)

-- A scheduled drain sends frames in the order of the line, and puts no frame in it twice: what is in
-- flight, queued or parked afterwards is a sublist, in the same order, of what was before.
pub run_scheduled_drain-line :
    (c : Config) (s : Socket) → Sublist (line (run_scheduled_drain c s)) (line s)
run_scheduled_drain-line c s =
    run_scheduled_drain-keeps c (λ t. Sublist (line t) (line s))
      (λ t job ws e room h. subst (λ l. Sublist l (line s)) (sym (line-promoted t job ws e)) h)
      (λ t job q e h.
        Sublist.trans (line-flush c (shifted t q) job)
          (subst (λ x. Sublist (t.sends ++ (x ++ t.waiters)) (line s)) e h))
      (λ t. Sublist (line t) (line s)) (λ t h. Sublist.trans (line-clear t) h)
      (λ t h. subst (λ l. Sublist l (line s)) (sym (line-schedule t)) h) s (Sublist.refl (line s))

-- While an open socket's queue has room and others still wait behind it, a reliable frame that is
-- neither suppressed nor a duplicate is queued ahead of the waiters.
pub send_job-overtakes :
    (c : Config) (s : Socket) (job : Job)
    → is_open s.ready_state ≡ true
    → is_suppressed s job ≡ false
    → was_socket_message_recently_delivered s.recent_keys job.prepared.dedupe_key ≡ false
    → job.prepared.skip_drop_for_backpressure ≡ true
    → length s.queue < msg_cap c
    → line (send_job c s job).0 ≡ s.sends ++ (s.queue ++ (job ∷ s.waiters))
unfolding send_job schedule_outbound_drain
send_job-overtakes c s job opened unsuppressed fresh reliable room =
    ground (arith, append_assoc s.queue (job ∷ []) s.waiters)
