-- ===== src/Outbound/Capacity.antt =====
-- The bounds that outboundQueue.ts keeps, its gauge, and that queued work is never forgotten.
use cse356_discord.Common.{
  ℕ, ◌+◌, ◌≤◌, ◌≡◌, Bool, true, ◌⊎◌, List, [], ◌∷◌, arith, length, length-append, max, ap,
}
use cse356_discord.Outbound.Socket.{
  Socket, Job, Config, Disconnect, msg_cap, best_effort_cap, clear_outbound_queue, drop_connection,
  schedule_outbound_drain,
}
use cse356_discord.Outbound.Flush.{flush_outbound_job, send_done}
use cse356_discord.Outbound.Drain.{run_scheduled_drain}
use cse356_discord.Outbound.Drain.Rule.{shifted, run_scheduled_drain-keeps}
use cse356_discord.Outbound.Send.{send_reliable, send_best_effort, send_job}
use cse356_discord.Outbound.History.{
  Event, submit, drain_fires, send_completes, cleaned_up, library_changes, complete_oldest, step,
  run,
}

-- Queue and waiters stay within their caps, and the gauge reads the length of the queue.
pub record Within (c : Config) (s : Socket) : Type 0 where
  pub queue_cap : length s.queue ≤ max (msg_cap c) (best_effort_cap c)
  pub waiter_cap : length s.waiters ≤ c.message_waiters_max
  pub gauge : s.gauge_inc ≡ s.gauge_dec + length s.queue

-- Where there is work, a drain is scheduled.
abbrev pub IsAwake : Socket → Type 0
IsAwake s = (s.drain_scheduled ≡ true) ⊎ (length s.queue + length s.waiters ≡ 0)

pub record Inv (c : Config) (s : Socket) : Type 0 where
  pub within : Within c s
  pub awake : IsAwake s

clear-Inv : (c : Config) (s : Socket) → Within c s → Inv c (clear_outbound_queue s)
unfolding clear_outbound_queue
clear-Inv c s w = ground arith

drop_connection-Inv :
    (c : Config) (reason : Disconnect) (s : Socket)
    → Within c s
    → Inv c (drop_connection c reason s)
unfolding drop_connection
drop_connection-Inv c reason s w = ground arith

schedule-Inv : (c : Config) (s : Socket) → Within c s → Inv c (schedule_outbound_drain s)
unfolding schedule_outbound_drain
schedule-Inv c s w = ground arith

flush-Within :
    (c : Config) (s : Socket) (job : Job) → Within c s → Within c (flush_outbound_job c s job)
unfolding flush_outbound_job drop_connection
flush-Within c s job w = ground arith

run_scheduled_drain-Inv : (c : Config) (s : Socket) → Within c s → Inv c (run_scheduled_drain c s)
run_scheduled_drain-Inv c s w =
    run_scheduled_drain-keeps c (Within c)
      (λ t job ws e room h. omega (arith, length-append t.queue (job ∷ []), ap length e))
      (λ t job q e h. flush-Within c (shifted t q) job (omega (arith, ap length e))) (Inv c)
      (clear-Inv c) (schedule-Inv c) s (omega arith)

send_done-Inv :
    (c : Config) (s : Socket) (job : Job) (rest : List Job) (ok : Bool) (now : ℕ)
    → Inv c s
    → Inv c (send_done c s job rest ok now)
unfolding send_done drop_connection
send_done-Inv c s job rest ok now v = ground arith

send_reliable-Inv :
    (c : Config) (s : Socket) (job : Job) → Inv c s → Inv c (send_reliable c s job).0
unfolding send_reliable drop_connection schedule_outbound_drain
send_reliable-Inv c s job v =
    ground (arith, length-append s.queue (job ∷ []), length-append s.waiters (job ∷ []))

send_best_effort-Inv :
    (c : Config) (s : Socket) (job : Job) → Inv c s → Inv c (send_best_effort c s job).0
unfolding send_best_effort schedule_outbound_drain
send_best_effort-Inv c s job v = ground (arith, length-append s.queue (job ∷ []))

send_job-Inv : (c : Config) (s : Socket) (job : Job) → Inv c s → Inv c (send_job c s job).0
unfolding send_job
send_job-Inv c s job v = ground (arith, send_reliable-Inv c s job v, send_best_effort-Inv c s job v)

complete-Inv :
    (c : Config) (s : Socket) (ok : Bool) (now : ℕ) (jobs : List Job)
    → Inv c s
    → Inv c (complete_oldest c s jobs ok now)
unfolding complete_oldest
complete-Inv c s ok now [] v = v
complete-Inv c s ok now (job ∷ rest) v = send_done-Inv c s job rest ok now v

-- Every way into the queue's code keeps the invariant: queue and waiters within their caps, the gauge
-- equal to the queue's length, and a drain scheduled whenever there is work.
pub step-Inv : (c : Config) (s : Socket) (e : Event) → Inv c s → Inv c (step c s e)
unfolding step
step-Inv c s (submit job) v = send_job-Inv c s job v
step-Inv c s drain_fires v = ground (arith, run_scheduled_drain-Inv c s v.within)
step-Inv c s (send_completes ok now) v = complete-Inv c s ok now s.sends v
step-Inv c s cleaned_up v = clear-Inv c s v.within
step-Inv c s (library_changes state buffered) v = ground arith

-- After any history of a socket whose queue and waiters are within their caps, whose gauge reads the
-- length of the queue and which has a drain scheduled if there is work, these four still hold.
pub run-Inv : (c : Config) (s : Socket) (es : List Event) → Inv c s → Inv c (run c s es)
unfolding run
run-Inv c s [] v = v
run-Inv c s (e ∷ es) v = run-Inv c (step c s e) es (step-Inv c s e v)
