-- ===== src/Outbound/History.antt =====
-- The event loop's view of one socket: every way in which the code of outboundQueue.ts is entered,
-- and what the `ws` library does to the socket in between.
use cse356_discord.Common.{ℕ, Bool, true, false, List, [], ◌∷◌}
use cse356_discord.Outbound.Socket.{Socket, Job, Config, ReadyState, clear_outbound_queue}
use cse356_discord.Outbound.Flush.{send_done}
use cse356_discord.Outbound.Drain.{run_scheduled_drain}
use cse356_discord.Outbound.Send.{send_job}

pub data Event : Type 0 where
  submit : Job → Event
  drain_fires : Event
  send_completes : (ok : Bool) (now : ℕ) → Event
  cleaned_up : Event
  library_changes : ReadyState → (buffered : ℕ) → Event

-- The callbacks of `ws.send` come in the order of the calls.
unfoldable pub complete_oldest : Config → Socket → List Job → Bool → ℕ → Socket
complete_oldest c s [] ok now = s
complete_oldest c s (job ∷ rest) ok now = send_done c s job rest ok now

-- A drain runs only if one was scheduled.
unfoldable pub step : Config → Socket → Event → Socket
unfolding complete_oldest
step c s (submit job) = (send_job c s job).0
step c s drain_fires = elim s.drain_scheduled [ true ↦ run_scheduled_drain c s | false ↦ s ]
step c s (send_completes ok now) = complete_oldest c s s.sends ok now
step c s cleaned_up = clear_outbound_queue s
step c s (library_changes state buffered) = record s { ready_state = state; buffered = buffered }

unfoldable pub run : Config → Socket → List Event → Socket
run c s [] = s
run c s (e ∷ es) = run c (step c s e) es
