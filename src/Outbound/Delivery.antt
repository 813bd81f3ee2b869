-- ===== src/Outbound/Delivery.antt =====
-- Which frames reach `ws.send`: outboundQueue.ts together with the payloads of outboundPayload.ts.
use cse356_discord.Common.{
  ℕ, ◌+◌, ◌≤◌, ◌≡◌, ◌≢◌, refl, ap, ◌∙◌, String, true, Option, none, some, List, [], ◌∷◌, ◌++◌,
  arith, All, length,
}
use cse356_discord.Value.{Value, str, get_field, is_object}
use cse356_discord.Realtime.Aliases.{message_dedupe_family, message_dedupe_family-is_reliable}
use cse356_discord.Outbound.Payload.{prepare_socket_payload, ws_socket_message_dedupe_max}
use cse356_discord.Outbound.Payload.Laws.{mark_socket_message_delivered-remembers}
use cse356_discord.Outbound.Socket.{
  Socket, Job, Config, Outcome, confirmed, failed, Failure, backpressure_drop, fail_job,
  confirm_job, fail_all, drop_connection,
}
use cse356_discord.Outbound.Flush.{flush_outbound_job, send_done}

-- If a socket remembers at most 512 keys, none of them empty, then right after a frame was written no
-- other frame with its dedupe key is given to `ws.send`: whatever else holds, flushing it leaves the
-- frames in flight as they are.
pub flush-send_done :
    (c : Config) (s : Socket) (job later : Job) (rest : List Job) (now : ℕ) (key : String)
    → job.prepared.dedupe_key ≡ some key
    → later.prepared.dedupe_key ≡ some key
    → length s.recent_keys ≤ ws_socket_message_dedupe_max
    → All (λ (e : String × ℕ). e.0 ≢ "") s.recent_keys
    → (flush_outbound_job c (send_done c s job rest true now) later).sends ≡ rest
unfolding flush_outbound_job send_done
flush-send_done c s job later rest now key e e' h a =
    ground (arith, mark_socket_message_delivered-remembers s.recent_keys key now h a)

-- Calls of `onReliableSendFailed("backpressure_drop")`.
abbrev pub drops : List Outcome → ℕ
drops [] = 0
drops (failed r backpressure_drop ∷ out) = 1 + drops out
drops (_ ∷ out) = drops out

drops-append : (xs ys : List Outcome) → drops (xs ++ ys) ≡ drops xs + drops ys
drops-append [] ys = omega arith
drops-append (confirmed r ∷ xs) ys = drops-append xs ys
drops-append (failed r Failure.not_open ∷ xs) ys = drops-append xs ys
drops-append (failed r Failure.logical_suppressed ∷ xs) ys = drops-append xs ys
drops-append (failed r Failure.backpressure_kill ∷ xs) ys = drops-append xs ys
drops-append (failed r Failure.send_failed ∷ xs) ys = drops-append xs ys
drops-append (failed r backpressure_drop ∷ xs) ys = omega (arith, drops-append xs ys)

drops-fail_job :
    (reason : Failure) (o : Option ℕ) (out : List Outcome)
    → reason ≢ backpressure_drop
    → drops (fail_job reason o out) ≡ drops out
drops-fail_job reason none out h = refl
drops-fail_job reason (some x) out h = ground (arith, drops-append out (failed x reason ∷ []))

drops-fail_all : (jobs : List Job) (out : List Outcome) → drops (fail_all jobs out) ≡ drops out
unfolding fail_all
drops-fail_all [] out = refl
drops-fail_all (job ∷ jobs) out =
    drops-fail_all jobs _ ∙ drops-fail_job Failure.not_open job.reservation out (λ e. cc)

drops-confirm_job : (o : Option ℕ) (out : List Outcome) → drops (confirm_job o out) ≡ drops out
drops-confirm_job none out = refl
drops-confirm_job (some x) out = omega (arith, drops-append out (confirmed x ∷ []))

flush-drops :
    (c : Config) (s : Socket) (job : Job)
    → job.prepared.skip_drop_for_backpressure ≡ true
    → drops (flush_outbound_job c s job).outcomes ≡ drops s.outcomes
unfolding flush_outbound_job drop_connection
flush-drops c s job reliable = ground (
  arith,
  drops-fail_job Failure.not_open job.reservation s.outcomes,
  drops-fail_job Failure.logical_suppressed job.reservation s.outcomes,
  drops-fail_job Failure.backpressure_kill job.reservation
      (fail_all s.waiters (fail_all s.queue s.outcomes)),
  drops-fail_all s.waiters (fail_all s.queue s.outcomes),
  drops-fail_all s.queue s.outcomes,
  drops-confirm_job job.reservation s.outcomes,
)

prepare-reliable :
    (c : Config) (logical_channel raw_message ev : String) (parsed : Value)
    → is_object parsed ≡ true
    → get_field "event" parsed ≡ str ev
    → message_dedupe_family ev ≢ none
    → (prepare_socket_payload c.runtime logical_channel parsed
        raw_message).skip_drop_for_backpressure
      ≡ true
unfolding prepare_socket_payload
prepare-reliable c logical_channel raw_message ev parsed o e h =
    rw (o, e) (message_dedupe_family-is_reliable ev h)

-- If a job's payload is an object prepared by prepareSocketPayload whose event is in a dedupe
-- family, it is never dropped for backpressure: whatever the state of the socket, flushing it adds
-- no call of `onReliableSendFailed("backpressure_drop")`.
pub flush-message_never_dropped :
    (c : Config) (s : Socket) (job : Job) (raw_message ev : String)
    → job.prepared ≡ prepare_socket_payload c.runtime job.logical_channel job.parsed raw_message
    → is_object job.parsed ≡ true
    → get_field "event" job.parsed ≡ str ev
    → message_dedupe_family ev ≢ none
    → drops (flush_outbound_job c s job).outcomes ≡ drops s.outcomes
flush-message_never_dropped c s job raw_message ev made o e h = flush-drops c s job (
    ap (λ p. p.skip_drop_for_backpressure) made
    ∙ prepare-reliable c job.logical_channel raw_message ev job.parsed o e h)
