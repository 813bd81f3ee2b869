-- ===== src/Outbound/Settlement.antt =====
-- What becomes of a reservation: outboundQueue.ts against the callbacks that it promises to make.
use cse356_discord.Common.{
  ℕ, ◌+◌, ◌≡◌, refl, Bool, Option, none, some, List, [], ◌∷◌, ◌++◌, arith, if◌then◌else◌, ◌==◌,
  nat_eq, ◌∙◌, ap,
}
use cse356_discord.Outbound.Socket.{
  Socket, Job, Config, Failure, Outcome, confirmed, failed, Disconnect, fail_job, fail_all,
  confirm_job, clear_outbound_queue, drop_connection, schedule_outbound_drain,
}
use cse356_discord.Outbound.Flush.{flush_outbound_job, send_done}
use cse356_discord.Outbound.Drain.{run_scheduled_drain}
use cse356_discord.Outbound.Drain.Rule.{shifted, run_scheduled_drain-keeps}
use cse356_discord.Outbound.Send.{
  Answer, accepted, was_recently_delivered, send_reliable, send_best_effort, send_job,
}
use cse356_discord.Outbound.History.{
  Event, submit, drain_fires, send_completes, cleaned_up, library_changes, complete_oldest, step,
  run,
}

abbrev pub owes : ℕ → Option ℕ → ℕ
owes r none = 0
owes r (some x) = if r == x then 1 else 0

-- How many of the jobs hold reservation `r`.
abbrev pub held : ℕ → List Job → ℕ
held r [] = 0
held r (job ∷ jobs) = owes r job.reservation + held r jobs

-- How often a callback of `r` was made.
abbrev pub told : ℕ → List Outcome → ℕ
told r [] = 0
told r (confirmed x ∷ out) = (if r == x then 1 else 0) + told r out
told r (failed x reason ∷ out) = (if r == x then 1 else 0) + told r out

-- Copies of `r` that wait, fly, or are settled.
abbrev pub balance : ℕ → Socket → ℕ
balance r s = held r s.queue + held r s.waiters + held r s.sends + told r s.outcomes

held-append : (r : ℕ) (xs ys : List Job) → held r (xs ++ ys) ≡ held r xs + held r ys
held-append r [] ys = omega arith
held-append r (x ∷ xs) ys = omega (arith, held-append r xs ys)

told-append : (r : ℕ) (xs ys : List Outcome) → told r (xs ++ ys) ≡ told r xs + told r ys
told-append r [] ys = omega arith
told-append r (confirmed x ∷ xs) ys = omega (arith, told-append r xs ys)
told-append r (failed x reason ∷ xs) ys = omega (arith, told-append r xs ys)

told-fail_job :
    (r : ℕ) (reason : Failure) (o : Option ℕ) (out : List Outcome)
    → told r (fail_job reason o out) ≡ told r out + owes r o
told-fail_job r reason none out = omega arith
told-fail_job r reason (some x) out = omega (arith, told-append r out (failed x reason ∷ []))

told-confirm_job :
    (r : ℕ) (o : Option ℕ) (out : List Outcome) → told r (confirm_job o out) ≡ told r out + owes r o
told-confirm_job r none out = omega arith
told-confirm_job r (some x) out = omega (arith, told-append r out (confirmed x ∷ []))

told-fail_all :
    (r : ℕ) (jobs : List Job) (out : List Outcome)
    → told r (fail_all jobs out) ≡ told r out + held r jobs
unfolding fail_all
told-fail_all r [] out = omega arith
told-fail_all r (job ∷ jobs) out =
    omega (arith, told-fail_all r jobs _, told-fail_job r Failure.not_open job.reservation out)

ruleset accounts = (arith, held-append, told-fail_job, told-confirm_job, told-fail_all)

balance-clear : (r : ℕ) (s : Socket) → balance r (clear_outbound_queue s) ≡ balance r s
unfolding clear_outbound_queue
balance-clear r s = omega accounts

balance-drop_connection :
    (r : ℕ) (c : Config) (reason : Disconnect) (s : Socket)
    → balance r (drop_connection c reason s) ≡ balance r s
unfolding drop_connection
balance-drop_connection r c reason s = omega accounts

balance-schedule : (r : ℕ) (s : Socket) → balance r (schedule_outbound_drain s) ≡ balance r s
unfolding schedule_outbound_drain
balance-schedule r s = ground arith

balance-flush :
    (r : ℕ) (c : Config) (s : Socket) (job : Job)
    → balance r (flush_outbound_job c s job) ≡ balance r s + owes r job.reservation
unfolding flush_outbound_job
balance-flush r c s job = grind (accounts, balance-drop_connection)

balance-run_scheduled_drain :
    (r : ℕ) (c : Config) (s : Socket) → balance r (run_scheduled_drain c s) ≡ balance r s
balance-run_scheduled_drain r c s =
    run_scheduled_drain-keeps c (λ t. balance r t ≡ balance r s)
      (λ t job ws e h. omega (accounts, ap (held r) e))
      (λ t job q e h. omega (arith, ap (held r) e, balance-flush r c (shifted t q) job))
      (λ t. balance r t ≡ balance r s) (λ t h. balance-clear r t ∙ h)
      (λ t h. balance-schedule r t ∙ h) s refl

balance-send_done :
    (r : ℕ) (c : Config) (s : Socket) (job : Job) (rest : List Job) (ok : Bool) (now : ℕ)
    → s.sends ≡ job ∷ rest
    → balance r (send_done c s job rest ok now) ≡ balance r s
unfolding send_done
balance-send_done r c s job rest ok now e = grind (accounts, balance-drop_connection, ap (held r) e)

-- The copies of `r` that a call of `sendPayloadToSocket` takes charge of.
abbrev pub charged : ℕ → Job → Answer → ℕ
charged r job accepted = owes r job.reservation
charged r job was_recently_delivered = owes r job.reservation
charged r job _ = 0

balance-send_reliable :
    (r : ℕ) (c : Config) (s : Socket) (job : Job)
    → balance r (send_reliable c s job).0 ≡ balance r s + charged r job (send_reliable c s job).1
unfolding send_reliable
balance-send_reliable r c s job = grind (accounts, balance-drop_connection, balance-schedule)

balance-send_best_effort :
    (r : ℕ) (c : Config) (s : Socket) (job : Job)
    → balance r (send_best_effort c s job).0
      ≡ balance r s + charged r job (send_best_effort c s job).1
unfolding send_best_effort
balance-send_best_effort r c s job = grind (accounts, balance-schedule)

balance-send_job :
    (r : ℕ) (c : Config) (s : Socket) (job : Job)
    → balance r (send_job c s job).0 ≡ balance r s + charged r job (send_job c s job).1
unfolding send_job
balance-send_job r c s job =
    grind (accounts, balance-send_reliable r c s job, balance-send_best_effort r c s job)

abbrev pub charged_by : Config → ℕ → Socket → Event → ℕ
charged_by c r s (submit job) = charged r job (send_job c s job).1
charged_by c r s _ = 0

-- The copies of `r` taken charge of along a history.
unfoldable pub charged_along : Config → ℕ → Socket → List Event → ℕ
charged_along c r s [] = 0
charged_along c r s (e ∷ es) = charged_by c r s e + charged_along c r (step c s e) es

balance-complete_oldest :
    (r : ℕ) (c : Config) (s : Socket) (ok : Bool) (now : ℕ) (jobs : List Job)
    → s.sends ≡ jobs
    → balance r (complete_oldest c s jobs ok now) ≡ balance r s
unfolding complete_oldest
balance-complete_oldest r c s ok now [] e = refl
balance-complete_oldest r c s ok now (job ∷ rest) e = balance-send_done r c s job rest ok now e

balance-step :
    (r : ℕ) (c : Config) (s : Socket) (e : Event)
    → balance r (step c s e) ≡ balance r s + charged_by c r s e
unfolding step
balance-step r c s (submit job) = balance-send_job r c s job
balance-step r c s drain_fires = ground (arith, balance-run_scheduled_drain r c s)
balance-step r c s (send_completes ok now) =
    omega (arith, balance-complete_oldest r c s ok now s.sends refl)
balance-step r c s cleaned_up = omega (arith, balance-clear r s)
balance-step r c s (library_changes state buffered) = omega arith

-- Over any history of sends, drains, completions, clean-ups and changes of the socket, the copies of
-- a reservation that wait, fly or are settled are those that were there and those that
-- `sendPayloadToSocket` took charge of since: no callback is lost, and none is made twice.
pub balance-run :
    (r : ℕ) (c : Config) (s : Socket) (es : List Event)
    → balance r (run c s es) ≡ balance r s + charged_along c r s es
unfolding run charged_along
balance-run r c s [] = omega arith
balance-run r c s (e ∷ es) = omega (arith, balance-run r c (step c s e) es, balance-step r c s e)
