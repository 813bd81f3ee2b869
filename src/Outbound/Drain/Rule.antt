-- ===== src/Outbound/Drain/Rule.antt =====
-- The induction rule for a drain: what each promotion and each flush keeps, the whole drain keeps.
use cse356_discord.Common.{
  ℕ, zero, suc, ◌+◌, ◌<◌, ◌≡◌, refl, false, ◌&&◌, List, [], ◌∷◌, ◌++◌, arith, length, ltb,
  Bool-cases, inl, inr, ◌⊎◌,
}
use cse356_discord.Outbound.Socket.{
  Socket, Job, Config, is_open, msg_cap, batch_cap, promote_budget, clear_outbound_queue,
  schedule_outbound_drain,
}
use cse356_discord.Outbound.Flush.{flush_outbound_job}
use cse356_discord.Outbound.Drain.{promote_waiters, drain_rounds, run_scheduled_drain}

-- The front waiter moves to the end of the queue.
abbrev pub promoted_one : Socket → Job → List Job → Socket
promoted_one s job ws = record s {
  queue = s.queue ++ job ∷ [];
  waiters = ws;
  gauge_inc = s.gauge_inc + 1;
}

-- The front job leaves the queue.
abbrev pub shifted : Socket → List Job → Socket
shifted s q = record s { queue = q; gauge_dec = s.gauge_dec + 1 }

pub List-cases {ℓ} :
    {A : Type ℓ} (xs : List A) → (xs ≡ []) ⊎ ((x : A) × (rest : List A) × (xs ≡ x ∷ rest))
List-cases [] = inl refl
List-cases (x ∷ rest) = inr (x, rest, refl)

module _ {ℓ} (c : Config) (P : Socket → Type ℓ)
    (promoting : (s : Socket) (job : Job) (ws : List Job)
      → s.waiters ≡ job ∷ ws
      → length s.queue < msg_cap c
      → P s
      → P (promoted_one s job ws))
    (flushing : (s : Socket) (job : Job) (q : List Job)
      → s.queue ≡ job ∷ q
      → P s
      → P (flush_outbound_job c (shifted s q) job)) where
  promote_waiters-keeps :
      (ws : List Job) (p : ℕ) (s : Socket) → s.waiters ≡ ws → P s → P (promote_waiters c ws p s).0
  unfolding promote_waiters
  promote_waiters-keeps [] p s e h = h
  promote_waiters-keeps (job ∷ ws) p s e h =
      elim (Bool-cases (ltb (length s.queue) (msg_cap c) && ltb p (promote_budget c))) [
        | inl t ↦ rw t (
            promote_waiters-keeps ws (p + 1) (promoted_one s job ws) refl
              (promoting s job ws e (ground arith) h))
        | inr f ↦ rw f h
      ]

  pub drain_rounds-keeps : (rounds p n : ℕ) (s : Socket) → P s → P (drain_rounds c rounds p n s).0
  unfolding drain_rounds
  drain_rounds-keeps zero p n s h = h
  drain_rounds-keeps (suc rounds) p n s h = elim (Bool-cases (is_open s.ready_state)) [
    | inr f ↦ rw f h
    | inl t ↦ rw t (
        let s' : Socket = (promote_waiters c s.waiters p s).0 in
        let p' : ℕ = (promote_waiters c s.waiters p s).1 in
        let h' : P s' = promote_waiters-keeps s.waiters p s refl h in
        elim (List-cases s'.queue) [
          | inl e ↦ rw e h'
          | inr (job, q, e) ↦ rw e (
              drain_rounds-keeps rounds p' (n + 1) (flush_outbound_job c (shifted s' q) job)
                (flushing s' job q e h'))
        ])
  ]

  -- `Q` is what holds once the drain has rescheduled itself, or has cleared a socket that is gone.
  pub run_scheduled_drain-keeps {κ} :
      (Q : Socket → Type κ)
      → ((s : Socket) → P s → Q (clear_outbound_queue s))
      → ((s : Socket) → P s → Q (schedule_outbound_drain s))
      → (s : Socket) → P (record s { drain_scheduled = false })
      → Q (run_scheduled_drain c s)
  unfolding run_scheduled_drain
  run_scheduled_drain-keeps Q clearing scheduling s h = elim (Bool-cases (is_open s.ready_state)) [
    | inr f ↦ rw f (clearing _ h)
    | inl t ↦ rw t (scheduling _ (drain_rounds-keeps (batch_cap c) 0 0 _ h))
  ]
