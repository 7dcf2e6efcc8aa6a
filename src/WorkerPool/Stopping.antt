-- ===== src/WorkerPool/Stopping.antt =====
-- `Stop` and a worker that has returned.
use arbokcore.Prelude.{
  Holds-unless, ℕ, List, [], ◌∷◌, ◌++◌, Option, none, some, ltb, eqb, eqb_iff, length, Bool-cases,
  Option-cases, Holds, Holds-if, inl, inr, ◌≡◌, refl, subst, ap, ◌∙◌, sym, arith,
}
use arbokcore.WorkerPool.{
  Phase, offering, waiting, busy, sending, stopped, Worker, Dispatcher, selecting, holding, handing,
  returned, Pool, Action, arrive, close_channel, receive, receive_zero, fetch, hand, offer, start,
  finish, send_result, read_result, cancel, leave, close, stop, quit, set_worker, receive_job,
  receive_closed, fetch_bench, put_job, hand_job, offer_bench, start_job, finish_job, put_result,
  take_result, leave_loop, close_dispatcher, of_worker, quit_worker, quit_next, act, run, run-Holds,
}

module _ {ℓ} {E : Type ℓ} where
  -- `Stop` is at the worker `i`, which has returned.
  record Stuck (i : ℕ) (s : Pool E) : Type ℓ where
    stopping : s.stopping ≡ some i
    gone : (s.workers i).phase ≡ stopped

  -- A move that leaves the call of `Stop` where it is, and changes a worker that has not returned.
  worker-Stuck :
      (i j : ℕ) (w : Worker E) (s t : Pool E)
      → (t.stopping ≡ s.stopping) × (t.workers ≡ s.workers)
      → ((s.workers j).phase ≡ stopped → w.phase ≡ stopped)
      → Stuck i s
      → Stuck i (set_worker j w t)
  worker-Stuck i j w s t same keeps h = record {
    stopping = same.0 ∙ h.stopping;
    gone = elim (Bool-cases (eqb j i)) [
      | inl here ↦ rw here (keeps (ap (λ k. (s.workers k).phase) ((eqb_iff j i).0 here) ∙ h.gone))
      | inr other ↦ rw (other, same.1) h.gone
    ];
  }

  pool-Stuck :
      (i : ℕ) (s t : Pool E)
      → (t.stopping ≡ s.stopping) × (t.workers ≡ s.workers)
      → Stuck i s
      → Stuck i t
  pool-Stuck i s t same h = record { stopping = same.0 ∙ h.stopping; gone = rw (same.1) h.gone }

  receive_job-Stuck :
      (i : ℕ) (d : Dispatcher E) (pending : List E) (s : Pool E)
      → Stuck i s
      → Holds (Stuck i) (receive_job d pending s)
  unfolding receive_job
  receive_job-Stuck i selecting (job ∷ rest) s h = pool-Stuck i s _ (refl, refl) h
  receive_job-Stuck i selecting [] s h = tt
  receive_job-Stuck i (holding job) pending s h = tt
  receive_job-Stuck i (handing job j) pending s h = tt
  receive_job-Stuck i returned pending s h = tt

  receive_closed-Stuck :
      (i : ℕ) (job : E) (d : Dispatcher E) (pending : List E) (s : Pool E)
      → Stuck i s
      → Holds (Stuck i) (receive_closed job d pending s)
  unfolding receive_closed
  receive_closed-Stuck i job selecting [] s h =
      Holds-if (Stuck i) s.closed _ (λ c. pool-Stuck i s _ (refl, refl) h)
  receive_closed-Stuck i job selecting (other ∷ rest) s h = tt
  receive_closed-Stuck i job (holding other) pending s h = tt
  receive_closed-Stuck i job (handing other j) pending s h = tt
  receive_closed-Stuck i job returned pending s h = tt

  fetch_bench-Stuck :
      (i : ℕ) (d : Dispatcher E) (free : List ℕ) (s : Pool E)
      → Stuck i s
      → Holds (Stuck i) (fetch_bench d free s)
  unfolding fetch_bench
  fetch_bench-Stuck i (holding job) (j ∷ rest) s h = pool-Stuck i s _ (refl, refl) h
  fetch_bench-Stuck i (holding job) [] s h = tt
  fetch_bench-Stuck i selecting free s h = tt
  fetch_bench-Stuck i (handing job j) free s h = tt
  fetch_bench-Stuck i returned free s h = tt

  hand_job-Stuck :
      (i : ℕ) (d : Dispatcher E) (s : Pool E) → Stuck i s → Holds (Stuck i) (hand_job d s)
  unfolding hand_job put_job
  hand_job-Stuck i (handing job j) s h = elim (Option-cases (s.workers j).bench) [
    | inl empty ↦ rw empty (
        worker-Stuck i j (record (s.workers j) { bench = some job }) s
          (record s { dispatcher = selecting }) (refl, refl) (λ e. e) h)
    | inr full ↦ rw (full.1) tt
  ]
  hand_job-Stuck i selecting s h = tt
  hand_job-Stuck i (holding job) s h = tt
  hand_job-Stuck i returned s h = tt

  offer_bench-Stuck :
      (i j : ℕ) (q : Phase E) (s : Pool E)
      → (s.workers j).phase ≡ q
      → Stuck i s
      → Holds (Stuck i) (offer_bench j q s)
  unfolding offer_bench
  offer_bench-Stuck i j offering s e h = Holds-if (Stuck i) (ltb (length s.free) s.size) _ (λ room.
      worker-Stuck i j (record (s.workers j) { phase = waiting }) s
        (record s { free = s.free ++ j ∷ [] }) (refl, refl) (λ g. absurd (ground (arith, e, g))) h)
  offer_bench-Stuck i j waiting s e h = tt
  offer_bench-Stuck i j (busy job) s e h = tt
  offer_bench-Stuck i j (sending job) s e h = tt
  offer_bench-Stuck i j stopped s e h = tt

  start_job-Stuck :
      (i j : ℕ) (q : Phase E) (b : Option E) (s : Pool E)
      → (s.workers j).phase ≡ q
      → Stuck i s
      → Holds (Stuck i) (start_job j q b s)
  unfolding start_job
  start_job-Stuck i j waiting (some job) s e h =
      worker-Stuck i j _ s s (refl, refl) (λ g. absurd (ground (arith, e, g))) h
  start_job-Stuck i j waiting none s e h = tt
  start_job-Stuck i j offering b s e h = tt
  start_job-Stuck i j (busy job) b s e h = tt
  start_job-Stuck i j (sending job) b s e h = tt
  start_job-Stuck i j stopped b s e h = tt

  finish_job-Stuck :
      (i j : ℕ) (q : Phase E) (s : Pool E)
      → (s.workers j).phase ≡ q
      → Stuck i s
      → Holds (Stuck i) (finish_job j q s)
  unfolding finish_job
  finish_job-Stuck i j (busy job) s e h =
      worker-Stuck i j _ s (record s { processed = s.processed ++ job ∷ [] }) (refl, refl)
        (λ g. absurd (ground (arith, e, g))) h
  finish_job-Stuck i j offering s e h = tt
  finish_job-Stuck i j waiting s e h = tt
  finish_job-Stuck i j (sending job) s e h = tt
  finish_job-Stuck i j stopped s e h = tt

  put_result-Stuck :
      (i j : ℕ) (q : Phase E) (r : Option E) (s : Pool E)
      → (s.workers j).phase ≡ q
      → Stuck i s
      → Holds (Stuck i) (put_result j q r s)
  unfolding put_result
  put_result-Stuck i j (sending job) none s e h =
      worker-Stuck i j _ s s (refl, refl) (λ g. absurd (ground (arith, e, g))) h
  put_result-Stuck i j (sending job) (some other) s e h = tt
  put_result-Stuck i j offering r s e h = tt
  put_result-Stuck i j waiting r s e h = tt
  put_result-Stuck i j (busy job) r s e h = tt
  put_result-Stuck i j stopped r s e h = tt

  take_result-Stuck :
      (i j : ℕ) (r : Option E) (s : Pool E) → Stuck i s → Holds (Stuck i) (take_result j r s)
  unfolding take_result
  take_result-Stuck i j none s h = tt
  take_result-Stuck i j (some job) s h = worker-Stuck i j _ s s (refl, refl) (λ g. g) h

  leave_loop-Stuck :
      (i j : ℕ) (q : Phase E) (s : Pool E) → Stuck i s → Holds (Stuck i) (leave_loop j q s)
  unfolding leave_loop
  leave_loop-Stuck i j waiting s h =
      Holds-if (Stuck i) s.canceled _ (λ c. worker-Stuck i j _ s s (refl, refl) (λ g. refl) h)
  leave_loop-Stuck i j (sending job) s h =
      Holds-if (Stuck i) s.canceled _ (λ c. worker-Stuck i j _ s s (refl, refl) (λ g. refl) h)
  leave_loop-Stuck i j offering s h = tt
  leave_loop-Stuck i j (busy job) s h = tt
  leave_loop-Stuck i j stopped s h = tt

  close_dispatcher-Stuck :
      (i : ℕ) (d : Dispatcher E) (s : Pool E) → Stuck i s → Holds (Stuck i) (close_dispatcher d s)
  unfolding close_dispatcher
  close_dispatcher-Stuck i selecting s h =
      Holds-if (Stuck i) s.canceled _ (λ c. pool-Stuck i s _ (refl, refl) h)
  close_dispatcher-Stuck i (holding job) s h = tt
  close_dispatcher-Stuck i (handing job j) s h = tt
  close_dispatcher-Stuck i returned s h = tt

  of_worker-Stuck :
      (i j : ℕ) (s : Pool E) (moved : Option (Pool E))
      → Holds (Stuck i) moved
      → Holds (Stuck i) (of_worker j s moved)
  of_worker-Stuck i j s moved h = Holds-if (Stuck i) (ltb j s.size) moved (λ b. h)

  -- `Quit` has no reader.
  quit_next-Stuck : (i : ℕ) (s : Pool E) → Stuck i s → quit_next s.stopping s ≡ none
  unfolding quit_next quit_worker
  quit_next-Stuck i s h = rw (h.stopping, quit_next, h.gone, quit_worker) (ground arith)

  act-Stuck : (i : ℕ) (a : Action E) (s : Pool E) → Stuck i s → Holds (Stuck i) (act a s)
  unfolding act
  act-Stuck i (arrive job) s h = Holds-unless (Stuck i) s.closed _ (pool-Stuck i s _ (refl, refl) h)
  act-Stuck i close_channel s h =
      Holds-unless (Stuck i) s.closed _ (pool-Stuck i s _ (refl, refl) h)
  act-Stuck i (receive_zero job) s h = receive_closed-Stuck i job s.dispatcher s.pending s h
  act-Stuck i receive s h = receive_job-Stuck i s.dispatcher s.pending s h
  act-Stuck i fetch s h = fetch_bench-Stuck i s.dispatcher s.free s h
  act-Stuck i hand s h = hand_job-Stuck i s.dispatcher s h
  act-Stuck i (offer j) s h =
      of_worker-Stuck i j s _ (offer_bench-Stuck i j (s.workers j).phase s refl h)
  act-Stuck i (start j) s h =
      of_worker-Stuck i j s _ (start_job-Stuck i j (s.workers j).phase (s.workers j).bench s refl h)
  act-Stuck i (finish j) s h =
      of_worker-Stuck i j s _ (finish_job-Stuck i j (s.workers j).phase s refl h)
  act-Stuck i (send_result j) s h =
      of_worker-Stuck i j s _
        (put_result-Stuck i j (s.workers j).phase (s.workers j).result s refl h)
  act-Stuck i (read_result j) s h =
      of_worker-Stuck i j s _ (take_result-Stuck i j (s.workers j).result s h)
  act-Stuck i cancel s h = pool-Stuck i s _ (refl, refl) h
  act-Stuck i (leave j) s h = of_worker-Stuck i j s _ (leave_loop-Stuck i j (s.workers j).phase s h)
  act-Stuck i close s h = close_dispatcher-Stuck i s.dispatcher s h
  act-Stuck i stop s h =
      subst
        (λ m.
          Holds (Stuck i) (elim m [ none ↦ some (record s { stopping = some 0 }) | some k ↦ none ]))
        (sym h.stopping) tt
  act-Stuck i quit s h = subst (Holds (Stuck i)) (sym (quit_next-Stuck i s h)) tt

  -- `Stop` waits for ever at a worker that has returned: `Quit` has no buffer and no reader is left, so
  -- after any further moves the call stands at the same worker.
  pub stop-waits :
      (i : ℕ) (moves : List (Action E)) (s t : Pool E)
      → s.stopping ≡ some i
      → (s.workers i).phase ≡ stopped
      → run moves s ≡ some t
      → (t.stopping ≡ some i) × (act quit t ≡ none)
  unfolding act
  stop-waits i moves s t at gone h =
      let k =
        subst (Holds (Stuck i)) h
          (run-Holds (Stuck i) (act-Stuck i) moves s (record { stopping = at; gone = gone })) in
      (k.stopping, quit_next-Stuck i t k)
