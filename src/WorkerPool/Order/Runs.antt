-- ===== src/WorkerPool/Order/Runs.antt =====
-- Runs of a pool with one worker keep the order of the jobs.
use arbokcore.Prelude.{
  Holds-unless, ℕ, List, [], ◌∷◌, ◌++◌, Option, none, some, Bool, ltb, Holds, Holds-both, Holds-if,
  ◌≡◌, refl, subst, ap, ◌∙◌, arith,
}
use arbokcore.WorkerPool.{
  Phase, offering, waiting, busy, sending, stopped, Dispatcher, selecting, holding, handing,
  returned, Pool, Action, arrive, close_channel, receive, receive_zero, fetch, hand, offer, start,
  finish, send_result, read_result, cancel, leave, close, stop, quit, new_worker_pool, offer_bench,
  start_job, finish_job, put_result, take_result, leave_loop, close_dispatcher, of_worker,
  quit_worker, quit_next, act, run, run-Holds,
}
use mathlib.Core.List.{append_assoc}
use arbokcore.WorkerPool.Validity.{IsValid, act-IsValid, new_worker_pool-IsValid}
use arbokcore.WorkerPool.Jobs.{in_dispatcher, in_worker}
use arbokcore.WorkerPool.Order.{
  waiting_jobs, InOrder, shift, receive_job-InOrder, receive_closed-InOrder, fetch_bench-InOrder,
  hand_job-InOrder, offer_bench-InOrder, start_job-InOrder, finish_job-InOrder, put_result-InOrder,
  take_result-InOrder, leave_loop-InOrder,
}

module _ {ℓ} {E : Type ℓ} where
  close_dispatcher-InOrder :
      (d : Dispatcher E) (s : Pool E)
      → s.dispatcher ≡ d
      → InOrder s
      → Holds InOrder (close_dispatcher d s)
  unfolding close_dispatcher
  close_dispatcher-InOrder selecting s e o =
      Holds-if InOrder s.canceled _ (λ c. shift _ (refl, refl) (rw e refl) o)
  close_dispatcher-InOrder (holding job) s e o = tt
  close_dispatcher-InOrder (handing job i) s e o = tt
  close_dispatcher-InOrder returned s e o = tt

  stop-InOrder :
      (m : Option ℕ) (s : Pool E)
      → InOrder s
      → Holds InOrder (elim m [ none ↦ some (record s { stopping = some 0 }) | some i ↦ none ])
  stop-InOrder none s o = shift _ (refl, refl) refl o
  stop-InOrder (some i) s o = tt

  quit_worker-InOrder :
      (q : Phase E) (s : Pool E)
      → (s.workers 0).phase ≡ q
      → InOrder s
      → Holds InOrder (quit_worker 0 q s)
  unfolding quit_worker
  quit_worker-InOrder waiting s e o = shift _ (refl, refl) (rw e refl) o
  quit_worker-InOrder offering s e o = tt
  quit_worker-InOrder (busy job) s e o = tt
  quit_worker-InOrder (sending job) s e o = tt
  quit_worker-InOrder stopped s e o = tt

  -- The only worker is the one at 0.
  of_worker-InOrder :
      (i : ℕ) (s : Pool E) (moved : ℕ → Option (Pool E))
      → s.size ≡ 1
      → Holds InOrder (moved 0)
      → Holds InOrder (of_worker i s (moved i))
  of_worker-InOrder i s moved one h =
      Holds-if InOrder (ltb i s.size) (moved i)
        (λ b. subst (λ j. Holds InOrder (moved j)) (ground (arith, b, one)) h)

  quit_next-InOrder : (m : Option ℕ) (s : Pool E) → InOrder s → Holds InOrder (quit_next m s)
  unfolding quit_next
  quit_next-InOrder none s o = tt
  quit_next-InOrder (some i) s o =
      of_worker-InOrder i s (λ j. quit_worker j (s.workers j).phase s) o.one
        (quit_worker-InOrder (s.workers 0).phase s refl o)

  arrive-InOrder :
      (job : E) (s : Pool E)
      → InOrder s
      → InOrder (record s { pending = s.pending ++ job ∷ []; arrived = s.arrived ++ job ∷ [] })
  arrive-InOrder job s o = record {
    one = o.one;
    queue =
        ap (λ l. l ++ job ∷ []) o.queue
        ∙ append_assoc s.processed (waiting_jobs s) (job ∷ [])
        ∙ ap (λ l. s.processed ++ l)
            (append_assoc (in_worker (s.workers 0)) (in_dispatcher s.dispatcher ++ s.pending)
                (job ∷ [])
              ∙ ap (λ l. in_worker (s.workers 0) ++ l)
                  (append_assoc (in_dispatcher s.dispatcher) s.pending (job ∷ [])));
  }

  act-InOrder : (a : Action E) (s : Pool E) → IsValid s → InOrder s → Holds InOrder (act a s)
  unfolding act
  act-InOrder (arrive job) s v o = Holds-unless InOrder s.closed _ (arrive-InOrder job s o)
  act-InOrder close_channel s v o = Holds-unless InOrder s.closed _ (shift _ (refl, refl) refl o)
  act-InOrder (receive_zero job) s v o =
      receive_closed-InOrder job s.dispatcher s.pending s refl refl o
  act-InOrder receive s v o = receive_job-InOrder s.dispatcher s.pending s refl refl o
  act-InOrder fetch s v o = fetch_bench-InOrder s.dispatcher s.free s refl o
  act-InOrder hand s v o = hand_job-InOrder s.dispatcher s refl v o
  act-InOrder (offer i) s v o =
      of_worker-InOrder i s (λ j. offer_bench j (s.workers j).phase s) o.one
        (offer_bench-InOrder (s.workers 0).phase s refl o)
  act-InOrder (start i) s v o =
      of_worker-InOrder i s (λ j. start_job j (s.workers j).phase (s.workers j).bench s) o.one
        (start_job-InOrder (s.workers 0).phase (s.workers 0).bench s refl refl o)
  act-InOrder (finish i) s v o =
      of_worker-InOrder i s (λ j. finish_job j (s.workers j).phase s) o.one
        (finish_job-InOrder (s.workers 0).phase s refl o)
  act-InOrder (send_result i) s v o =
      of_worker-InOrder i s (λ j. put_result j (s.workers j).phase (s.workers j).result s) o.one
        (put_result-InOrder (s.workers 0).phase (s.workers 0).result s refl o)
  act-InOrder (read_result i) s v o =
      of_worker-InOrder i s (λ j. take_result j (s.workers j).result s) o.one
        (take_result-InOrder (s.workers 0).result s o)
  act-InOrder cancel s v o = shift _ (refl, refl) refl o
  act-InOrder (leave i) s v o =
      of_worker-InOrder i s (λ j. leave_loop j (s.workers j).phase s) o.one
        (leave_loop-InOrder (s.workers 0).phase s refl o)
  act-InOrder close s v o = close_dispatcher-InOrder s.dispatcher s refl o
  act-InOrder stop s v o = stop-InOrder s.stopping s o
  act-InOrder quit s v o = quit_next-InOrder s.stopping s o

  -- A pool with one worker processes the jobs in the order in which they arrive: after any run, with a
  -- cancellation, a `Stop` and the closing of the channel among its moves, what arrived is what was
  -- processed, in the same order, followed by the jobs of the worker, of the dispatcher and of its
  -- channel. A zero job received from the closed channel arrives when it is received.
  pub processed-arrived :
      (c : Bool) (moves : List (Action E)) (s : Pool E)
      → run moves (new_worker_pool 1 c) ≡ some s
      → s.arrived
        ≡ s.processed ++ (in_worker (s.workers 0) ++ (in_dispatcher s.dispatcher ++ s.pending))
  processed-arrived c moves s h =
      (subst (Holds (λ t. IsValid t × InOrder t)) h (
        run-Holds (λ t. IsValid t × InOrder t)
          (λ a t b.
            Holds-both IsValid InOrder (act a t) (act-IsValid a t b.0) (act-InOrder a t b.0 b.1))
          moves (new_worker_pool 1 c)
          (new_worker_pool-IsValid 1 c, record { one = refl; queue = refl }))).1.queue
