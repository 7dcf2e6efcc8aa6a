-- ===== src/WorkerPool/Jobs.antt =====
-- Every job that arrived is at one place of the pool, or was processed.
mod Workers
pub mod Runs
use arbokcore.Prelude.{
  ℕ, zero, suc, ◌+◌, ◌*◌, ◌≤◌, ◌<◌, List, [], ◌∷◌, ◌++◌, Option, none, some, Bool, true, false, ltb,
  eqb, ltb→lt, lt→ltb, eqb_iff, is_some, length-append, if◌then◌else◌, length, Bool-cases,
  Option-cases, Holds, Holds-if, inl, inr, ◌≡◌, refl, subst, ap, sym, arith,
}
use arbokcore.WorkerPool.{
  Phase, offering, waiting, busy, sending, stopped, Worker, Dispatcher, selecting, holding, handing,
  returned, Pool, put_at, Action, arrive, receive, fetch, hand, offer, start, finish, send_result,
  read_result, cancel, leave, close, stop, quit, new_worker_pool, set_worker, receive_job,
  receive_closed, fetch_bench, put_job, hand_job, offer_bench, start_job, finish_job, put_result,
  take_result, leave_loop, close_dispatcher, of_worker, quit_worker, quit_next, act, run,
}
use arbokcore.WorkerPool.Totals.{
  sum_to, count, count-append, sum_to-change, sum_to_mono, sum_to-count, sum_to-zero, sum_to-same,
  sum_to-put_at,
}
use arbokcore.WorkerPool.Benches.{
  in_hand, loose, held, seats, is_stopped, IsKept, pool-IsKept, set_worker-IsKept,
}

module _ {ℓ} {E : Type ℓ} where
  abbrev pub countp : (E → Bool) → List E → ℕ
  countp p [] = 0
  countp p (x ∷ xs) = (if p x then 1 else 0) + countp p xs

  pub countp-append :
      (p : E → Bool) (xs ys : List E) → countp p (xs ++ ys) ≡ countp p xs + countp p ys
  countp-append p [] ys = omega arith
  countp-append p (x ∷ xs) ys = omega (arith, countp-append p xs ys)

  abbrev pub in_dispatcher : Dispatcher E → List E
  in_dispatcher selecting = []
  in_dispatcher (holding job) = job ∷ []
  in_dispatcher (handing job i) = job ∷ []
  in_dispatcher returned = []

  abbrev pub in_phase : Phase E → List E
  in_phase offering = []
  in_phase waiting = []
  in_phase (busy job) = job ∷ []
  in_phase (sending job) = []
  in_phase stopped = []

  abbrev pub in_bench : Option E → List E
  in_bench none = []
  in_bench (some job) = job ∷ []

  -- The jobs that a worker has and has not processed.
  abbrev pub in_worker : Worker E → List E
  in_worker w = in_phase w.phase ++ in_bench w.bench

  abbrev pub unprocessed : (E → Bool) → Pool E → ℕ
  unprocessed p s =
      sum_to s.size (λ i. countp p (in_worker (s.workers i)))
      + countp p (in_dispatcher s.dispatcher)
      + countp p s.pending

  abbrev pub Accounted : (E → Bool) → Pool E → Type 0
  Accounted p s = countp p s.arrived ≡ countp p s.processed + unprocessed p s

  pub receive_job-Accounted :
      (p : E → Bool) (d : Dispatcher E) (pending : List E) (s : Pool E)
      → s.dispatcher ≡ d
      → s.pending ≡ pending
      → Accounted p s
      → Holds (Accounted p) (receive_job d pending s)
  unfolding receive_job
  receive_job-Accounted p selecting (job ∷ rest) s e f h = ground (arith, e, f, h)
  receive_job-Accounted p selecting [] s e f h = tt
  receive_job-Accounted p (holding job) pending s e f h = tt
  receive_job-Accounted p (handing job i) pending s e f h = tt
  receive_job-Accounted p returned pending s e f h = tt

  pub receive_closed-Accounted :
      (p : E → Bool) (job : E) (d : Dispatcher E) (pending : List E) (s : Pool E)
      → s.dispatcher ≡ d
      → s.pending ≡ pending
      → Accounted p s
      → Holds (Accounted p) (receive_closed job d pending s)
  unfolding receive_closed
  receive_closed-Accounted p job selecting [] s e f h =
      Holds-if (Accounted p) s.closed _
        (λ c. ground (arith, e, f, h, countp-append p s.arrived (job ∷ [])))
  receive_closed-Accounted p job selecting (other ∷ rest) s e f h = tt
  receive_closed-Accounted p job (holding other) pending s e f h = tt
  receive_closed-Accounted p job (handing other i) pending s e f h = tt
  receive_closed-Accounted p job returned pending s e f h = tt

  pub fetch_bench-Accounted :
      (p : E → Bool) (d : Dispatcher E) (free : List ℕ) (s : Pool E)
      → s.dispatcher ≡ d
      → Accounted p s
      → Holds (Accounted p) (fetch_bench d free s)
  unfolding fetch_bench
  fetch_bench-Accounted p (holding job) (i ∷ rest) s e h = ground (arith, e, h)
  fetch_bench-Accounted p (holding job) [] s e h = tt
  fetch_bench-Accounted p selecting free s e h = tt
  fetch_bench-Accounted p (handing job i) free s e h = tt
  fetch_bench-Accounted p returned free s e h = tt

  -- One worker is replaced.
  pub total-set_worker :
      (p : E → Bool) (i : ℕ) (w : Worker E) (s : Pool E)
      → i < s.size
      → sum_to s.size (λ j. countp p (in_worker (put_at s.workers i w j)))
          + countp p (in_worker (s.workers i))
        ≡ sum_to s.size (λ j. countp p (in_worker (s.workers j))) + countp p (in_worker w)
  total-set_worker p i w s = sum_to-put_at s.size (λ v. countp p (in_worker v)) s.workers i w

  pub hand_job-Accounted :
      (p : E → Bool) (d : Dispatcher E) (s : Pool E)
      → s.dispatcher ≡ d
      → ((i : ℕ) → s.size ≤ i → in_hand i d ≡ 0)
      → Accounted p s
      → Holds (Accounted p) (hand_job d s)
  unfolding hand_job put_job
  hand_job-Accounted p (handing job i) s e known h = elim (Option-cases (s.workers i).bench) [
    | inl empty ↦ rw empty (
        ground (
          arith,
          e,
          empty,
          h,
          total-set_worker p i (record (s.workers i) { bench = some job }) s
              (ground (arith, known i)),
          countp-append p (in_phase (s.workers i).phase) (job ∷ []),
          countp-append p (in_phase (s.workers i).phase) [],
        ))
    | inr full ↦ rw (full.1) tt
  ]
  hand_job-Accounted p selecting s e known h = tt
  hand_job-Accounted p (holding job) s e known h = tt
  hand_job-Accounted p returned s e known h = tt

  pub close_dispatcher-Accounted :
      (p : E → Bool) (d : Dispatcher E) (s : Pool E)
      → s.dispatcher ≡ d
      → Accounted p s
      → Holds (Accounted p) (close_dispatcher d s)
  unfolding close_dispatcher
  close_dispatcher-Accounted p selecting s e h =
      Holds-if (Accounted p) s.canceled _ (λ c. ground (arith, e, h))
  close_dispatcher-Accounted p (holding job) s e h = tt
  close_dispatcher-Accounted p (handing job i) s e h = tt
  close_dispatcher-Accounted p returned s e h = tt

  pub stop-Accounted :
      (p : E → Bool) (o : Option ℕ) (s : Pool E)
      → Accounted p s
      → Holds
          (Accounted p)
          (elim o [ none ↦ some (record s { stopping = some 0 }) | some i ↦ none ])
  stop-Accounted p none s h = h
  stop-Accounted p (some i) s h = tt
