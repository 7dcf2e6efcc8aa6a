-- ===== src/WorkerPool/Order.antt =====
-- A pool with one worker, as both callers of `NewWorkerPool` make it, keeps the order of the jobs.
pub mod Runs
use arbokcore.Prelude.{
  ℕ, zero, suc, ◌+◌, ◌*◌, ◌≤◌, ◌<◌, List, [], ◌∷◌, ◌++◌, Option, none, some, Bool, true, false, ltb,
  eqb, ltb→lt, lt→ltb, eqb_iff, is_some, length-append, if◌then◌else◌, length, Bool-cases,
  Option-cases, Holds, Holds-both, Holds-map, Holds-if, inl, inr, ◌≡◌, refl, subst, ap, sym, ◌∙◌,
  arith,
}
use arbokcore.WorkerPool.{
  Phase, offering, waiting, busy, sending, stopped, Worker, Dispatcher, selecting, holding, handing,
  returned, Pool, put_at, Action, arrive, receive, fetch, hand, offer, start, finish, send_result,
  read_result, cancel, leave, close, stop, quit, new_worker_pool, set_worker, receive_job,
  receive_closed, fetch_bench, put_job, hand_job, offer_bench, start_job, finish_job, put_result,
  take_result, leave_loop, close_dispatcher, of_worker, quit_worker, quit_next, act, run, run-Holds,
}
use arbokcore.WorkerPool.Totals.{
  sum_to, count, count-append, sum_to-change, sum_to_mono, sum_to-count, sum_to-zero, sum_to-same,
  sum_to-put_at,
}
use arbokcore.WorkerPool.Benches.{
  kept, in_hand, loose, held, seats, is_stopped, IsKept, pool-IsKept, set_worker-IsKept,
}
use mathlib.Core.List.{append_assoc}
use arbokcore.WorkerPool.Validity.{IsValid, act-IsValid, new_worker_pool-IsValid}
use arbokcore.WorkerPool.Jobs.{in_dispatcher, in_phase, in_bench, in_worker}

module _ {ℓ} {E : Type ℓ} where
  abbrev pub waiting_jobs : Pool E → List E
  waiting_jobs s = in_worker (s.workers 0) ++ (in_dispatcher s.dispatcher ++ s.pending)

  pub record InOrder (s : Pool E) : Type ℓ where
    pub one : s.size ≡ 1
    pub queue : s.arrived ≡ s.processed ++ waiting_jobs s

  -- A move that shifts no job past another.
  pub shift :
      {s : Pool E} (t : Pool E)
      → (t.size ≡ s.size) × (t.arrived ≡ s.arrived)
      → t.processed ++ waiting_jobs t ≡ s.processed ++ waiting_jobs s
      → InOrder s
      → InOrder t
  shift t same queue o = record { one = same.0 ∙ o.one; queue = same.1 ∙ o.queue ∙ sym queue }

  pub receive_job-InOrder :
      (d : Dispatcher E) (pending : List E) (s : Pool E)
      → s.dispatcher ≡ d
      → s.pending ≡ pending
      → InOrder s
      → Holds InOrder (receive_job d pending s)
  unfolding receive_job
  receive_job-InOrder selecting (job ∷ rest) s e f o = shift _ (refl, refl) (rw (e, f) refl) o
  receive_job-InOrder selecting [] s e f o = tt
  receive_job-InOrder (holding job) pending s e f o = tt
  receive_job-InOrder (handing job i) pending s e f o = tt
  receive_job-InOrder returned pending s e f o = tt

  pub receive_closed-InOrder :
      (job : E) (d : Dispatcher E) (pending : List E) (s : Pool E)
      → s.dispatcher ≡ d
      → s.pending ≡ pending
      → InOrder s
      → Holds InOrder (receive_closed job d pending s)
  unfolding receive_closed
  receive_closed-InOrder job selecting [] s e f o = Holds-if InOrder s.closed _ (λ c. record {
    one = o.one;
    queue =
        ap (λ l. l ++ job ∷ []) (o.queue ∙ rw (e, f) refl)
        ∙ append_assoc s.processed (in_worker (s.workers 0) ++ []) (job ∷ [])
        ∙ ap (λ l. s.processed ++ l) (append_assoc (in_worker (s.workers 0)) [] (job ∷ []))
        ∙ rw f refl;
  })
  receive_closed-InOrder job selecting (other ∷ rest) s e f o = tt
  receive_closed-InOrder job (holding other) pending s e f o = tt
  receive_closed-InOrder job (handing other i) pending s e f o = tt
  receive_closed-InOrder job returned pending s e f o = tt

  pub fetch_bench-InOrder :
      (d : Dispatcher E) (free : List ℕ) (s : Pool E)
      → s.dispatcher ≡ d
      → InOrder s
      → Holds InOrder (fetch_bench d free s)
  unfolding fetch_bench
  fetch_bench-InOrder (holding job) (i ∷ rest) s e o = shift _ (refl, refl) (rw e refl) o
  fetch_bench-InOrder (holding job) [] s e o = tt
  fetch_bench-InOrder selecting free s e o = tt
  fetch_bench-InOrder (handing job i) free s e o = tt
  fetch_bench-InOrder returned free s e o = tt

  kept-empty : (q : Phase E) → kept q ≡ 0 → in_phase q ≡ []
  kept-empty offering h = refl
  kept-empty waiting h = refl
  kept-empty (busy job) h = absurd (omega (arith, h))
  kept-empty (sending job) h = refl
  kept-empty stopped h = refl

  -- The worker whose bench is with the dispatcher has no job.
  handing-empty :
      (job : E) (s : Pool E)
      → IsValid s
      → s.size ≡ 1
      → s.dispatcher ≡ handing job 0
      → in_phase (s.workers 0).phase ≡ []
  handing-empty job s v one e = kept-empty (s.workers 0).phase (ground (arith, one, e, v.once 0))

  handing-first :
      (job : E) (i : ℕ) (s : Pool E) → IsValid s → s.size ≡ 1 → s.dispatcher ≡ handing job i → i ≡ 0
  handing-first job i s v one e = ground (arith, one, e, v.known i)

  pub put_job-InOrder :
      (job : E) (s : Pool E)
      → s.dispatcher ≡ handing job 0
      → IsValid s
      → InOrder s
      → Holds InOrder (put_job job 0 (s.workers 0) s)
  unfolding put_job
  put_job-InOrder job s e v o = elim (Option-cases (s.workers 0).bench) [
    | inl empty ↦
        rw empty (shift _ (refl, refl) (rw (e, empty, handing-empty job s v o.one e) refl) o)
    | inr full ↦ rw (full.1) tt
  ]

  pub hand_job-InOrder :
      (d : Dispatcher E) (s : Pool E)
      → s.dispatcher ≡ d
      → IsValid s
      → InOrder s
      → Holds InOrder (hand_job d s)
  unfolding hand_job
  hand_job-InOrder (handing job i) s e v o =
      subst (λ j. Holds InOrder (put_job job j (s.workers j) s))
        (sym (handing-first job i s v o.one e))
        (put_job-InOrder job s (e ∙ ap (λ j. handing job j) (handing-first job i s v o.one e)) v o)
  hand_job-InOrder selecting s e v o = tt
  hand_job-InOrder (holding job) s e v o = tt
  hand_job-InOrder returned s e v o = tt

  pub offer_bench-InOrder :
      (q : Phase E) (s : Pool E)
      → (s.workers 0).phase ≡ q
      → InOrder s
      → Holds InOrder (offer_bench 0 q s)
  unfolding offer_bench
  offer_bench-InOrder offering s e o =
      Holds-if InOrder (ltb (length s.free) s.size) _ (λ room. shift _ (refl, refl) (rw e refl) o)
  offer_bench-InOrder waiting s e o = tt
  offer_bench-InOrder (busy job) s e o = tt
  offer_bench-InOrder (sending job) s e o = tt
  offer_bench-InOrder stopped s e o = tt

  pub start_job-InOrder :
      (q : Phase E) (b : Option E) (s : Pool E)
      → (s.workers 0).phase ≡ q
      → (s.workers 0).bench ≡ b
      → InOrder s
      → Holds InOrder (start_job 0 q b s)
  unfolding start_job
  start_job-InOrder waiting (some job) s e f o = shift _ (refl, refl) (rw (e, f) refl) o
  start_job-InOrder waiting none s e f o = tt
  start_job-InOrder offering b s e f o = tt
  start_job-InOrder (busy job) b s e f o = tt
  start_job-InOrder (sending job) b s e f o = tt
  start_job-InOrder stopped b s e f o = tt

  in_phase-if : (c : Bool) (job : E) → in_phase (if c then sending job else offering) ≡ []
  in_phase-if true job = refl
  in_phase-if false job = refl

  finished :
      (job : E) (s : Pool E)
      → (s.workers 0).phase ≡ busy job
      → (s.processed ++ job ∷ [])
          ++ ((in_phase (if s.capture_result then sending job else offering)
                ++ in_bench (s.workers 0).bench)
              ++ (in_dispatcher s.dispatcher ++ s.pending))
        ≡ s.processed ++ waiting_jobs s
  finished job s e =
      rw (e, in_phase-if s.capture_result job) (append_assoc s.processed (job ∷ []) _)

  pub finish_job-InOrder :
      (q : Phase E) (s : Pool E)
      → (s.workers 0).phase ≡ q
      → InOrder s
      → Holds InOrder (finish_job 0 q s)
  unfolding finish_job
  finish_job-InOrder (busy job) s e o = shift _ (refl, refl) (finished job s e) o
  finish_job-InOrder offering s e o = tt
  finish_job-InOrder waiting s e o = tt
  finish_job-InOrder (sending job) s e o = tt
  finish_job-InOrder stopped s e o = tt

  pub put_result-InOrder :
      (q : Phase E) (r : Option E) (s : Pool E)
      → (s.workers 0).phase ≡ q
      → InOrder s
      → Holds InOrder (put_result 0 q r s)
  unfolding put_result
  put_result-InOrder (sending job) none s e o = shift _ (refl, refl) (rw e refl) o
  put_result-InOrder (sending job) (some other) s e o = tt
  put_result-InOrder offering r s e o = tt
  put_result-InOrder waiting r s e o = tt
  put_result-InOrder (busy job) r s e o = tt
  put_result-InOrder stopped r s e o = tt

  pub take_result-InOrder :
      (r : Option E) (s : Pool E) → InOrder s → Holds InOrder (take_result 0 r s)
  unfolding take_result
  take_result-InOrder none s o = tt
  take_result-InOrder (some job) s o = shift _ (refl, refl) refl o

  pub leave_loop-InOrder :
      (q : Phase E) (s : Pool E)
      → (s.workers 0).phase ≡ q
      → InOrder s
      → Holds InOrder (leave_loop 0 q s)
  unfolding leave_loop
  leave_loop-InOrder waiting s e o =
      Holds-if InOrder s.canceled _ (λ c. shift _ (refl, refl) (rw e refl) o)
  leave_loop-InOrder (sending job) s e o =
      Holds-if InOrder s.canceled _ (λ c. shift _ (refl, refl) (rw e refl) o)
  leave_loop-InOrder offering s e o = tt
  leave_loop-InOrder (busy job) s e o = tt
  leave_loop-InOrder stopped s e o = tt
